-- ===== src/AuditLog/Append.antt =====
-- What appending does to a log that verifies, and what cutting it short does.
use arazu.Prelude.{
  ℕ, eq_iff, ◌≡◌, ◌≢◌, refl, ap, ◌∙◌, true, nat_eq, List, [], ◌∷◌, ◌++◌, Option, none, Result, ok,
  Text, newline, raw_lines, drop_cr, trim_space, arith,
}
use arazu.AuditLog.{
  Entry, Codec, next_seq, fits, ScanError, Progress, scan_start, advance, check_hash, check_prev,
  check_seq, check_entry, parsed, check_line, check_raw, go_on, scan_from, scan, Log,
}
use arazu.AuditLog.Lines.{Ended, OneLine, raw_lines-append, raw_lines-line}
use arazu.AuditLog.Chain.{entries, entries_from, entry_of, entry_or, Follows, go_on-ok}

path→nat_eq : (a b : ℕ) → a ≡ b → nat_eq a b ≡ true
path→nat_eq a b h = ground arith

go_on-next :
    (p q : Progress) (r : Result ScanError Progress) (k : Progress → Progress × Option ScanError)
    → r ≡ ok q
    → go_on p r k ≡ k q
unfolding go_on
go_on-next p q r k e = ap (λ x. go_on p x k) e

module _ (codec : Codec) where
  -- The scan of the first lines, when it meets no error, is where the scan of the rest starts.
  scan_from-append :
      (xs ys : List Text) (p q : Progress)
      → scan_from codec p xs ≡ (q, none)
      → scan_from codec p (xs ++ ys) ≡ scan_from codec q ys
  unfolding scan_from
  scan_from-append [] ys p q h = ap (λ r. scan_from codec r.0 ys) h
  scan_from-append (x ∷ xs) ys p q h =
      let (q', a, k) =
        go_on-ok codec p q (check_raw codec p x (fits x)) (λ u. scan_from codec u xs) h in
      go_on-next p q' (check_raw codec p x (fits x)) (λ u. scan_from codec u (xs ++ ys)) a
      ∙ scan_from-append xs ys q' q k

  pub scan_from-prefix :
      (xs ys : List Text) (p q : Progress)
      → scan_from codec p (xs ++ ys) ≡ (q, none)
      → (q' : Progress) × (scan_from codec p xs ≡ (q', none))
  unfolding scan_from
  scan_from-prefix [] ys p q h = (p, refl)
  scan_from-prefix (x ∷ xs) ys p q h =
      let (q', a, k) =
        go_on-ok codec p q (check_raw codec p x (fits x)) (λ u. scan_from codec u (xs ++ ys)) h in
      let (r, e) = scan_from-prefix xs ys q' q k in
      (r, go_on-next p q' (check_raw codec p x (fits x)) (λ u. scan_from codec u xs) a ∙ e)

  -- What the encoding of an entry is relied on for: it is one line with something on it and nothing
  -- to trim, the line fits the scanner's buffer, and decoding it gives the entry back.
  pub record IsLine (e : Entry) (m : Text) : Type 0 where
    pub encoded : codec.marshal e ≡ ok m
    pub decoded : codec.unmarshal m ≡ ok e
    pub one_line : OneLine m
    pub trimmed : trim_space (drop_cr m) ≡ m
    pub some_text : m ≢ []
    pub fitting : fits m ≡ true

  check_line-text :
      (p : Progress) (m : Text) (e : Entry)
      → m ≢ []
      → codec.unmarshal m ≡ ok e
      → check_line codec p m ≡ check_entry codec p e
  unfolding check_line parsed
  check_line-text p [] e n d = absurd (n refl)
  check_line-text p (c ∷ m) e n d = rw d refl

  entry_of-text :
      (es : List Entry) (m : Text) (e : Entry)
      → m ≢ []
      → codec.unmarshal m ≡ ok e
      → entry_of codec m es ≡ e ∷ es
  unfolding entry_of entry_or
  entry_of-text es [] e n d = absurd (n refl)
  entry_of-text es (c ∷ m) e n d = rw d refl

  Follows-check_entry :
      (p : Progress) (e : Entry) → Follows codec p e → check_entry codec p e ≡ ok (advance p e)
  unfolding check_entry check_seq check_prev check_hash
  Follows-check_entry p e f =
      ap (check_seq codec p e) (path→nat_eq e.seq p.want_seq f.in_order)
      ∙ (ap (check_prev codec p e) ((eq_iff e.prev_hash p.prev).1 f.chained)
          ∙ (ap (check_hash codec p e) f.hashed
              ∙ rw ((eq_iff e.entry_hash e.entry_hash).1 refl) refl))

  IsLine-scan_from :
      (p : Progress) (e : Entry) (m : Text)
      → IsLine e m
      → Follows codec p e
      → scan_from codec p (m ∷ []) ≡ (advance p e, none)
  unfolding scan_from
  IsLine-scan_from p e m l f = go_on-next p (advance p e) _ _ (
      ap (check_raw codec p m) l.fitting
      ∙ (unfold check_raw in
          (ap (check_line codec p) l.trimmed
            ∙ (check_line-text p m e l.some_text l.decoded ∙ Follows-check_entry p e f))))

  -- A log whose file verifies with `n` entries and stands where its last entry left it.
  pub record Healthy (l : Log) (n : ℕ) : Type 0 where
    pub progress : Progress
    pub scanned : scan codec l.file ≡ (progress, none)
    pub counted_up : progress.count ≡ n
    pub at_end : Ended l.file
    pub at_seq : progress.want_seq ≡ next_seq l.last_seq
    pub at_hash : progress.prev ≡ l.last_hash

  -- One more line.
  pub scan-extended :
      (file m : Text) (p : Progress) (e : Entry)
      → Ended file
      → scan codec file ≡ (p, none)
      → IsLine e m
      → Follows codec p e
      → scan codec (file ++ (m ++ newline ∷ [])) ≡ (advance p e, none)
  unfolding scan
  scan-extended file m p e d h l f =
      ap (scan_from codec scan_start) (
        raw_lines-append file (m ++ newline ∷ []) d
        ∙ ap (λ r. raw_lines file ++ r) (raw_lines-line m l.one_line))
      ∙ (scan_from-append (raw_lines file) (m ∷ []) scan_start p h ∙ IsLine-scan_from p e m l f)

  entries_from-append :
      (es : List Entry) (xs ys : List Text)
      → entries_from codec es (xs ++ ys) ≡ entries_from codec (entries_from codec es xs) ys
  unfolding entries_from
  entries_from-append es [] ys = refl
  entries_from-append es (x ∷ xs) ys =
      entries_from-append (entry_of codec (trim_space (drop_cr x)) es) xs ys

  pub entries-extended :
      (file m : Text) (e : Entry)
      → Ended file
      → IsLine e m
      → entries codec (file ++ (m ++ newline ∷ [])) ≡ e ∷ entries codec file
  unfolding entries
  entries-extended file m e d l =
      ap (entries_from codec []) (
        raw_lines-append file (m ++ newline ∷ []) d
        ∙ ap (λ r. raw_lines file ++ r) (raw_lines-line m l.one_line))
      ∙ (entries_from-append [] (raw_lines file) (m ∷ [])
          ∙ (unfold entries_from in
              (ap (λ t. entry_of codec t (entries_from codec [] (raw_lines file))) l.trimmed
                ∙ entry_of-text (entries_from codec [] (raw_lines file)) m e l.some_text
                    l.decoded)))
