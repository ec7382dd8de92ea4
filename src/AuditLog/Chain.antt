-- ===== src/AuditLog/Chain.antt =====
-- What the chain of hashes protects.
use arazu.Prelude.{
  String, ◌==◌, eq_iff, ◌≡◌, refl, ap, sym, ◌∙◌, Bool, true, false, Bool-cases, inl, inr,
  nat_eq→path, List, [], ◌∷◌, Option, none, Result, ok, err, ok-injective, Text, raw_lines, drop_cr,
  trim_space, arith, All, All-weaken,
}
use arazu.AuditLog.{
  Entry, Codec, fits, ScanError, Progress, scan_start, advance, hash, check_hash, check_prev,
  check_seq, check_entry, parsed, check_line, check_raw, go_on, scan_from, scan,
}

module _ (codec : Codec) where
  unfoldable pub entry_or : Result String Entry → List Entry → List Entry
  entry_or (ok e) es = e ∷ es
  entry_or (err m) es = es

  unfoldable pub entry_of : Text → List Entry → List Entry
  entry_of [] es = es
  entry_of (c ∷ line) es = entry_or (codec.unmarshal (c ∷ line)) es

  -- The entries of the lines, the newest first, in front of those that are there.
  unfoldable pub entries_from : List Entry → List Text → List Entry
  entries_from es [] = es
  entries_from es (line ∷ lines) = entries_from (entry_of (trim_space (drop_cr line)) es) lines

  -- The entries that a file holds, the newest first.
  unfoldable pub entries : Text → List Entry
  entries file = entries_from [] (raw_lines file)

  -- An entry that the scan accepts.
  pub record Follows (q : Progress) (e : Entry) : Type 0 where
    pub in_order : e.seq ≡ q.want_seq
    pub chained : e.prev_hash ≡ q.prev
    pub hashed : hash codec e ≡ ok e.entry_hash

  check_hash-ok :
      (q p : Progress) (e : Entry) (h : Result String String)
      → check_hash codec q e h ≡ ok p
      → (h ≡ ok e.entry_hash) × (p ≡ advance q e)
  unfolding check_hash
  check_hash-ok q p e (err m) a = cc
  check_hash-ok q p e (ok want) a = elim (Bool-cases (want == e.entry_hash)) [
    | inl b ↦ (ap ok ((eq_iff want e.entry_hash).0 b), sym (ok-injective (rw b at a)))
    | inr b ↦ cc (rw b at a)
  ]

  check_prev-ok :
      (q p : Progress) (e : Entry) (b : Bool)
      → check_prev codec q e b ≡ ok p
      → (b ≡ true) × (hash codec e ≡ ok e.entry_hash) × (p ≡ advance q e)
  unfolding check_prev
  check_prev-ok q p e true a = let (h, n) = check_hash-ok q p e (hash codec e) a in (refl, h, n)
  check_prev-ok q p e false a = cc

  check_seq-ok :
      (q p : Progress) (e : Entry) (b : Bool)
      → check_seq codec q e b ≡ ok p
      → (b ≡ true)
        × ((e.prev_hash == q.prev) ≡ true)
        × (hash codec e ≡ ok e.entry_hash)
        × (p ≡ advance q e)
  unfolding check_seq
  check_seq-ok q p e true a = let (b, h, n) = check_prev-ok q p e _ a in (refl, b, h, n)
  check_seq-ok q p e false a = cc

  pub check_entry-ok :
      (q p : Progress) (e : Entry) → check_entry codec q e ≡ ok p → Follows q e × (p ≡ advance q e)
  unfolding check_entry
  check_entry-ok q p e a =
      let (s, c, h, n) = check_seq-ok q p e _ a in
      (
        record {
          in_order = nat_eq→path _ _ s;
          chained = (eq_iff e.prev_hash q.prev).0 c;
          hashed = h;
        },
        n,
      )

  -- The entries, the newest first, that the scan has accepted on its way to `p`.
  abbrev pub Chain : List Entry → Progress → Type 0
  Chain [] p = p ≡ scan_start
  Chain (e ∷ older) p = (q : Progress) × Chain older q × Follows q e × (p ≡ advance q e)

  parsed-Chain :
      (es : List Entry) (q p : Progress) (r : Result String Entry)
      → Chain es q
      → parsed codec q r ≡ ok p
      → Chain (entry_or r es) p
  unfolding parsed entry_or
  parsed-Chain es q p (ok e) c h = let (f, n) = check_entry-ok q p e h in (q, c, f, n)
  parsed-Chain es q p (err m) c h = cc

  check_line-Chain :
      (es : List Entry) (q p : Progress) (line : Text)
      → Chain es q
      → check_line codec q line ≡ ok p
      → Chain (entry_of line es) p
  unfolding check_line entry_of
  check_line-Chain [] q p [] c h = sym (ok-injective h) ∙ c
  check_line-Chain (e ∷ es) q p [] c h = (c.0, c.1, c.2, sym (ok-injective h) ∙ c.3)
  check_line-Chain es q p (x ∷ line) c h = parsed-Chain es q p (codec.unmarshal (x ∷ line)) c h

  check_raw-Chain :
      (es : List Entry) (q p : Progress) (line : Text) (b : Bool)
      → Chain es q
      → check_raw codec q line b ≡ ok p
      → Chain (entry_of (trim_space (drop_cr line)) es) p
  unfolding check_raw
  check_raw-Chain es q p line true c h = check_line-Chain es q p (trim_space (drop_cr line)) c h
  check_raw-Chain es q p line false c h = cc

  pub go_on-ok :
      (q p : Progress) (r : Result ScanError Progress) (k : Progress → Progress × Option ScanError)
      → go_on q r k ≡ (p, none)
      → (q' : Progress) × (r ≡ ok q') × (k q' ≡ (p, none))
  unfolding go_on
  go_on-ok q p (ok q') k h = (q', refl, h)
  go_on-ok q p (err e) k h = cc

  scan_from-Chain :
      (lines : List Text) (es : List Entry) (q p : Progress)
      → Chain es q
      → scan_from codec q lines ≡ (p, none)
      → Chain (entries_from es lines) p
  unfolding scan_from entries_from
  scan_from-Chain [] [] q p c h = sym (ap (λ r. r.0) h) ∙ c
  scan_from-Chain [] (e ∷ es) q p c h = (c.0, c.1, c.2, sym (ap (λ r. r.0) h) ∙ c.3)
  scan_from-Chain (line ∷ lines) es q p c h =
      let (q', a, k) = go_on-ok q p (check_raw codec q line (fits line)) _ h in
      scan_from-Chain lines (entry_of (trim_space (drop_cr line)) es) q' p
        (check_raw-Chain es q q' line (fits line) c a) k

  pub scan-Chain :
      (file : Text) (p : Progress) → scan codec file ≡ (p, none) → Chain (entries file) p
  unfolding scan entries
  scan-Chain file p h = scan_from-Chain (raw_lines file) [] scan_start p refl h

abbrev unhashed_entry : Entry → Entry
unhashed_entry e = record e { entry_hash = "" }

-- No entry of the one list has the digest of a different entry of the other.
abbrev pub NoCollision : Codec → List Entry → List Entry → Type 0
NoCollision codec es fs =
    All (λ e. All (λ f. hash codec e ≡ hash codec f → unhashed_entry e ≡ unhashed_entry f) fs) es

module _ (codec : Codec) where
  same_entry :
      (e f : Entry)
      → (hash codec e ≡ hash codec f → unhashed_entry e ≡ unhashed_entry f)
      → hash codec e ≡ ok e.entry_hash
      → hash codec f ≡ ok f.entry_hash
      → e.entry_hash ≡ f.entry_hash
      → e ≡ f
  same_entry e f free he hf h =
      let same = free (he ∙ (ap ok h ∙ sym hf)) in λ i. record (same i) { entry_hash = h i }

  same-Chain :
      (es fs : List Entry) (p q : Progress)
      → NoCollision codec es fs
      → Chain codec es p
      → Chain codec fs q
      → p.count ≡ q.count
      → p.prev ≡ q.prev
      → es ≡ fs
  same-Chain [] [] p q free a b n h = refl
  same-Chain [] (f ∷ fs) p q free a (q', _, _, b) n h =
      cc (ap (λ (x : Progress). x.count) a, ap (λ (x : Progress). x.count) b, n)
  same-Chain (e ∷ es) [] p q free (p', _, _, a) b n h =
      cc (ap (λ (x : Progress). x.count) a, ap (λ (x : Progress). x.count) b, n)
  same-Chain (e ∷ es) (f ∷ fs) p q (free, frees) (p', a, af, ae) (q', b, bf, be) n h =
      let head : e ≡ f =
        same_entry e f free.0 af.hashed bf.hashed
          (ap (λ (x : Progress). x.prev) (sym ae) ∙ (h ∙ ap (λ (x : Progress). x.prev) be)) in
      let tail : es ≡ fs =
        same-Chain es fs p' q' (All-weaken es (λ x k. k.1) frees) a b
          (omega (arith, ap (λ (x : Progress). x.count) ae, ap (λ (x : Progress). x.count) be, n))
          (sym af.chained ∙ (ap (λ (x : Entry). x.prev_hash) head ∙ bf.chained)) in
      cc (head, tail)

  -- The last hash and the number of entries fix the whole log: two files that the scan accepts
  -- with the same number of entries and the same last hash hold the same entries, unless an entry
  -- of the one has the digest of a different entry of the other.
  pub scan-injective :
      (file file' : Text) (p p' : Progress)
      → NoCollision codec (entries codec file) (entries codec file')
      → scan codec file ≡ (p, none)
      → scan codec file' ≡ (p', none)
      → p.count ≡ p'.count
      → p.prev ≡ p'.prev
      → entries codec file ≡ entries codec file'
  scan-injective file file' p p' free h h' n e =
      same-Chain (entries codec file) (entries codec file') p p' free (scan-Chain codec file p h)
        (scan-Chain codec file' p' h') n e
