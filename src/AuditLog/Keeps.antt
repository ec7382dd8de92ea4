-- ===== src/AuditLog/Keeps.antt =====
-- Opening, appending and verifying agree.
use arazu.Prelude.{
  ℕ, suc, String, ◌≡◌, refl, ap, sym, ◌∙◌, subst, List, [], ◌∷◌, ◌++◌, Option, none, some, Result,
  ok, err, ok-injective, Text, newline, raw_lines,
}
use arazu.AuditLog.{
  Entry, Codec, next_seq, Progress, ScanError, scan_start, advance, hash, scan_from, scan, present,
  Log, LogError, resume, opened, open_log, Write, wrote, wrote_part, not_synced, draft, write_entry,
  marshalled, hashed, append, counted, verify_log,
}
use arazu.AuditLog.Lines.{Ended, Ended-append, raw_lines-append}
use arazu.AuditLog.Chain.{entries, Follows, Chain, scan-Chain}
use arazu.AuditLog.Append.{IsLine, Healthy, scan-extended, entries-extended, scan_from-prefix}

no_entry : {m : LogError} {e : Entry} → Path (Result LogError Entry) (err m) (ok e) → ⊥
no_entry h = cc

resume-file : (file : Text) (o : Option Entry) → (resume file o).file ≡ file
unfolding resume
resume-file file none = refl
resume-file file (some e) = refl

module _ (codec : Codec) where
  -- What `append` has written when it returns an entry.
  pub record Written (l : Log) (ts event detail : String) (e : Entry) (l' : Log) : Type 0 where
    pub line : Text
    pub encoded : codec.marshal e ≡ ok line
    pub hashed : hash codec e ≡ ok e.entry_hash
    pub stamped : record e { entry_hash = "" } ≡ draft l ts event detail
    pub left : l' ≡ record {
      file = l.file ++ (line ++ newline ∷ []);
      last_seq = e.seq;
      last_hash = e.entry_hash;
    }

  write_entry-ok :
      (l l' : Log) (e e' : Entry) (b : Text) (w : Write)
      → write_entry l e b w ≡ (ok e', l')
      → (e ≡ e')
        × (l' ≡ record {
          file = l.file ++ (b ++ newline ∷ []);
          last_seq = e'.seq;
          last_hash = e'.entry_hash;
        })
  unfolding write_entry
  write_entry-ok l l' e e' b wrote h =
      let s : e ≡ e' = ok-injective (ap (λ r. r.0) h) in
      (
        s,
        sym (ap (λ r. r.1) h)
            ∙ ap
                (λ (x : Entry). record {
                  file = l.file ++ (b ++ newline ∷ []);
                  last_seq = x.seq;
                  last_hash = x.entry_hash;
                })
                s,
      )
  write_entry-ok l l' e e' b (wrote_part part m) h = absurd (no_entry (ap (λ r. r.0) h))
  write_entry-ok l l' e e' b (not_synced m) h = absurd (no_entry (ap (λ r. r.0) h))

  marshalled-ok :
      (l l' : Log) (e e' : Entry) (r : Result String Text) (w : Write)
      → marshalled l e r w ≡ (ok e', l')
      → (b : Text) × (r ≡ ok b)
        × (e ≡ e')
        × (l' ≡ record {
          file = l.file ++ (b ++ newline ∷ []);
          last_seq = e'.seq;
          last_hash = e'.entry_hash;
        })
  unfolding marshalled
  marshalled-ok l l' e e' (ok b) w h =
      let (s, t) = write_entry-ok l l' e e' b w h in (b, refl, s, t)
  marshalled-ok l l' e e' (err m) w h = absurd (no_entry (ap (λ r. r.0) h))

  hash-draft :
      (l : Log) (ts event detail x : String)
      → hash codec (record (draft l ts event detail) { entry_hash = x })
        ≡ hash codec (draft l ts event detail)
  unfolding hash
  hash-draft l ts event detail x = refl

  hashed-Written :
      (l l' : Log) (ts event detail : String) (e' : Entry) (r : Result String String) (w : Write)
      → hash codec (draft l ts event detail) ≡ r
      → hashed codec l (draft l ts event detail) r w ≡ (ok e', l')
      → Written l ts event detail e' l'
  unfolding hashed
  hashed-Written l l' ts event detail e' (err m) w q h = absurd (no_entry (ap (λ r. r.0) h))
  hashed-Written l l' ts event detail e' (ok x) w q h =
      let (b, r, s, t) =
        marshalled-ok l l' (record (draft l ts event detail) { entry_hash = x }) e' _ w h in
      record {
        line = b;
        encoded = ap (λ (y : Entry). codec.marshal y) (sym s) ∙ r;
        hashed =
            ap (hash codec) (sym s)
            ∙ (hash-draft l ts event detail x ∙ (q ∙ ap (λ (y : Entry). ok y.entry_hash) s));
        stamped = ap (λ (y : Entry). record y { entry_hash = "" }) (sym s);
        left = t;
      }

  append-Written :
      (l l' : Log) (ts event detail : String) (e : Entry) (w : Write)
      → append codec l ts event detail w ≡ (ok e, l')
      → Written l ts event detail e l'
  unfolding append
  append-Written l l' ts event detail e w h =
      hashed-Written l l' ts event detail e (hash codec (draft l ts event detail)) w refl h

  Healthy-Follows :
      (l l' : Log) (n : ℕ) (ts event detail : String) (e : Entry) (g : Healthy codec l n)
      → Written l ts event detail e l'
      → Follows codec g.progress e
  Healthy-Follows l l' n ts event detail e g wr = record {
    in_order = ap (λ (y : Entry). y.seq) wr.stamped ∙ sym g.at_seq;
    chained = ap (λ (y : Entry). y.prev_hash) wr.stamped ∙ sym g.at_hash;
    hashed = wr.hashed;
  }

  Written-Healthy :
      (l : Log) (n : ℕ) (e : Entry) (m : Text) (g : Healthy codec l n)
      → IsLine codec e m
      → Follows codec g.progress e
      → Healthy codec
          (record {
            file = l.file ++ (m ++ newline ∷ []);
            last_seq = e.seq;
            last_hash = e.entry_hash;
          })
          (suc n)
  Written-Healthy l n e m g line f = record {
    progress = advance g.progress e;
    scanned = scan-extended codec l.file m g.progress e g.at_end g.scanned line f;
    counted_up = ap suc g.counted_up;
    at_end = Ended-append l.file m;
    at_seq = ap next_seq (sym f.in_order);
    at_hash = refl;
  }

  pub counted-Healthy :
      (l : Log) (n : ℕ) → Healthy codec l n → verify_log codec (present l.file) ≡ (n, none)
  unfolding verify_log counted
  counted-Healthy l n g = ap counted g.scanned ∙ ap (λ k. (k, none)) g.counted_up

  -- Appending to a log whose file verifies and is empty or ends in a newline, and whose number and
  -- hash are those of the file's last entry, when it returns the entry: `Verify` then counts one entry
  -- more and finds no error, the log stands behind the new entry in the same way, and the file holds
  -- that entry after the ones that it held. The entry is relied on to be encoded in one line that
  -- fits and is read back as the entry.
  pub append-Healthy :
      (l l' : Log) (n : ℕ) (ts event detail : String) (e : Entry) (w : Write)
      → Healthy codec l n
      → ((m : Text) → codec.marshal e ≡ ok m → IsLine codec e m)
      → append codec l ts event detail w ≡ (ok e, l')
      → Healthy codec l' (suc n)
        × (entries codec l'.file ≡ e ∷ entries codec l.file)
        × (verify_log codec (present l'.file) ≡ (suc n, none))
  append-Healthy l l' n ts event detail e w g lines h =
      let wr = append-Written l l' ts event detail e w h in
      let line = lines wr.line wr.encoded in
      let after : Healthy codec l' (suc n) =
        subst (λ x. Healthy codec x (suc n)) (sym wr.left)
          (Written-Healthy l n e wr.line g line (Healthy-Follows l l' n ts event detail e g wr)) in
      (
        after,
        ap (λ (x : Log). entries codec x.file) wr.left
            ∙ entries-extended codec l.file wr.line e g.at_end line,
        counted-Healthy l' (suc n) after,
      )

  counted-none :
      (r : Progress × Option ScanError) (n : ℕ)
      → counted r ≡ (n, none)
      → (p : Progress) × (r ≡ (p, none))
  unfolding counted
  counted-none (p, none) n h = (p, refl)
  counted-none (p, some e) n h = cc

  resume-Healthy :
      (file : Text) (p : Progress) (es : List Entry)
      → Ended file
      → scan codec file ≡ (p, none)
      → Chain codec es p
      → Healthy codec (resume file p.last) p.count
  unfolding resume
  resume-Healthy file p [] d h c =
      subst (λ (x : Progress). Healthy codec (resume file x.last) x.count) (sym c)
        (record {
          progress = scan_start;
          scanned = h ∙ ap (λ x. (x, none)) c;
          counted_up = refl;
          at_end = d;
          at_seq = refl;
          at_hash = refl;
        })
  resume-Healthy file p (e ∷ es) d h (q, _, f, a) =
      subst (λ (x : Progress). Healthy codec (resume file x.last) x.count) (sym a)
        (record {
          progress = advance q e;
          scanned = h ∙ ap (λ x. (x, none)) a;
          counted_up = refl;
          at_end = d;
          at_seq = ap next_seq (sym f.in_order);
          at_hash = refl;
        })

  opened-Healthy :
      (file : Text) (r : Progress × Option ScanError) (l : Log)
      → scan codec file ≡ r
      → Ended file
      → opened file r ≡ ok l
      → (n : ℕ) × Healthy codec l n × (l.file ≡ file)
  unfolding opened
  opened-Healthy file (p, some e) l h d o = cc
  opened-Healthy file (p, none) l h d o =
      let q : resume file p.last ≡ l = ok-injective o in
      (
        p.count,
        subst (λ x. Healthy codec x p.count) q
            (resume-Healthy file p (entries codec file) d h (scan-Chain codec file p h)),
        sym (ap (λ (x : Log). x.file) q) ∙ resume-file file p.last,
      )

  -- A file that is cut at the end of a line still verifies: that entries are missing at the end is
  -- not seen.
  pub verify_log-prefix :
      (file more : Text) (n : ℕ)
      → Ended file
      → verify_log codec (present (file ++ more)) ≡ (n, none)
      → (k : ℕ) × (verify_log codec (present file) ≡ (k, none))
  unfolding verify_log counted scan
  verify_log-prefix file more n d h =
      let (p, e) = counted-none (scan codec (file ++ more)) n h in
      let (q, k) =
        scan_from-prefix codec (raw_lines file) (raw_lines more) scan_start p
          (ap (scan_from codec scan_start) (sym (raw_lines-append file more d)) ∙ e) in
      (q.count, ap counted k)

  -- A log that `Open` returns for a file that ends in a newline stands behind the last entry of a
  -- chain that verifies, and its file is what was there.
  pub open_log-Healthy :
      (file : Text) (l : Log)
      → Ended file
      → open_log codec (present file) ≡ ok l
      → (n : ℕ) × Healthy codec l n × (l.file ≡ file)
  unfolding open_log
  open_log-Healthy file l d h = opened-Healthy file (scan codec file) l refl d h
