-- ===== src/LogVerify/Clean.antt =====
-- A log that is opened and only appended to stays clean.
use arazu.Prelude.{
  ℕ, ◌+◌, String, true, none, ◌≡◌, ◌∙◌, sym, ap, subst, arith, List, [], ◌∷◌, length, ok, Text, All,
}
use arazu.AuditLog.{Codec, Entry, Log, Write, present, append, open_log, verify_log}
use arazu.AuditLog.Lines.{Ended}
use arazu.AuditLog.Append.{Healthy, IsLine}
use arazu.AuditLog.Keeps.{append-Healthy, counted-Healthy, open_log-Healthy}
use arazu.LogVerify.{of_verify, log_verify}

-- Appends that each returned their entry, the last one first.
pub data Appended (codec : Codec) (l : Log) : List Entry → Log → Type 0 where
  start : Appended codec l [] l
  one_more :
      {es : List Entry} {l1 l2 : Log} (ts event detail : String) (e : Entry) (w : Write)
      → Appended codec l es l1
      → append codec l1 ts event detail w ≡ (ok e, l2)
      → Appended codec l (e ∷ es) l2

-- Whatever the entry is encoded in is one line that fits and is read back as the entry.
abbrev pub Readable : Codec → Entry → Type 0
Readable codec e = (m : Text) → codec.marshal e ≡ ok m → IsLine codec e m

Appended-Healthy :
    {codec : Codec} {l l' : Log} {es : List Entry} (n : ℕ)
    → Healthy codec l n
    → Appended codec l es l'
    → All (Readable codec) es
    → Healthy codec l' (length es + n)
Appended-Healthy n h start lines = subst (Healthy _ _) (omega arith) h
Appended-Healthy {codec} n h (one_more {es} {l1} {l2} ts event detail e w as_before ran)
      (line, lines) =
    subst (Healthy codec l2) (omega arith) (
      (append-Healthy codec l1 l2 (length es + n) ts event detail e w
        (Appended-Healthy n h as_before lines) line ran).0)

-- After `Open` of a file that is empty or ends in a newline, and any number of appends to that log
-- that each returned their entry, with none in between that failed, the command finds the file
-- clean, with those entries counted behind the ones that the file held. Each entry is relied on to
-- be encoded in one line that fits and is read back as the entry.
pub log_verify-Appended :
    (codec : Codec) (file : Text) (l l' : Log) (es : List Entry)
    → Ended file
    → open_log codec (present file) ≡ ok l
    → All (Readable codec) es
    → Appended codec l es l'
    → log_verify codec true (present l'.file) ≡ record {
      decision = "CLEAN";
      entries = length es + (verify_log codec (present file)).0;
      reason = none;
      code = 0;
    }
unfolding log_verify of_verify
log_verify-Appended codec file l l' es d o lines a =
    let (n, h, same_file) = open_log-Healthy codec file l d o in
    let counted : n ≡ (verify_log codec (present file)).0 =
      sym (ap (λ r. r.0) (counted-Healthy codec l n h))
      ∙ ap (λ f. (verify_log codec (present f)).0) same_file in
    ap of_verify (counted-Healthy codec l' (length es + n) (Appended-Healthy n h a lines))
    ∙ ap (λ k. of_verify (length es + k, none)) counted
