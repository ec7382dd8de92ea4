-- ===== src/AuditLog.antt =====
-- pkg/auditlog/auditlog.go: the hash-chained event log. The encoding of an entry (encoding/json) and
-- the digest of its bytes (SHA-256 in hexadecimal) are the parameter `Codec`; the file is its text.
pub mod Lines
pub mod Chain
pub mod Append
pub mod Keeps
pub mod Tests
use arazu.Prelude.{
  ℕ, zero, suc, ◌+◌, ◌*◌, ◌^◌, ◌%◌, String, ◌==◌, Bool, true, false, ltb, nat_eq, if◌then◌else◌,
  List, [], ◌∷◌, ◌++◌, Option, none, some, Result, ok, err, Text, newline, raw_lines, drop_cr,
  trim_space, byte_length,
}

pub record Entry : Type 0 where
  pub seq : ℕ
  pub ts : String
  pub event : String
  pub detail : String
  pub prev_hash : String
  pub entry_hash : String

pub record Codec : Type 0 where
  pub marshal : Entry → Result String Text
  pub unmarshal : Text → Result String Entry
  pub digest : Text → String

abbrev pub genesis_prev : String
genesis_prev = "0000000000000000000000000000000000000000000000000000000000000000"

-- A uint64 after `+ 1`.
abbrev pub next_seq : ℕ → ℕ
next_seq n = (n + 1) % 2 ^ 64

-- A line fits the scanner's buffer of 4 MiB with its newline.
pub fits : Text → Bool
unfolding byte_length
fits line = ltb (byte_length line) (4 * 1024 * 1024)

pub data ScanError : Type 0 where
  malformed_entry : ℕ → String → ScanError
  out_of_order : ℕ → ℕ → ScanError
  unchained altered : ℕ → ScanError
  unhashed : String → ScanError
  too_long : ScanError

-- The variables of the loop of `scan`; `last` has no value before the first entry.
pub record Progress : Type 0 where
  pub prev : String
  pub want_seq : ℕ
  pub last : Option Entry
  pub count : ℕ

abbrev pub scan_start : Progress
scan_start = record { prev = genesis_prev; want_seq = 1; last = none; count = 0 }

abbrev advance : Progress → Entry → Progress
advance p e = record {
  prev = e.entry_hash;
  want_seq = next_seq p.want_seq;
  last = some e;
  count = suc p.count;
}

pub go_on :
    Progress
    → Result ScanError Progress
    → (Progress → Progress × Option ScanError)
    → Progress × Option ScanError
go_on p (ok p') k = k p'
go_on p (err e) k = (p, some e)

module _ (codec : Codec) where
  digest_of : Result String Text → Result String String
  digest_of (ok b) = ok (codec.digest b)
  digest_of (err m) = err m

  -- Entry.hash
  pub hash : Entry → Result String String
  hash e = digest_of (codec.marshal (record e { entry_hash = "" }))

  check_hash : Progress → Entry → Result String String → Result ScanError Progress
  check_hash p e (err m) = err (unhashed m)
  check_hash p e (ok want) = if want == e.entry_hash then ok (advance p e) else err (altered e.seq)

  check_prev : Progress → Entry → Bool → Result ScanError Progress
  check_prev p e true = check_hash p e (hash e)
  check_prev p e false = err (unchained e.seq)

  check_seq : Progress → Entry → Bool → Result ScanError Progress
  check_seq p e true = check_prev p e (e.prev_hash == p.prev)
  check_seq p e false = err (out_of_order p.want_seq e.seq)

  pub check_entry : Progress → Entry → Result ScanError Progress
  check_entry p e = check_seq p e (nat_eq e.seq p.want_seq)

  pub parsed : Progress → Result String Entry → Result ScanError Progress
  parsed p (err m) = err (malformed_entry p.want_seq m)
  parsed p (ok e) = check_entry p e

  -- A line that is trimmed; an empty one is passed over.
  pub check_line : Progress → Text → Result ScanError Progress
  check_line p [] = ok p
  check_line p (c ∷ line) = parsed p (codec.unmarshal (c ∷ line))

  -- One turn of the loop: the line fits the buffer or not.
  pub check_raw : Progress → Text → Bool → Result ScanError Progress
  check_raw p line false = err too_long
  check_raw p line true = check_line p (trim_space (drop_cr line))

  pub scan_from : Progress → List Text → Progress × Option ScanError
  scan_from p [] = (p, none)
  scan_from p (line ∷ lines) = go_on p (check_raw p line (fits line)) (λ p'. scan_from p' lines)

  -- scan
  pub scan : Text → Progress × Option ScanError
  scan file = scan_from scan_start (raw_lines file)

-- What the operating system says of opening the file for reading.
pub data File : Type 0 where
  missing : File
  unreadable : String → File
  present : Text → File

-- Log, with the text of its file.
pub record Log : Type 0 where
  pub file : Text
  pub last_seq : ℕ
  pub last_hash : String

pub data LogError : Type 0 where
  broken_chain : ScanError → LogError
  failed : String → LogError
  absent : LogError

-- The log behind the last entry of its file.
resume : Text → Option Entry → Log
resume file none = record { file = file; last_seq = 0; last_hash = genesis_prev }
resume file (some e) = record { file = file; last_seq = e.seq; last_hash = e.entry_hash }

opened : Text → Progress × Option ScanError → Result LogError Log
unfolding resume
opened file (p, some e) = err (broken_chain e)
opened file (p, none) = ok (resume file p.last)

-- Open, when the file can then be opened for appending.
pub open_log : Codec → File → Result LogError Log
open_log codec missing = ok (resume [] none)
open_log codec (unreadable m) = err (failed m)
open_log codec (present file) = opened file (scan codec file)

-- What becomes of a write: all of it is on the file, or an error after a part of it, or all of it
-- with an error of the sync.
pub data Write : Type 0 where
  wrote : Write
  wrote_part : Text → String → Write
  not_synced : String → Write

-- The entry before it is hashed; the time is what the clock says.
abbrev pub draft : Log → String → String → String → Entry
draft l ts event detail = record {
  seq = next_seq l.last_seq;
  ts = ts;
  event = event;
  detail = detail;
  prev_hash = l.last_hash;
  entry_hash = "";
}

write_entry : Log → Entry → Text → Write → Result LogError Entry × Log
write_entry l e b wrote = (
  ok e,
  record { file = l.file ++ (b ++ newline ∷ []); last_seq = e.seq; last_hash = e.entry_hash },
)
write_entry l e b (wrote_part part m) = (err (failed m), record l { file = l.file ++ part })
write_entry l e b (not_synced m) =
    (err (failed m), record l { file = l.file ++ (b ++ newline ∷ []) })

marshalled : Log → Entry → Result String Text → Write → Result LogError Entry × Log
marshalled l e (err m) w = (err (failed m), l)
marshalled l e (ok b) w = write_entry l e b w

hashed : Codec → Log → Entry → Result String String → Write → Result LogError Entry × Log
hashed codec l e (err m) w = (err (failed m), l)
hashed codec l e (ok h) w =
    let e' = record e { entry_hash = h } in marshalled l e' (codec.marshal e') w

-- Append
pub append : Codec → Log → String → String → String → Write → Result LogError Entry × Log
append codec l ts event detail w =
    let e = draft l ts event detail in hashed codec l e (hash codec e) w

counted : Progress × Option ScanError → ℕ × Option LogError
counted (p, none) = (p.count, none)
counted (p, some e) = (p.count, some (broken_chain e))

-- Verify
pub verify_log : Codec → File → ℕ × Option LogError
verify_log codec missing = (0, some absent)
verify_log codec (unreadable m) = (0, some (failed m))
verify_log codec (present file) = counted (scan codec file)
