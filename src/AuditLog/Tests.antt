-- ===== src/AuditLog/Tests.antt =====
-- Logs of one and two entries, with a codec for them.
use arazu.Prelude.{
  ℕ, ◌≡◌, refl, ap, subst, ok-injective, ◌∷◌, none, some, ok, err, Text, codes, raw_lines, push,
  drop_cr, trim_space, text_eq, byte_length, nat_eq, if◌then◌else◌,
}
use arazu.AuditLog.{
  Entry, Codec, Log, genesis_prev, fits, scan, scan_from, go_on, check_raw, check_line, parsed,
  check_entry, check_seq, check_prev, check_hash, hash, digest_of, present, verify_log, counted,
  open_log, opened, resume, append, hashed, marshalled, write_entry, wrote, not_synced,
  broken_chain, out_of_order, failed, scan_start, advance,
}
use arazu.AuditLog.Chain.{entries, entries_from, entry_of, entry_or, scan-injective}
use arazu.AuditLog.Append.{IsLine, Healthy}
use arazu.AuditLog.Keeps.{append-Healthy, open_log-Healthy, verify_log-prefix}

abbrev first : Entry
first = record {
  seq = 1;
  ts = "2026-01-01T00:00:00Z";
  event = "RUN_START";
  detail = "nginx-1";
  prev_hash = genesis_prev;
  entry_hash = "h1";
}

abbrev pub second : Entry
second = record {
  seq = 2;
  ts = "2026-01-01T00:01:00Z";
  event = "GATE_ACCEPT";
  detail = "nginx-1/good-1";
  prev_hash = "h1";
  entry_hash = "h2";
}

abbrev line_of : ℕ → Text
line_of n = if nat_eq n 1 then codes "{1}" else if nat_eq n 2 then codes "{2}" else codes "{}"

abbrev pub codec : Codec
codec = record {
  marshal = λ e. ok (line_of e.seq);
  unmarshal = λ t.
      if text_eq t (codes "{1}")
      then ok first
      else if text_eq t (codes "{2}")
      then ok second
      else err "unexpected end of JSON input";
  digest = λ t. if text_eq t (codes "{1}") then "h1" else "h2";
}

abbrev pub one_entry : Text
one_entry = codes "{1}\n"

abbrev spaced : Text
spaced = codes "\n{1}\n"

abbrev pub two_entries : Text
two_entries = codes "{1}\n{2}\n"

scan_one : scan codec one_entry ≡ (advance scan_start first, none)
unfolding scan scan_from go_on check_raw check_line parsed check_entry check_seq check_prev
    check_hash hash digest_of fits byte_length raw_lines push drop_cr trim_space text_eq
scan_one = refl

scan-spaced : scan codec spaced ≡ (advance scan_start first, none)
unfolding scan scan_from go_on check_raw check_line parsed check_entry check_seq check_prev
    check_hash hash digest_of fits byte_length raw_lines push drop_cr trim_space text_eq
scan-spaced = refl

scan-injective_example : entries codec one_entry ≡ entries codec spaced
scan-injective_example =
    scan-injective codec one_entry spaced (advance scan_start first) (advance scan_start first)
      (unfold entries entries_from entry_of entry_or raw_lines push drop_cr trim_space text_eq in
        (((λ h. refl), tt), tt))
      scan_one scan-spaced refl refl

abbrev pub log_one : Log
log_one = record { file = one_entry; last_seq = 1; last_hash = "h1" }

abbrev pub log_two : Log
log_two = record { file = two_entries; last_seq = 2; last_hash = "h2" }

pub log_one-Healthy : Healthy codec log_one 1
log_one-Healthy = record {
  progress = advance scan_start first;
  scanned = scan_one;
  counted_up = refl;
  at_end = refl;
  at_seq = refl;
  at_hash = refl;
}

pub second-IsLine : (m : Text) → codec.marshal second ≡ ok m → IsLine codec second m
second-IsLine m h =
    subst (λ t. IsLine codec second t) (ok-injective h)
      (record {
        encoded = refl;
        decoded = unfold text_eq in refl;
        one_line = (refl, (refl, (refl, tt)));
        trimmed = unfold trim_space drop_cr in refl;
        some_text = λ e. cc;
        fitting = unfold fits byte_length in refl;
      })

pub append-second :
    append codec log_one "2026-01-01T00:01:00Z" "GATE_ACCEPT" "nginx-1/good-1" wrote
    ≡ (ok second, log_two)
unfolding append hash digest_of hashed marshalled write_entry text_eq
append-second = refl

verify_two : verify_log codec (present two_entries) ≡ (2, none)
unfolding verify_log counted scan scan_from go_on check_raw check_line parsed check_entry check_seq
    check_prev check_hash hash digest_of fits byte_length raw_lines push drop_cr trim_space text_eq
verify_two = refl

append-Healthy_example :
    Healthy codec log_two 2
    × (entries codec two_entries ≡ second ∷ entries codec one_entry)
    × (verify_log codec (present two_entries) ≡ (2, none))
append-Healthy_example =
    append-Healthy codec log_one log_two 1 "2026-01-01T00:01:00Z" "GATE_ACCEPT" "nginx-1/good-1"
      second wrote log_one-Healthy second-IsLine append-second

pub open_log-log_one : open_log codec (present one_entry) ≡ ok log_one
unfolding open_log opened resume
open_log-log_one = ap (opened one_entry) scan_one

open_log-Healthy_example : (n : ℕ) × Healthy codec log_one n × (log_one.file ≡ one_entry)
open_log-Healthy_example = open_log-Healthy codec one_entry log_one refl open_log-log_one

verify_log-prefix_example : (k : ℕ) × (verify_log codec (present one_entry) ≡ (k, none))
verify_log-prefix_example = verify_log-prefix codec one_entry (codes "{2}\n") 2 refl verify_two

-- A sync that fails leaves its entry on the file and the log where it was, so that the next entry
-- takes the same number and the file does not verify.
abbrev synced_late : Log
synced_late = record { file = two_entries; last_seq = 1; last_hash = "h1" }

append_not_synced :
    append codec log_one "2026-01-01T00:01:00Z" "GATE_ACCEPT" "nginx-1/good-1" (not_synced "EIO")
    ≡ (err (failed "EIO"), synced_late)
unfolding append hash digest_of hashed marshalled write_entry text_eq
append_not_synced = refl

verify_after_not_synced :
    verify_log codec (
      present
        (append codec synced_late "2026-01-01T00:01:00Z" "GATE_ACCEPT" "nginx-1/good-1"
          wrote).1.file)
    ≡ (2, some (broken_chain (out_of_order 3 2)))
unfolding append hashed marshalled write_entry verify_log counted scan scan_from go_on check_raw
    check_line parsed check_entry check_seq check_prev check_hash hash digest_of fits byte_length
    raw_lines push drop_cr trim_space text_eq
verify_after_not_synced = refl
