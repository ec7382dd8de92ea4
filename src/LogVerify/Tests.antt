-- ===== src/LogVerify/Tests.antt =====
-- The command on a log that was opened and to which one entry was appended.
use arazu.Prelude.{◌≡◌, ◌+◌, refl, true, none, [], ◌∷◌}
use arazu.AuditLog.{present, wrote, verify_log}
use arazu.AuditLog.Tests.{
  codec, log_one, log_two, second, second-IsLine, append-second, one_entry, two_entries,
  open_log-log_one,
}
use arazu.LogVerify.{log_verify}
use arazu.LogVerify.Clean.{start, one_more, log_verify-Appended}

log_verify-Appended_example : log_verify codec true (present two_entries) ≡ record {
  decision = "CLEAN";
  entries = 1 + (verify_log codec (present one_entry)).0;
  reason = none;
  code = 0;
}
log_verify-Appended_example =
    log_verify-Appended codec one_entry log_one log_two (second ∷ []) refl open_log-log_one
      (second-IsLine, tt)
      (one_more "2026-01-01T00:01:00Z" "GATE_ACCEPT" "nginx-1/good-1" second wrote start
        append-second)
