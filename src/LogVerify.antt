-- ===== src/LogVerify.antt =====
-- cmd/log-verify/main.go: the command that checks a log. What it prints beside its decision is left
-- out.
pub mod Clean
mod Tests
use arazu.Prelude.{ℕ, String, Bool, true, false, Option, none, some}
use arazu.AuditLog.{Codec, File, LogError, verify_log}

-- decision, with the code that the command exits with.
pub record LogDecision : Type 0 where
  pub decision : String
  pub entries : ℕ
  pub reason : Option LogError
  pub code : ℕ

of_verify : ℕ × Option LogError → LogDecision
of_verify (n, none) = record { decision = "CLEAN"; entries = n; reason = none; code = 0 }
of_verify (n, some e) = record { decision = "BROKEN"; entries = n; reason = some e; code = 1 }

-- main, of whether a path is given and what is at it.
pub log_verify : Codec → Bool → File → LogDecision
log_verify codec false file = record { decision = "ERROR"; entries = 0; reason = none; code = 2 }
log_verify codec true file = of_verify (verify_log codec file)
