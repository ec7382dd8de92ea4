-- ===== src/Gate.antt =====
-- pkg/gate: the acceptance bar.
pub mod Decision
pub mod Verify
pub mod Effect
pub mod Exec
