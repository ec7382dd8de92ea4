-- ===== src/Gate/Effect/Tests.antt =====
-- Patches that M0 passes and refuses.
use arazu.Prelude.{ℕ, ok, ◌≡◌, refl, ◌↔◌, codes, Text, scan_lines, has_prefix}
use arazu.Corpus.Reasons.{reason_empty_patch}
use arazu.Gate.Decision.{passed, failed, StageResult}
use arazu.Gate.Verify.Tests.{sample_input}
use arazu.Gate.Effect.{Opened, content, effect_run, count_lines, no_counts, is_header, count_line}
use arazu.Gate.Effect.Laws.{SomeChange, effect_run-iff-SomeChange}

abbrev pub sample_patch : Text
sample_patch = codes "--- a/x.c\n+++ b/x.c\n@@ -1,2 +1,2 @@\n-a\n+b\n c\n"

-- A patch that removes the line `-- a`, a comment of SQL or Lua, and adds none.
abbrev comment_patch : Text
comment_patch = codes "--- a/x.sql\n+++ b/x.sql\n@@ -1,2 +1 @@\n--- a\n b\n"

abbrev sample_files : ℕ → Text → Opened
sample_files w p = content sample_patch

count_sample :
    count_lines (scan_lines sample_patch) no_counts ≡ record { added = 1; removed = 1; hunks = 1 }
unfolding count_lines count_line is_header scan_lines has_prefix
count_sample = refl

count_comment :
    count_lines (scan_lines comment_patch) no_counts ≡ record { added = 0; removed = 0; hunks = 1 }
unfolding count_lines count_line is_header scan_lines has_prefix
count_comment = refl

effect_run-iff-SomeChange_example :
    (res : StageResult) × (effect_run sample_files sample_input 0 ≡ (ok res, 0))
    × ((res.outcome ≡ passed) ↔ SomeChange (scan_lines sample_patch))
    × ((res.outcome ≡ failed) ↔ (¬ SomeChange (scan_lines sample_patch)))
    × (res.outcome ≡ failed → res.reason ≡ reason_empty_patch)
effect_run-iff-SomeChange_example =
    effect_run-iff-SomeChange sample_files sample_input 0 sample_patch refl
