-- ===== src/CrsOut/Tests.antt =====
-- A run of one patch and one reproducer, and one of two patches.
use arazu.Prelude.{
  ◌≡◌, ◌↔◌, refl, Bool, true, false, List, [], ◌∷◌, none, ok, Text, codes, take, drop, text_eq,
  blank, has_prefix,
}
use arazu.CrsOut.{
  captured, unpairable, CaptureResult, Task, not_there, entries, before, insert_name, sort_names,
  without_suffix, keep_stem, stems, artifacts, tied, only_ones, or_only, pair, declined,
  paired_result, with_pov, with_diff, with_pair, with_report, with_artifacts, in_task, capture,
}
use arazu.CrsOut.Captured.{IsCaptured, capture-IsCaptured_iff}

abbrev with_names : List Text → List (Text × Bool)
with_names [] = []
with_names (n ∷ ns) = (n, false) ∷ with_names ns

abbrev task_of : List Text → Task
task_of names = record {
  is_dir = true;
  patches = entries (with_names names);
  povs = entries ((codes "v1.bin", false) ∷ (codes "notes.txt", false) ∷ []);
  bundles = not_there;
  read_patch = λ id. ok (codes "@@ -1 +1 @@");
  read_pov = λ id. ok (codes "A");
  read_bundle = λ id. none;
  expected_sanitizer = codes "heap-buffer-overflow";
  has_hunk = λ b. has_prefix b (codes "@@ -");
  write = λ b pb. ok (codes "out/case.yaml");
}

abbrev one_pair : CaptureResult
one_pair = record {
  outcome = captured;
  patch_id = codes "p1";
  pov_id = codes "v1";
  case_path = codes "out/case.yaml";
}

capture_one : capture (task_of (codes "p1.patch" ∷ [])) ≡ ok one_pair
unfolding capture in_task artifacts stems without_suffix keep_stem sort_names insert_name before
    with_artifacts with_report pair or_only tied only_ones with_pair with_diff with_pov
    paired_result blank take drop text_eq has_prefix
capture_one = refl

-- Two patches and no bundle: which one the reproducer is for is not guessed.
capture_two :
    capture (task_of (codes "p1.patch" ∷ codes "p2.patch" ∷ []))
    ≡ ok (record { outcome = unpairable; patch_id = []; pov_id = []; case_path = [] })
unfolding capture in_task artifacts stems without_suffix keep_stem sort_names insert_name before
    with_artifacts with_report pair or_only tied only_ones with_pair with_diff with_pov
    paired_result blank take drop text_eq has_prefix declined
capture_two = refl

capture-IsCaptured_iff_example :
    ((capture (task_of (codes "p1.patch" ∷ [])) ≡ ok one_pair) × (one_pair.outcome ≡ captured))
    ↔ (IsCaptured (task_of (codes "p1.patch" ∷ [])) one_pair × (one_pair.outcome ≡ captured))
capture-IsCaptured_iff_example = capture-IsCaptured_iff (task_of (codes "p1.patch" ∷ [])) one_pair
