-- ===== src/Corpus/Reasons.antt =====
-- pkg/corpus/case.go (the reason vocabulary) and pkg/corpus/stages.go: the reasons a stage can give
-- and which stage answers for each.
use arazu.Prelude.{String, Bool, ◌||◌, ◌==◌, if◌then◌else◌}

abbrev pub reason_empty_patch : String
reason_empty_patch = "empty-patch"

abbrev pub reason_pov_not_reproduced : String
reason_pov_not_reproduced = "pov-not-reproduced"

abbrev pub reason_patch_does_not_apply : String
reason_patch_does_not_apply = "patch-does-not-apply"

abbrev pub reason_pov_site_undetermined : String
reason_pov_site_undetermined = "pov-site-undetermined"

abbrev pub reason_revert_attribute_fail : String
reason_revert_attribute_fail = "revert-attribute-fail"

abbrev pub reason_class_replay_fail : String
reason_class_replay_fail = "class-replay-fail"

abbrev pub reason_class_not_defined : String
reason_class_not_defined = "class-not-defined"

abbrev pub reason_class_truncated : String
reason_class_truncated = "class-truncated"

abbrev pub reason_class_observer_missing : String
reason_class_observer_missing = "class-observer-missing"

abbrev pub reason_new_sanitizer_finding : String
reason_new_sanitizer_finding = "new-sanitizer-finding"

abbrev pub reason_new_test_failure : String
reason_new_test_failure = "new-test-failure"

abbrev pub reason_unadjudicated_behaviour_change : String
reason_unadjudicated_behaviour_change = "unadjudicated-behaviour-change"

abbrev pub reason_class_no_reference : String
reason_class_no_reference = "class-no-reference"

abbrev pub reason_nondeterministic : String
reason_nondeterministic = "nondeterministic"

abbrev pub stage_m0 : String
stage_m0 = "m0-patch-effect"

abbrev pub stage_m1 : String
stage_m1 = "m1-revert-to-attribute"

abbrev pub stage_m2 : String
stage_m2 = "m2-class-replay"

abbrev pub stage_m3 : String
stage_m3 = "m3-sanitizer-reachability"

abbrev pub stage_m5 : String
stage_m5 = "m5-non-determinism"

abbrev pub stage_unassigned : String
stage_unassigned = "unassigned"

is_m1_reason : String → Bool
is_m1_reason r =
    r == reason_pov_not_reproduced
    || r == reason_patch_does_not_apply
    || r == reason_revert_attribute_fail
    || r == reason_pov_site_undetermined

is_m2_reason : String → Bool
is_m2_reason r =
    r == reason_class_replay_fail
    || r == reason_class_not_defined
    || r == reason_unadjudicated_behaviour_change
    || r == reason_class_no_reference
    || r == reason_class_truncated
    || r == reason_class_observer_missing

-- StageFor
unfoldable pub stage_for : String → String
unfolding is_m1_reason is_m2_reason
stage_for r =
    if r == reason_empty_patch
    then stage_m0
    else if is_m1_reason r
    then stage_m1
    else if is_m2_reason r
    then stage_m2
    else if r == reason_new_sanitizer_finding || r == reason_new_test_failure
    then stage_m3
    else if r == reason_nondeterministic
    then stage_m5
    else stage_unassigned
