-- ===== src/Corpus/Case.antt =====
-- pkg/corpus/case.go: a case, its candidates and its paths.
use arazu.Prelude.{String, ◌||◌, ◌==◌, if◌then◌else◌, List, Option, Text, codes, ℤ}
use arazu.Corpus.Paths.{is_abs, join}

pub data Kind : Type 0 where
  oracle captured : Kind
  other_kind : String → Kind

pub data Label : Type 0 where
  good nonfunctional boundary_wrong incomplete_fix regression wrong_branch unclassified : Label
  other_label : String → Label

pub record Source : Type 0 where
  pub cp_repo : String
  pub cp_commit : String
  pub src_repo : String
  pub src_ref : String
  pub src_commit : String
  pub base_commit : String
  pub fuzz_tooling_repo : String
  pub fuzz_tooling_ref : String
  pub fuzz_tooling_commit : String
  pub fuzz_tooling_project : String

pub record PoV : Type 0 where
  pub input : String
  pub sanitizer : String
  pub expected_sanitizer : String
  pub crash_location : String
  pub signal : String
  pub input_root : String

pub record FalsifyingClass : Type 0 where
  pub description : String
  pub generator : String
  pub size : ℤ
  pub discriminator : String
  pub observer : String

pub record Candidate : Type 0 where
  pub id : String
  pub patch : String
  pub label : Label
  pub patch_root : String
  pub expected_gate_reason : Option String

pub record Case : Type 0 where
  pub id : String
  pub language : String
  pub cwe : String
  pub cwe_name : String
  pub target : String
  pub harness : String
  pub root : String
  pub source : Source
  pub pov : PoV
  pub kind : Kind
  pub reference_patch : String
  pub candidates : List Candidate
  pub falsifying_class : Option FalsifyingClass
  pub path : String

abbrev pub patch_root_challenge : String
patch_root_challenge = "challenge"

abbrev pub patch_root_repo : String
patch_root_repo = "repo"

unfoldable pub resolve_root : String → String → String → String → String
resolve_root override case_default challenge_root repo_root =
    let which = if override == "" then case_default else override in
    if which == patch_root_repo then repo_root else challenge_root

unfoldable pub join_root : String → String → Text
join_root root p = if is_abs (codes p) || root == "" then codes p else join (codes root) (codes p)

unfoldable pub input_path : Case → String → String → Text
unfolding resolve_root join_root
input_path c challenge_root repo_root =
    join_root (resolve_root c.pov.input_root c.root challenge_root repo_root) c.pov.input

unfoldable pub reference_patch_path : Case → String → String → Text
unfolding resolve_root join_root
reference_patch_path c challenge_root repo_root =
    join_root (resolve_root "" c.root challenge_root repo_root) c.reference_patch

unfoldable pub candidate_patch_path : Case → Candidate → String → String → Text
unfolding resolve_root join_root
candidate_patch_path c cand challenge_root repo_root =
    join_root (resolve_root cand.patch_root c.root challenge_root repo_root) cand.patch
