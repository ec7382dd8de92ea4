-- ===== src/Corpus/Samples.antt =====
-- A case for the tests of the other modules, with the words of the worked example of the corpus.
use arazu.Prelude.{[], ◌∷◌, none, some, pos}
use arazu.Corpus.Case.{Source, PoV, FalsifyingClass, Candidate, Case, oracle, good}

abbrev pub sample_source : Source
sample_source = record {
  cp_repo = "challenge";
  cp_commit = "";
  src_repo = "nginx";
  src_ref = "main";
  src_commit = "";
  base_commit = "";
  fuzz_tooling_repo = "";
  fuzz_tooling_ref = "";
  fuzz_tooling_commit = "";
  fuzz_tooling_project = "";
}

abbrev sample_pov : PoV
sample_pov = record {
  input = "blobs/pov.bin";
  sanitizer = "address";
  expected_sanitizer = "AddressSanitizer: heap-buffer-overflow";
  crash_location = "http_parse";
  signal = "";
  input_root = "";
}

abbrev pub sample_class : FalsifyingClass
sample_class = record {
  description = "host headers by length";
  generator = "gen";
  size = pos 2;
  discriminator = "status";
  observer = "observe";
}

abbrev pub sample_candidate : Candidate
sample_candidate = record {
  id = "good-1";
  patch = "patches/good.diff";
  label = good;
  patch_root = "";
  expected_gate_reason = none;
}

abbrev pub sample_case : Case
sample_case = record {
  id = "nginx-1";
  language = "c";
  cwe = "CWE-122";
  cwe_name = "heap overflow";
  target = "nginx";
  harness = "pov_harness";
  root = "";
  source = sample_source;
  pov = sample_pov;
  kind = oracle;
  reference_patch = "patches/ref.diff";
  candidates = sample_candidate ∷ [];
  falsifying_class = some sample_class;
  path = "corpus/nginx-1.yaml";
}
