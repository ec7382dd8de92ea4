-- ===== src/Corpus/Site/Tests.antt =====
-- A report of one instrumented function.
use arazu.Prelude.{◌≡◌, refl, none, [], ◌∷◌, codes, text_eq, drop}
use arazu.Corpus.Site.{
  same, CrashSite, Patterns, is_empty, same_function, parse_report_sites, match_sites, some_sites,
  match_site, summary_sites, frame_sites, unseen, seen_site,
}

-- Patterns that find one summary, whatever the text.
abbrev sample_patterns : Patterns
sample_patterns = record {
  declared = λ t. none;
  summaries = λ t. (codes "png.c", codes "OSS_FUZZ_png_read") ∷ [];
  frames = λ t. [];
  base = λ t. t;
  equal_fold = λ s t. text_eq s t;
}

abbrev sample_site : CrashSite
sample_site = record { file = codes "png.c"; function = codes "png_read" }

same_instrumented : match_site sample_patterns sample_site (codes "SUMMARY") ≡ same
unfolding match_site some_sites match_sites parse_report_sites summary_sites frame_sites unseen
    is_empty same_function text_eq seen_site drop
same_instrumented = refl
