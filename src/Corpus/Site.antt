-- ===== src/Corpus/Site.antt =====
-- pkg/corpus/crashsite.go: the site of a crash in a report against the one that a case declares.
pub mod Matching
mod Tests
use arazu.Prelude.{
  String, Bool, true, false, ◌&&◌, ◌||◌, if◌then◌else◌, List, [], ◌∷◌, ◌++◌, length, drop, Option,
  none, some, Text, codes, text_eq, has_prefix,
}

pub data SiteMatch : Type 0 where
  same differ undetermined : SiteMatch

abbrev pub show_site : SiteMatch → String
show_site same = "same"
show_site differ = "different"
show_site undetermined = "undetermined"

abbrev pub is_differ : SiteMatch → Bool
is_differ differ = true
is_differ _ = false

-- CrashSite
pub record CrashSite : Type 0 where
  pub file : Text
  pub function : Text

-- What is used of regexp, path/filepath and strings: the submatches of the three patterns in a text,
-- filepath.Base, and strings.EqualFold.
pub record Patterns : Type 0 where
  pub declared : Text → Option (Text × Text)
  pub summaries : Text → List (Text × Text)
  pub frames : Text → List (Text × Text)
  pub base : Text → Text
  pub equal_fold : Text → Text → Bool

-- CrashSite.empty
unfoldable pub is_empty : CrashSite → Bool
unfolding text_eq
is_empty s = text_eq s.file [] && text_eq s.function []

-- strings.TrimPrefix
unfoldable pub trim_prefix : Text → Text → Text
unfolding has_prefix
trim_prefix s p = if has_prefix s p then drop (length p) s else s

-- The one prefix of instrumentationPrefixes.
unfoldable pub strip : Text → Text
unfolding trim_prefix
strip s = trim_prefix s (codes "OSS_FUZZ_")

-- sameFunction
unfoldable pub same_function : Text → Text → Bool
unfolding strip text_eq
same_function a b = text_eq (strip a) (strip b)

same_site : CrashSite → CrashSite → Bool
same_site s t = text_eq s.file t.file && text_eq s.function t.function

seen_site : CrashSite → List CrashSite → Bool
seen_site s [] = false
seen_site s (t ∷ ts) = same_site s t || seen_site s ts

module _ (patterns : Patterns) where
  site_of : Option (Text × Text) → CrashSite
  site_of none = record { file = []; function = [] }
  site_of (some (fn, path)) = record { file = patterns.base path; function = fn }

  -- ParseDeclaredSite
  pub parse_declared_site : Text → CrashSite
  parse_declared_site s = site_of (patterns.declared s)

  -- The sites that are not among `seen`, each once.
  unseen : List CrashSite → List CrashSite → List CrashSite
  unseen seen [] = []
  unseen seen (s ∷ ss) =
      let first = unseen (s ∷ seen) ss in
      let again = unseen seen ss in if seen_site s seen then again else s ∷ first

  summary_sites : List (Text × Text) → List CrashSite
  summary_sites [] = []
  summary_sites ((path, fn) ∷ ms) =
      record { file = patterns.base path; function = fn } ∷ summary_sites ms

  frame_sites : List (Text × Text) → List CrashSite
  frame_sites [] = []
  frame_sites ((fn, path) ∷ ms) =
      record { file = patterns.base path; function = fn } ∷ frame_sites ms

  -- ParseReportSites
  pub parse_report_sites : Text → List CrashSite
  parse_report_sites report =
      unseen [] (summary_sites (patterns.summaries report) ++ frame_sites (patterns.frames report))

  -- The loop of MatchSite, with its variable `sameFile`.
  pub match_sites : CrashSite → List CrashSite → Bool → SiteMatch
  match_sites declared [] same_file = if same_file then undetermined else differ
  match_sites declared (s ∷ ss) same_file =
      let rest = match_sites declared ss (same_file || patterns.equal_fold s.file declared.file) in
      if text_eq s.file declared.file && same_function s.function declared.function
      then same
      else rest

  some_sites : CrashSite → List CrashSite → SiteMatch
  some_sites declared [] = undetermined
  some_sites declared (s ∷ ss) = match_sites declared (s ∷ ss) false

  -- MatchSite
  pub match_site : CrashSite → Text → SiteMatch
  match_site declared report =
      let found = some_sites declared (parse_report_sites report) in
      if is_empty declared then undetermined else found
