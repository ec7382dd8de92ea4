-- ===== src/Corpus/Site/Matching.antt =====
-- When a report shows the declared site, and when another one.
use arazu.Prelude.{Bool, true, false, ◌⊎◌, ◌&&◌, ◌≡◌, List, [], ◌∷◌, text_eq}
use arazu.Corpus.Site.{CrashSite, Patterns, same_function}

-- Some item of a list.
abbrev pub Some : {A : Type 0} → (A → Type 0) → List A → Type 0
Some P [] = ⊥
Some P (x ∷ xs) = P x ⊎ Some P xs

module _ (patterns : Patterns) (declared : CrashSite) where
  abbrev pub shows : CrashSite → Bool
  shows s = text_eq s.file declared.file && same_function s.function declared.function

  -- The site is at the declared function of the declared file, but for prefixes of instrumentation.
  abbrev pub Shows : CrashSite → Type 0
  Shows s = shows s ≡ true

  -- The site is in another file, whatever the case of the letters of its name.
  abbrev pub Elsewhere : CrashSite → Type 0
  Elsewhere s = (shows s ≡ false) × (patterns.equal_fold s.file declared.file ≡ false)
