-- ===== src/CrsOut.antt =====
-- pkg/crsout/crsout.go: the capture of a run's output as a case. What the file system holds of the
-- task is the record `Task`; the decoding of a bundle, the pattern of a hunk header and the text of
-- the case are given with it. The evidence and the details of a result are left out.
pub mod Paired
pub mod Captured
mod Tests
use arazu.Prelude.{
  ℕ, zero, suc, ◌-◌, String, Bool, true, false, not, ◌&&◌, ◌||◌, ltb, nat_eq, if◌then◌else◌, List,
  [], ◌∷◌, ◌++◌, length, take, drop, Option, none, some, Result, ok, err, ◌>>=◌, ◌>>◌, Checks, Text,
  codes, text_eq, blank,
}

-- Outcome
pub data Capture : Type 0 where
  captured : Capture
  no_run : Capture
  no_patch : Capture
  no_pov : Capture
  unpairable : Capture
  malformed : Capture
  no_sanitizer_report : Capture

pub record CaptureResult : Type 0 where
  pub outcome : Capture
  pub patch_id : Text
  pub pov_id : Text
  pub case_path : Text

pub record Bundle : Type 0 where
  pub bundle_id : Text
  pub task_id : Text
  pub pov_id : Text
  pub patch_id : Text

-- os.ReadDir: the names, and whether each is a directory.
pub data Listing : Type 0 where
  not_there : Listing
  unlisted : String → Listing
  entries : List (Text × Bool) → Listing

pub record Task : Type 0 where
  pub is_dir : Bool
  pub patches : Listing
  pub povs : Listing
  pub bundles : Listing
  pub read_patch : Text → Result String Text
  pub read_pov : Text → Result String Text
  pub read_bundle : Text → Option Bundle
  pub expected_sanitizer : Text
  pub has_hunk : Text → Bool
  pub write : Text → Text → Result String Text

before : Text → Text → Bool
before [] [] = false
before [] (d ∷ t) = true
before (c ∷ s) [] = false
before (c ∷ s) (d ∷ t) = ltb c d || nat_eq c d && before s t

insert_name : Text → List Text → List Text
insert_name t [] = t ∷ []
insert_name t (s ∷ ss) = let rest = insert_name t ss in if before s t then s ∷ rest else t ∷ s ∷ ss

-- sort.Strings
pub sort_names : List Text → List Text
sort_names [] = []
sort_names (t ∷ ts) = insert_name t (sort_names ts)

-- strings.TrimSuffix, when the suffix is there.
without_suffix : Text → Text → Option Text
without_suffix ext name =
    if text_eq (drop (length name - length ext) name) ext
    then some (take (length name - length ext) name)
    else none

keep_stem : Option Text → List Text → List Text
keep_stem none rest = rest
keep_stem (some stem) rest = stem ∷ rest

stems : Text → List (Text × Bool) → List Text
stems ext [] = []
stems ext ((name, is_dir) ∷ more) =
    let rest = stems ext more in if is_dir then rest else keep_stem (without_suffix ext name) rest

-- artifacts
pub artifacts : Text → Listing → Result String (List Text)
artifacts ext not_there = ok []
artifacts ext (unlisted e) = err e
artifacts ext (entries names) = ok (sort_names (stems ext names))

pub is_empty : Text → Bool
is_empty [] = true
is_empty (c ∷ t) = false

-- A bundle names a patch and a reproducer.
pub ties : Option Bundle → Option (Text × Text)
ties none = none
ties (some b) =
    if not (is_empty b.patch_id) && not (is_empty b.pov_id)
    then some (b.patch_id, b.pov_id)
    else none

-- The first bundle that ties the two.
pub tied : (Text → Option Bundle) → List Text → Option (Text × Text)
tied read [] = none
tied read (id ∷ ids) = first (ties (read id)) (tied read ids)
  where
    first : Option (Text × Text) → Option (Text × Text) → Option (Text × Text)
    first none rest = rest
    first (some p) rest = some p

pub only_ones : List Text → List Text → Option (Text × Text)
only_ones (patch ∷ []) (pov ∷ []) = some (patch, pov)
only_ones [] povs = none
only_ones (patch ∷ []) [] = none
only_ones (patch ∷ []) (pov ∷ more ∷ rest) = none
only_ones (patch ∷ more ∷ rest) povs = none

or_only : Option (Text × Text) → List Text → List Text → Option (Text × Text)
or_only (some p) patches povs = some p
or_only none patches povs = only_ones patches povs

-- pair, for the bundles that are listed.
pub pair : Task → List Text → List Text → Result String (List Text) → Option (Text × Text)
pair task patches povs (err e) = none
pair task patches povs (ok ids) = or_only (tied task.read_bundle ids) patches povs

pub declined : Capture → Result String CaptureResult
declined o = ok (record { outcome = o; patch_id = []; pov_id = []; case_path = [] })

module _ (task : Task) where
  pub paired_result : Capture → Text → Text → Text → Result String CaptureResult
  paired_result o patch pov path =
      ok (record { outcome = o; patch_id = patch; pov_id = pov; case_path = path })

  -- The reproducer is read, and the case is written.
  pub with_pov : Text → Text → Text → Text → Result String CaptureResult
  with_pov patch pov b [] = paired_result malformed patch pov []
  with_pov patch pov b (c ∷ pb) =
      task.write b (c ∷ pb) >>= λ path. paired_result captured patch pov path

  pub with_diff : Text → Text → Text → Bool → Result String CaptureResult
  with_diff patch pov b false = paired_result malformed patch pov []
  with_diff patch pov b true = task.read_pov pov >>= λ pb. with_pov patch pov b pb

  pub with_pair : Option (Text × Text) → Result String CaptureResult
  with_pair none = declined unpairable
  with_pair (some (patch, pov)) =
      task.read_patch patch >>= λ b. with_diff patch pov b (task.has_hunk b)

  pub with_report : List Text → List Text → Bool → Result String CaptureResult
  with_report patches povs true = declined no_sanitizer_report
  with_report patches povs false =
      with_pair (pair task patches povs (artifacts (codes ".json") task.bundles))

  pub with_artifacts : List Text → List Text → Result String CaptureResult
  with_artifacts [] povs = declined no_patch
  with_artifacts (p ∷ ps) [] = declined no_pov
  with_artifacts (p ∷ ps) (q ∷ qs) = with_report (p ∷ ps) (q ∷ qs) (blank task.expected_sanitizer)

  pub in_task : Bool → Result String CaptureResult
  in_task false = declined no_run
  in_task true = do
    patches ← artifacts (codes ".patch") task.patches
    povs ← artifacts (codes ".bin") task.povs
    with_artifacts patches povs

  -- Capture
  pub capture : Result String CaptureResult
  capture = in_task task.is_dir
