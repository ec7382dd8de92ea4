-- ===== src/CrsOut/Captured.antt =====
-- What a run has produced when it is captured.
use arazu.Prelude.{
  String, Bool, true, false, ◌≡◌, ◌≢◌, ◌↔◌, refl, sym, ap, ◌∙◌, List, [], ◌∷◌, Option, none, some,
  Result, ok, >>=_iff, ok-injective, Text, codes, blank,
}
use arazu.CrsOut.{
  Capture, captured, no_run, no_patch, no_pov, unpairable, malformed, no_sanitizer_report,
  CaptureResult, Task, artifacts, pair, declined, paired_result, with_pov, with_diff, with_pair,
  with_report, with_artifacts, in_task, capture,
}
use arazu.CrsOut.Paired.{Listed, artifacts-Listed_iff, Paired, pair-Paired_iff}

abbrev Captures : Result String CaptureResult → CaptureResult → Type 0
Captures run r = (run ≡ ok r) × (r.outcome ≡ captured)

-- The patch is a diff, the reproducer is not empty, and the case is written from the two.
pub record IsWritten (task : Task) (r : CaptureResult) : Type 0 where
  pub patch : Text
  pub pov : Text
  pub patch_read : task.read_patch r.patch_id ≡ ok patch
  pub diff : task.has_hunk patch ≡ true
  pub pov_read : task.read_pov r.pov_id ≡ ok pov
  pub some_pov : pov ≢ []
  pub case_written : task.write patch pov ≡ ok r.case_path

-- The run has patches and reproducers, a bundle ties one of each or they are the only ones, and the
-- case is written from them.
pub record IsCaptured (task : Task) (r : CaptureResult) : Type 0 where
  pub patches : List Text
  pub povs : List Text
  pub task_there : task.is_dir ≡ true
  pub patches_listed : Listed (codes ".patch") task.patches patches
  pub povs_listed : Listed (codes ".bin") task.povs povs
  pub some_patches : patches ≢ []
  pub some_povs : povs ≢ []
  pub report : blank task.expected_sanitizer ≡ false
  pub paired : Paired task patches povs (r.patch_id, r.pov_id)
  pub written : IsWritten task r

not-declined : (o : Capture) (r : CaptureResult) → o ≢ captured → Captures (declined o) r → ⊥
unfolding declined
not-declined o r n (h, q) = n (ap (λ x. x.outcome) (ok-injective h) ∙ q)

module _ (task : Task) where
  not-malformed :
      (patch pov path : Text) (r : CaptureResult)
      → Captures (paired_result task malformed patch pov path) r
      → ⊥
  unfolding paired_result
  not-malformed patch pov path r (h, q) = let e = ap (λ x. x.outcome) (ok-injective h) ∙ q in cc

  -- What is left to do once the patch and the reproducer are named.
  abbrev Named : Text → Text → CaptureResult → Type 0
  Named patch pov r = (r.patch_id ≡ patch) × (r.pov_id ≡ pov)

  with_pov-Captures :
      (patch pov b pb : Text) (r : CaptureResult)
      → Captures (with_pov task patch pov b pb) r
      → (pb ≢ []) × Named patch pov r × (task.write b pb ≡ ok r.case_path)
  unfolding with_pov paired_result
  with_pov-Captures patch pov b [] r h = absurd (not-malformed patch pov [] r h)
  with_pov-Captures patch pov b (c ∷ pb) r (h, q) =
      let (path, w, g) = (>>=_iff (task.write b (c ∷ pb)) _).0 h in
      let e = ok-injective (sym g) in
      (
        (λ x. cc),
        (ap (λ x. x.patch_id) e, ap (λ x. x.pov_id) e),
        w ∙ ap ok (sym (ap (λ x. x.case_path) e)),
      )

  with_diff-Captures :
      (patch pov b : Text) (hunk : Bool) (r : CaptureResult)
      → Captures (with_diff task patch pov b hunk) r
      → (hunk ≡ true)
        × (pb : Text) × (task.read_pov pov ≡ ok pb)
        × Captures (with_pov task patch pov b pb) r
  unfolding with_diff
  with_diff-Captures patch pov b false r h = absurd (not-malformed patch pov [] r h)
  with_diff-Captures patch pov b true r (h, q) =
      let (pb, rd, g) = (>>=_iff (task.read_pov pov) _).0 h in (refl, pb, rd, (g, q))

  with_pair-Captures :
      (p : Option (Text × Text)) (r : CaptureResult)
      → Captures (with_pair task p) r
      → (p ≡ some (r.patch_id, r.pov_id)) × IsWritten task r
  unfolding with_pair
  with_pair-Captures none r h = absurd (not-declined unpairable r (λ x. cc) h)
  with_pair-Captures (some (patch, pov)) r (h, q) =
      let (b, rd, g) = (>>=_iff (task.read_patch patch) _).0 h in
      let (hunk, pb, rp, w) = with_diff-Captures patch pov b (task.has_hunk b) r (g, q) in
      let (n, (e, f), c) = with_pov-Captures patch pov b pb r w in
      (
        (λ i. some (sym e i, sym f i)),
        record {
          patch = b;
          pov = pb;
          patch_read = ap task.read_patch e ∙ rd;
          diff = hunk;
          pov_read = ap task.read_pov f ∙ rp;
          some_pov = n;
          case_written = c;
        },
      )

  with_report-Captures :
      (patches povs : List Text) (empty : Bool) (r : CaptureResult)
      → Captures (with_report task patches povs empty) r
      → (empty ≡ false)
        × Captures
            (with_pair task (pair task patches povs (artifacts (codes ".json") task.bundles)))
            r
  unfolding with_report
  with_report-Captures patches povs true r h =
      absurd (not-declined no_sanitizer_report r (λ x. cc) h)
  with_report-Captures patches povs false r h = (refl, h)

  with_artifacts-Captures :
      (patches povs : List Text) (r : CaptureResult)
      → Captures (with_artifacts task patches povs) r
      → (patches ≢ [])
        × (povs ≢ [])
        × Captures (with_report task patches povs (blank task.expected_sanitizer)) r
  unfolding with_artifacts
  with_artifacts-Captures [] povs r h = absurd (not-declined no_patch r (λ x. cc) h)
  with_artifacts-Captures (p ∷ ps) [] r h = absurd (not-declined no_pov r (λ x. cc) h)
  with_artifacts-Captures (p ∷ ps) (q ∷ qs) r h = ((λ x. cc), (λ x. cc), h)

  in_task-Captures :
      (there : Bool) (r : CaptureResult)
      → Captures (in_task task there) r
      → (there ≡ true)
        × (patches : List Text) × (povs : List Text) × (artifacts (codes ".patch") task.patches
            ≡ ok patches)
        × (artifacts (codes ".bin") task.povs ≡ ok povs)
        × Captures (with_artifacts task patches povs) r
  unfolding in_task
  in_task-Captures false r h = absurd (not-declined no_run r (λ x. cc) h)
  in_task-Captures true r (h, q) =
      let (ps, l, h1) = (>>=_iff (artifacts (codes ".patch") task.patches) _).0 h in
      let (qs, m, h2) = (>>=_iff (artifacts (codes ".bin") task.povs) _).0 h1 in
      (refl, ps, qs, l, m, (h2, q))

  Captures-IsCaptured : (r : CaptureResult) → Captures (capture task) r → IsCaptured task r
  unfolding capture
  Captures-IsCaptured r h =
      let (t, ps, qs, l, m, a) = in_task-Captures task.is_dir r h in
      let (np, nq, b) = with_artifacts-Captures ps qs r a in
      let (e, c) = with_report-Captures ps qs (blank task.expected_sanitizer) r b in
      let (p, w) =
        with_pair-Captures (pair task ps qs (artifacts (codes ".json") task.bundles)) r c in
      record {
        patches = ps;
        povs = qs;
        task_there = t;
        patches_listed = (artifacts-Listed_iff (codes ".patch") task.patches ps).0 l;
        povs_listed = (artifacts-Listed_iff (codes ".bin") task.povs qs).0 m;
        some_patches = np;
        some_povs = nq;
        report = e;
        paired = (pair-Paired_iff task ps qs (r.patch_id, r.pov_id)).0 p;
        written = w;
      }

  ran-with_pov :
      (patch pov b pb path : Text)
      → pb ≢ []
      → task.write b pb ≡ ok path
      → with_pov task patch pov b pb ≡ paired_result task captured patch pov path
  unfolding with_pov
  ran-with_pov patch pov b [] path n w = absurd (n refl)
  ran-with_pov patch pov b (c ∷ pb) path n w = rw w refl

  ran-with_artifacts :
      (patches povs : List Text)
      → patches ≢ []
      → povs ≢ []
      → with_artifacts task patches povs
        ≡ with_report task patches povs (blank task.expected_sanitizer)
  unfolding with_artifacts
  ran-with_artifacts [] povs n m = absurd (n refl)
  ran-with_artifacts (p ∷ ps) [] n m = absurd (m refl)
  ran-with_artifacts (p ∷ ps) (q ∷ qs) n m = refl

  ran-in_task :
      (patches povs : List Text)
      → artifacts (codes ".patch") task.patches ≡ ok patches
      → artifacts (codes ".bin") task.povs ≡ ok povs
      → in_task task true ≡ with_artifacts task patches povs
  unfolding in_task
  ran-in_task patches povs l m = rw (l, m) refl

  IsWritten-with_pair :
      (r : CaptureResult)
      → IsWritten task r
      → with_pair task (some (r.patch_id, r.pov_id))
        ≡ paired_result task captured r.patch_id r.pov_id r.case_path
  unfolding with_pair with_diff
  IsWritten-with_pair r w =
      rw (w.patch_read, w.diff, w.pov_read)
        (ran-with_pov r.patch_id r.pov_id w.patch w.pov r.case_path w.some_pov w.case_written)

  IsCaptured-capture :
      (r : CaptureResult)
      → IsCaptured task r
      → capture task ≡ paired_result task captured r.patch_id r.pov_id r.case_path
  unfolding capture with_report
  IsCaptured-capture r c =
      ap (in_task task) c.task_there
      ∙ ran-in_task c.patches c.povs
          ((artifacts-Listed_iff (codes ".patch") task.patches c.patches).1 c.patches_listed)
          ((artifacts-Listed_iff (codes ".bin") task.povs c.povs).1 c.povs_listed)
      ∙ ran-with_artifacts c.patches c.povs c.some_patches c.some_povs
      ∙ ap (with_report task c.patches c.povs) c.report
      ∙ ap (with_pair task)
          ((pair-Paired_iff task c.patches c.povs (r.patch_id, r.pov_id)).1 c.paired)
      ∙ IsWritten-with_pair r c.written

  -- A run is captured exactly when its task is there, its directories hold a file with the suffix
  -- .patch and one with .bin, its sanitizer report says something, the pair is that of the first
  -- bundle in the order of the names that ties a patch to a reproducer, or no bundle ties any and they
  -- are the only patch and the only reproducer, the patch is a diff, the reproducer is not empty, and
  -- the case is written from the two.
  pub capture-IsCaptured_iff :
      (r : CaptureResult)
      → ((capture task ≡ ok r) × (r.outcome ≡ captured))
        ↔ (IsCaptured task r × (r.outcome ≡ captured))
  unfolding paired_result
  capture-IsCaptured_iff r = (
    (λ (h, q). (Captures-IsCaptured r (h, q), q)),
    (λ (c, q). (IsCaptured-capture r c ∙ (λ i. ok (record r { outcome = sym q i })), q)),
  )
