-- ===== src/Revert/Credit.antt =====
-- When M1 credits a patch.
use arazu.Prelude.{
  String, ◌≡◌, ◌≢◌, ◌↔◌, refl, List, Result, ok, err, Bool, true, false, ap, ◌∙◌, arith,
}
use arazu.Gate.Decision.{passed, StageResult}
use arazu.Gate.Verify.{Input}
use arazu.Gate.Exec.{
  Did, >>=-Did, Did->>=, wrap-Did, Did-wrap, require-Did, Did-require, attempt-Did, Did-attempt,
  pure-Did,
}
use arazu.Corpus.Site.{SiteMatch, same, differ, undetermined, is_differ}
use arazu.Revert.{
  PoVRun, RevertStage, before_evidence, not_reproduced, elsewhere, does_not_apply, still_firing,
  stopped, judge_all, after_evidence, judge_after, after_apply, attribute, judge_before, revert_run,
}

-- The two measurements that credit a patch: the vulnerability fires without it, not at another
-- site, and is silent with it; the harness ran both times, and the patch went on in between.
pub record Attributed {W : Type 0} (s : RevertStage W) (inp : Input) (w w' : W) : Type 0 where
  pub pinned : W
  pub built : W
  pub measured : W
  pub patched : W
  pub rebuilt : W
  pub before : PoVRun
  pub after : PoVRun
  pub did_reset : Did s.target.reset_to_pin w tt pinned
  pub did_build : Did s.target.build pinned tt built
  pub did_run :
      Did (s.target.run_pov s.blob_path inp.case.harness inp.case.pov) built before measured
  pub ran : before.harness_ran ≡ true
  pub fired : before.sanitizer_fired ≡ true
  pub declared : before.site ≢ differ
  pub did_apply : Did (s.target.apply s.patch_path) measured tt patched
  pub did_rebuild : Did s.target.build patched tt rebuilt
  pub did_rerun : Did (s.target.run_pov s.blob_path inp.case.harness inp.case.pov) rebuilt after w'
  pub reran : after.harness_ran ≡ true
  pub silent : after.sanitizer_fired ≡ false

judge_all-passed :
    (after : PoVRun) (all : List String)
    → (judge_all after all).outcome ≡ passed
    → after.sanitizer_fired ≡ false
unfolding judge_all still_firing
judge_all-passed after all h = ground arith

judge_all-silent :
    (after : PoVRun) (all : List String)
    → after.sanitizer_fired ≡ false
    → (judge_all after all).outcome ≡ passed
unfolding judge_all stopped
judge_all-silent after all h = ground arith

not-is_differ : (m : SiteMatch) → m ≢ differ → is_differ m ≡ false
not-is_differ same h = refl
not-is_differ undetermined h = refl
not-is_differ differ h = absurd (h refl)

module _ {W : Type 0} (s : RevertStage W) (inp : Input) where
  -- What credit asks of the work behind the first measurement.
  record Stopped (w w' : W) : Type 0 where
    patched : W
    rebuilt : W
    after : PoVRun
    did_apply : Did (s.target.apply s.patch_path) w tt patched
    did_rebuild : Did s.target.build patched tt rebuilt
    did_rerun : Did (s.target.run_pov s.blob_path inp.case.harness inp.case.pov) rebuilt after w'
    reran : after.harness_ran ≡ true
    silent : after.sanitizer_fired ≡ false

  after_apply-passed :
      (ev : List String) (applied : Result String (Unit {0})) (w w1 w' : W) (res : StageResult)
      → s.target.apply s.patch_path w ≡ (applied, w1)
      → Did (after_apply s inp ev applied) w1 res w'
      → res.outcome ≡ passed
      → Stopped w w'
  unfolding after_apply does_not_apply
  after_apply-passed ev (err e) w w1 w' res a h p = absurd (ground (arith, (pure-Did _ w1 w' h).0))
  after_apply-passed ev (ok _) w w1 w' res a h p =
      let (u, w2, b, h1) = >>=-Did _ _ w1 w' h in
      let (after, w3, r, h2) = >>=-Did _ _ w2 w' h1 in
      let (v, w4, q, h3) = >>=-Did _ _ w3 w' h2 in
      let (ran, e1) = require-Did _ _ w3 w4 q in
      let (e2, e3) = pure-Did _ w4 w' h3 in
      record {
        patched = w1;
        rebuilt = w2;
        after = after;
        did_apply = a;
        did_rebuild = wrap-Did _ _ w1 w2 b;
        did_rerun = rw (e1 ∙ e3) at (wrap-Did _ _ w2 w3 r);
        reran = ran;
        silent =
            judge_all-passed after (after_evidence ev after)
              (unfold judge_after in ap (λ (x : StageResult). x.outcome) e2 ∙ p);
      }

  judge_before-passed :
      (f d : Bool) (before : PoVRun) (w w' : W) (res : StageResult)
      → Did (judge_before s inp f d before) w res w'
      → res.outcome ≡ passed
      → (f ≡ true) × (d ≡ false) × Stopped w w'
  unfolding judge_before not_reproduced elsewhere attribute
  judge_before-passed false d before w w' res h p = absurd (ground (arith, (pure-Did _ w w' h).0))
  judge_before-passed true true before w w' res h p = absurd (ground (arith, (pure-Did _ w w' h).0))
  judge_before-passed true false before w w' res h p =
      let (applied, w1, a, h1) = >>=-Did _ _ w w' h in
      (
        refl,
        refl,
        after_apply-passed (before_evidence before) applied w w1 w' res (attempt-Did _ w w1 a) h1 p,
      )

  credit-Attributed :
      (w w' : W) (res : StageResult)
      → Did (revert_run s inp) w res w'
      → res.outcome ≡ passed
      → Attributed s inp w w'
  unfolding revert_run
  credit-Attributed w w' res h p =
      let (u, w1, a, h1) = >>=-Did _ _ w w' h in
      let (v, w2, b, h2) = >>=-Did _ _ w1 w' h1 in
      let (before, w3, c, h3) = >>=-Did _ _ w2 w' h2 in
      let (x, w4, d, h4) = >>=-Did _ _ w3 w' h3 in
      let (ran, e) = require-Did _ _ w3 w4 d in
      let (f, g, st) = judge_before-passed _ _ before w4 w' res h4 p in
      record {
        pinned = w1;
        built = w2;
        measured = w4;
        patched = st.patched;
        rebuilt = st.rebuilt;
        before = before;
        after = st.after;
        did_reset = wrap-Did _ _ w w1 a;
        did_build = wrap-Did _ _ w1 w2 b;
        did_run = rw e at (wrap-Did _ _ w2 w3 c);
        ran = ran;
        fired = f;
        declared = λ e. cc (g, ap is_differ e);
        did_apply = st.did_apply;
        did_rebuild = st.did_rebuild;
        did_rerun = st.did_rerun;
        reran = st.reran;
        silent = st.silent;
      }

  judge_before-credit :
      (f d : Bool) (before after : PoVRun) {w w1 w2 w' : W}
      → f ≡ true
      → d ≡ false
      → Did (s.target.apply s.patch_path) w tt w1
      → Did s.target.build w1 tt w2
      → Did (s.target.run_pov s.blob_path inp.case.harness inp.case.pov) w2 after w'
      → after.harness_ran ≡ true
      → Did (judge_before s inp f d before) w (judge_after (before_evidence before) after) w'
  unfolding judge_before attribute after_apply
  judge_before-credit false d before after e1 e2 a b r ran = cc
  judge_before-credit true true before after e1 e2 a b r ran = cc
  judge_before-credit true false before after e1 e2 a b r ran = Did->>= _ _ (Did-attempt _ a) (
      Did->>= _ _ (Did-wrap _ _ b)
        (Did->>= _ _ (Did-wrap _ _ r) (Did->>= _ _ (Did-require _ _ _ ran) refl)))

  Attributed-credit :
      (w w' : W)
      → Attributed s inp w w'
      → (res : StageResult) × Did (revert_run s inp) w res w' × (res.outcome ≡ passed)
  unfolding revert_run
  Attributed-credit w w' a = (
    judge_after (before_evidence a.before) a.after,
    Did->>= _ _ (Did-wrap _ _ a.did_reset) (
        Did->>= _ _ (Did-wrap _ _ a.did_build) (
          Did->>= _ _ (Did-wrap _ _ a.did_run) (
            Did->>= _ _ (Did-require _ _ _ a.ran) (
              judge_before-credit _ _ a.before a.after a.fired (not-is_differ _ a.declared)
                a.did_apply a.did_rebuild a.did_rerun a.reran)))),
    unfold judge_after in judge_all-silent a.after _ a.silent,
  )

-- M1 passes exactly when both measurements attribute the fix to the patch: on the tree at the pin
-- the harness ran and the sanitizer fired, not at another site than the declared one; the patch
-- applied; and on the tree with it the harness ran and the sanitizer stayed silent.
pub revert_run-passes_iff :
    {W : Type 0} (s : RevertStage W) (inp : Input) (w w' : W)
    → ((res : StageResult) × Did (revert_run s inp) w res w' × (res.outcome ≡ passed))
      ↔ Attributed s inp w w'
revert_run-passes_iff s inp w w' =
    ((λ r. credit-Attributed s inp w w' r.0 r.1 r.2), Attributed-credit s inp w w')
