-- ===== src/Sanitizer/Laws.antt =====
-- What M3 concludes.
use arazu.Prelude.{
  String, ◌≡◌, refl, ap, sym, ◌∙◌, List, ◌++◌, Result, ok, err, Bool, true, false, inl, inr, ◌⊎◌,
  is_blank-concat, blank,
}
use arazu.Corpus.Reasons.{
  reason_patch_does_not_apply, reason_new_sanitizer_finding, reason_unadjudicated_behaviour_change,
}
use arazu.Corpus.Site.{SiteMatch, same, differ, undetermined}
use arazu.Gate.Decision.{passed, failed, StageResult}
use arazu.Gate.Decision.Support.{IsObserved, Says}
use arazu.Gate.Verify.{Input}
use arazu.Gate.Verify.Total.{Reports, name_result-IsObserved}
use arazu.Gate.Exec.{Did, >>=-Did, require-Did, pure-Did, wrap-Did, attempt-Did, Did-start}
use arazu.Revert.{PoVRun}
use arazu.Sanitizer.{
  SanitizerStage, comparison, place, judge_fired, judge, does_not_apply, measure, after_apply,
  sanitizer_run, sanitizer_stage,
}

comparison-Says :
    (before after : PoVRun) (more : List String) → Says (comparison before after ++ more)
unfolding comparison
comparison-Says b a more =
    inl (is_blank-concat "unpatched: sanitizer fired " _ (unfold blank in refl))

place-IsObserved : (m : SiteMatch) (b a : PoVRun) → IsObserved (place m (comparison b a))
unfolding place
place-IsObserved same b a = record { named = λ e. cc; seen = comparison-Says b a _; fits = refl }
place-IsObserved differ b a = record {
  named = λ e. cc;
  seen = comparison-Says b a _;
  fits = λ e. cc;
}
place-IsObserved undetermined b a = record {
  named = λ e. cc;
  seen = comparison-Says b a _;
  fits = λ e. cc;
}

judge_fired-IsObserved :
    (f : Bool) (m : SiteMatch) (b a : PoVRun) → IsObserved (judge_fired f m (comparison b a))
unfolding judge_fired
judge_fired-IsObserved true m b a = place-IsObserved m b a
judge_fired-IsObserved false m b a = record {
  named = λ e. cc;
  seen = comparison-Says b a _;
  fits = refl;
}

-- What the measurement of the patched tree leads to.
abbrev pub Verdict : Bool → SiteMatch → StageResult → Type 0
Verdict false m res = res.outcome ≡ passed
Verdict true same res = res.outcome ≡ passed
Verdict true differ res = (res.outcome ≡ failed) × (res.reason ≡ reason_new_sanitizer_finding)
Verdict true undetermined res =
    (res.outcome ≡ failed) × (res.reason ≡ reason_unadjudicated_behaviour_change)

judge_fired-Verdict :
    (f : Bool) (m : SiteMatch) (ev : List String) → Verdict f m (judge_fired f m ev)
unfolding judge_fired place
judge_fired-Verdict false m ev = refl
judge_fired-Verdict true same ev = refl
judge_fired-Verdict true differ ev = (refl, refl)
judge_fired-Verdict true undetermined ev = (refl, refl)

same_verdict :
    (f : Bool) (m : SiteMatch) (ev ev' : List String)
    → ((judge_fired f m ev).outcome ≡ (judge_fired f m ev').outcome)
      × ((judge_fired f m ev).reason ≡ (judge_fired f m ev').reason)
unfolding judge_fired place
same_verdict false m ev ev' = (refl, refl)
same_verdict true same ev ev' = (refl, refl)
same_verdict true differ ev ev' = (refl, refl)
same_verdict true undetermined ev ev' = (refl, refl)

-- The run on the unpatched tree does not bear on the verdict: with the same run on the patched tree,
-- any two runs before it lead to the same outcome for the same reason.
pub judge-ignores_before :
    (before before' after : PoVRun)
    → ((judge before after).outcome ≡ (judge before' after).outcome)
      × ((judge before after).reason ≡ (judge before' after).reason)
unfolding judge
judge-ignores_before b b' a = same_verdict a.sanitizer_fired a.site _ _

-- The unpatched tree is reset, built and run, and the harness ran; then it is reset again.
pub record Prepared {W : Type 0} (s : SanitizerStage W) (inp : Input) (w : W) : Type 0 where
  pub pinned : W
  pub built : W
  pub measured : W
  pub repinned : W
  pub before : PoVRun
  pub did_reset : Did s.target.reset_to_pin w tt pinned
  pub did_build : Did s.target.build pinned tt built
  pub did_run :
      Did (s.target.run_pov s.blob_path inp.case.harness inp.case.pov) built before measured
  pub ran : before.harness_ran ≡ true
  pub did_reset_again : Did s.target.reset_to_pin measured tt repinned

-- The patch goes on, and the patched tree is built and run, with a harness that ran.
pub record Rerun {W : Type 0} (s : SanitizerStage W) (inp : Input) (w : W) (after : PoVRun) (w' : W)
    : Type 0 where
  pub patched : W
  pub rebuilt : W
  pub did_apply : Did (s.target.apply s.patch_path) w tt patched
  pub did_rebuild : Did s.target.build patched tt rebuilt
  pub did_rerun : Did (s.target.run_pov s.blob_path inp.case.harness inp.case.pov) rebuilt after w'
  pub reran : after.harness_ran ≡ true

module _ {W : Type 0} (s : SanitizerStage W) (inp : Input) where
  measure-Did :
      (label message : String) (w w' : W) (run : PoVRun)
      → Did (measure s inp label message) w run w'
      → Did (s.target.run_pov s.blob_path inp.case.harness inp.case.pov) w run w'
        × (run.harness_ran ≡ true)
  unfolding measure
  measure-Did label message w w' run h =
      let (x, w1, m, h1) = >>=-Did _ _ w w' h in
      let (v, w2, r, h2) = >>=-Did _ _ w1 w' h1 in
      let (ran, e1) = require-Did _ _ w1 w2 r in
      let (e2, e3) = pure-Did _ w2 w' h2 in
      (rw (e2, e1 ∙ e3) at (wrap-Did _ _ w w1 m), ap (λ (y : PoVRun). y.harness_ran) (sym e2) ∙ ran)

  after_apply-cases :
      (before : PoVRun) (applied : Result String (Unit {0})) (w w1 w' : W) (res : StageResult)
      → s.target.apply s.patch_path w ≡ (applied, w1)
      → Did (after_apply s inp before applied) w1 res w'
      → ((e : String) × (s.target.apply s.patch_path w ≡ (err e, w')) × (res ≡ does_not_apply e))
        ⊎ ((after : PoVRun) × Rerun s inp w after w' × (res ≡ judge before after))
  unfolding after_apply
  after_apply-cases before (err e) w w1 w' res a h =
      let (p, q) = pure-Did _ w1 w' h in inl (e, a ∙ ap (λ v. (err e, v)) q, sym p)
  after_apply-cases before (ok u) w w1 w' res a h =
      let (v, w2, b, h2) = >>=-Did _ _ w1 w' h in
      let (after, w3, m, h3) = >>=-Did _ _ w2 w' h2 in
      let (run, ran) = measure-Did _ _ w2 w3 after m in
      let (p, q) = pure-Did _ w3 w' h3 in
      inr (
        after,
        record {
          patched = w1;
          rebuilt = w2;
          did_apply = a;
          did_rebuild = wrap-Did _ _ w1 w2 b;
          did_rerun = rw q at run;
          reran = ran;
        },
        sym p,
      )

  sanitizer_run-cases :
      (w w' : W) (res : StageResult)
      → Did (sanitizer_run s inp) w res w'
      → (s.require_recover ≡ true)
        × (p : Prepared s inp w) × (((e : String) × (s.target.apply s.patch_path p.repinned
                ≡ (err e, w'))
              × (res ≡ does_not_apply e))
            ⊎ ((after : PoVRun) × Rerun s inp p.repinned after w' × (res ≡ judge p.before after)))
  unfolding sanitizer_run
  sanitizer_run-cases w w' res h =
      let (a, w1, r, h1) = >>=-Did _ _ w w' h in
      let (b, w2, m2, h2) = >>=-Did _ _ w1 w' h1 in
      let (c, w3, m3, h3) = >>=-Did _ _ w2 w' h2 in
      let (before, w4, m4, h4) = >>=-Did _ _ w3 w' h3 in
      let (d, w5, m5, h5) = >>=-Did _ _ w4 w' h4 in
      let (applied, w6, m6, h6) = >>=-Did _ _ w5 w' h5 in
      let (rec, same_world) = require-Did _ _ w w1 r in
      let (run, ran) = measure-Did _ _ w3 w4 before m4 in
      (
        rec,
        record {
          pinned = w2;
          built = w3;
          measured = w4;
          repinned = w5;
          before = before;
          did_reset = Did-start s.target.reset_to_pin same_world (wrap-Did _ _ w1 w2 m2);
          did_build = wrap-Did _ _ w2 w3 m3;
          did_run = run;
          ran = ran;
          did_reset_again = wrap-Did _ _ w4 w5 m5;
        },
        after_apply-cases before applied w5 w6 w' res (attempt-Did _ w5 w6 m6) h6,
      )

  -- Whenever M3 returns a result, the target was declared to recover from sanitizer reports, the
  -- unpatched tree was built and its harness ran, and on the tree that was reset after that either
  -- the patch did not apply, and is refused for it, or it applied and the patched tree was built and
  -- its harness ran last: the result is the verdict on that run, where silence and the declared site
  -- pass, another site is refused as a new finding, and a site that cannot be placed is refused as
  -- unadjudicated.
  pub sanitizer_run-verdict :
      (w w' : W) (res : StageResult)
      → Did (sanitizer_run s inp) w res w'
      → (s.require_recover ≡ true)
        × (p : Prepared s inp w) × (((e : String) × (s.target.apply s.patch_path p.repinned
                ≡ (err e, w'))
              × (res.outcome ≡ failed)
              × (res.reason ≡ reason_patch_does_not_apply))
            ⊎ ((after : PoVRun) × Rerun s inp p.repinned after w'
                × Verdict after.sanitizer_fired after.site res))
  unfolding does_not_apply judge
  sanitizer_run-verdict w w' res h =
      let (rec, p, cases) = sanitizer_run-cases w w' res h in
      (
        rec,
        p,
        elim cases [
          | inl (e, a, q) ↦ inl (e, a, rw q refl, rw q refl)
          | inr (after, r, q) ↦
              inr (after, r, rw q (judge_fired-Verdict after.sanitizer_fired after.site _))
        ],
      )

-- Whatever the target does, a report of M3 names its stage, shows what was seen, and gives a reason
-- just when the stage does not pass.
pub sanitizer_stage-Reports : {W : Type 0} (s : SanitizerStage W) → Reports (sanitizer_stage s)
unfolding does_not_apply judge
sanitizer_stage-Reports s inp w w' res h =
    let (_, p, cases) = sanitizer_run-cases s inp w w' res h in
    name_result-IsObserved (sanitizer_stage s) res (elim cases [
      | inl (e, _, q) ↦ rw q (record {
        named = λ q. cc;
        seen =
            inl (
              is_blank-concat "the candidate does not apply at the pin: " _ (unfold blank in refl));
        fits = λ q. cc;
      })
      | inr (after, _, q) ↦
          rw q (judge_fired-IsObserved after.sanitizer_fired after.site p.before after)
    ])
