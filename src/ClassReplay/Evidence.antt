-- ===== src/ClassReplay/Evidence.antt =====
-- Every report of M2 shows what it saw.
use arazu.Prelude.{
  ℕ, String, ◌==◌, refl, List, [], ◌∷◌, ◌++◌, Option, none, some, Bool, true, false, inl, inr,
  Bool-cases, length, ℤ, length_lt, is_blank-concat, blank,
}
use arazu.Corpus.Case.{FalsifyingClass}
use arazu.Gate.Decision.{Outcome, StageResult}
use arazu.Gate.Decision.Support.{IsObserved, Says, ReasonFits, Says-append_left}
use arazu.Gate.Verify.{Input}
use arazu.Gate.Verify.Total.{Reports, name_result-IsObserved}
use arazu.Gate.Exec.{Did, pure-Did}
use arazu.ClassReplay.{
  ClassStage, Member, result, unintended_of, no_class, no_observer, replay_evidence, judge_change,
  truncated, agrees_throughout, judge_fix, judge_class, observe, with_class, class_run, class_stage,
}
use arazu.ClassReplay.Laws.{replay-Replayed}

result-IsObserved :
    (o : Outcome) (r : String) (ev : List String)
    → ReasonFits o r
    → Says ev
    → IsObserved (result o r ev)
result-IsObserved o r ev f s = record { named = λ e. cc; seen = s; fits = f }

replay_evidence-Says :
    (fc : FalsifyingClass) (b : Bool) (n : ℕ) (declared : ℤ) (k : ℕ)
    → Says (replay_evidence fc b n declared k)
unfolding replay_evidence
replay_evidence-Says fc b n declared k =
    inl (is_blank-concat "class: " (fc.description ∷ []) (unfold blank in refl))

judge_change-IsObserved :
    (quote : String → String) (ev : List String) (ds : List Member)
    → Says ev
    → IsObserved (judge_change quote ev ds)
unfolding judge_change
judge_change-IsObserved quote ev [] s = result-IsObserved _ _ _ (λ e. cc) (Says-append_left ev _ s)
judge_change-IsObserved quote ev (d ∷ ds) s =
    result-IsObserved _ _ _ (λ e. cc) (Says-append_left (ev ++ _) _ (Says-append_left ev _ s))

judge_fix-IsObserved :
    (quote : String → String) (ev : List String) (n : ℕ) (declared : ℤ) (ds : List Member)
    → Says ev
    → IsObserved (judge_fix quote ev n declared ds)
unfolding judge_fix truncated agrees_throughout
judge_fix-IsObserved quote ev n declared (d ∷ ds) s =
    result-IsObserved _ _ _ (λ e. cc) (Says-append_left (ev ++ _) _ (Says-append_left ev _ s))
judge_fix-IsObserved quote ev n declared [] s = elim (Bool-cases (length_lt n declared)) [
  | inl b ↦ rw b (result-IsObserved _ _ _ (λ e. cc) (Says-append_left ev _ s))
  | inr b ↦ rw b (result-IsObserved _ _ _ refl (Says-append_left ev _ s))
]

judge_class-IsObserved :
    (quote : String → String) (b : Bool) (fc : FalsifyingClass) (expected : String) (n : ℕ)
    (declared : ℤ) (ds : List Member)
    → IsObserved (judge_class quote b fc expected n declared ds)
unfolding judge_class
judge_class-IsObserved quote true fc expected n declared ds =
    judge_change-IsObserved quote _ (unintended_of expected ds) (
      Says-append_left (replay_evidence fc true n declared (length ds)) _
        (replay_evidence-Says fc true n declared (length ds)))
judge_class-IsObserved quote false fc expected n declared ds =
    judge_fix-IsObserved quote _ n declared ds
      (replay_evidence-Says fc false n declared (length ds))

module _ {W : Type 0} (quote : String → String) (s : ClassStage W) (inp : Input) where
  observe-IsObserved :
      (b : Bool) (fc : FalsifyingClass) (w w' : W) (res : StageResult)
      → Did (observe quote s inp b fc) w res w'
      → IsObserved res
  unfolding observe no_observer
  observe-IsObserved true fc w w' res h =
      rw (← (pure-Did _ w w' h).0) (result-IsObserved _ _ _ (λ e. cc) (inl (unfold blank in refl)))
  observe-IsObserved false fc w w' res h =
      let r = replay-Replayed quote s inp fc w w' res h in
      rw r.verdict (judge_class-IsObserved quote _ fc _ _ r.declared r.disagreed)

  with_class-IsObserved :
      (o : Option FalsifyingClass) (w w' : W) (res : StageResult)
      → Did (with_class quote s inp o) w res w'
      → IsObserved res
  unfolding with_class no_class
  with_class-IsObserved none w w' res h =
      rw (← (pure-Did _ w w' h).0) (result-IsObserved _ _ _ (λ e. cc) (inl (unfold blank in refl)))
  with_class-IsObserved (some fc) w w' res h = observe-IsObserved (fc.observer == "") fc w w' res h

-- Whatever the target does, a report of M2 names its stage, shows what was seen, and gives a reason
-- just when the stage does not pass.
pub class_stage-Reports :
    {W : Type 0} (quote : String → String) (s : ClassStage W) → Reports (class_stage quote s)
unfolding class_run
class_stage-Reports quote s inp w w' res h =
    name_result-IsObserved (class_stage quote s) res
      (with_class-IsObserved quote s inp inp.case.falsifying_class w w' res h)
