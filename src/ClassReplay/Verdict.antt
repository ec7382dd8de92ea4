-- ===== src/ClassReplay/Verdict.antt =====
-- When M2 passes a candidate, and when it rejects one.
use arazu.Prelude.{
  String, ◌==◌, eq_iff, ◌≡◌, ◌≢◌, refl, ap, sym, ◌∙◌, [], Option, none, some, Bool, true, false,
  inl, inr, All, length, length_lt,
}
use arazu.Corpus.Case.{FalsifyingClass}
use arazu.Gate.Decision.{passed, failed, undecided, StageResult}
use arazu.Gate.Verify.{Input}
use arazu.Gate.Exec.{Did, pure-Did}
use arazu.ClassReplay.{ClassStage, no_class, no_observer, observe, with_class, class_run}
use arazu.ClassReplay.Laws.{
  Agrees, SomeDiffers, compare_all-cases, judge_class-passed, judge_class-failed, Replayed,
  replay-Replayed,
}

module _ {W : Type 0} (quote : String → String) (s : ClassStage W) (inp : Input) where
  -- The result came from a replay of the class that the case defines, with its observer.
  pub record FromReplay (w : W) (res : StageResult) (w' : W) : Type 0 where
    pub class : FalsifyingClass
    pub defined : inp.case.falsifying_class ≡ some class
    pub observed : class.observer ≢ ""
    pub replayed : Replayed quote s inp class w res w'

  observe-cases :
      (fc : FalsifyingClass) (b : Bool) (w w' : W) (res : StageResult)
      → (fc.observer == "") ≡ b
      → Did (observe quote s inp b fc) w res w'
      → res.outcome ≢ undecided
      → (fc.observer ≢ "") × Replayed quote s inp fc w res w'
  unfolding observe no_observer
  observe-cases fc true w w' res e h n =
      absurd (n (sym (ap (λ (r : StageResult). r.outcome) (pure-Did _ w w' h).0)))
  observe-cases fc false w w' res e h n =
      ((λ z. cc (e, (eq_iff fc.observer "").1 z)), replay-Replayed quote s inp fc w w' res h)

  with_class-cases :
      (o : Option FalsifyingClass) (w w' : W) (res : StageResult)
      → inp.case.falsifying_class ≡ o
      → Did (with_class quote s inp o) w res w'
      → res.outcome ≢ undecided
      → FromReplay w res w'
  unfolding with_class no_class
  with_class-cases none w w' res e h n =
      absurd (n (sym (ap (λ (r : StageResult). r.outcome) (pure-Did _ w w' h).0)))
  with_class-cases (some fc) w w' res e h n =
      let (a, b) = observe-cases fc (fc.observer == "") w w' res refl h n in
      record { class = fc; defined = e; observed = a; replayed = b }

  class_run-FromReplay :
      (w w' : W) (res : StageResult)
      → Did (class_run quote s inp) w res w'
      → res.outcome ≢ undecided
      → FromReplay w res w'
  unfolding class_run
  class_run-FromReplay w w' res h n = with_class-cases inp.case.falsifying_class w w' res refl h n

  has_reference : (s.reference_patch == "") ≡ false → s.reference_patch ≢ ""
  has_reference b z = cc (b, (eq_iff s.reference_patch "").1 z)

  -- M2 passes a candidate only against a reference patch, on a class that the case defines with an
  -- observer, when at least one member was replayed, no fewer than the class is declared to have,
  -- and both replays have the same result for every one of them.
  pub class_run-passed :
      (w w' : W) (res : StageResult)
      → Did (class_run quote s inp) w res w'
      → res.outcome ≡ passed
      → (s.reference_patch ≢ "")
        × ((r : FromReplay w res w') × (r.replayed.members ≢ [])
            × (length_lt (length r.replayed.members) r.replayed.declared ≡ false)
            × All (Agrees r.replayed.ref r.replayed.cand) r.replayed.members)
  class_run-passed w w' res h p =
      let f = class_run-FromReplay w w' res h (λ e. cc (p, e)) in
      let r = f.replayed in
      let (b, n, len) =
        judge_class-passed quote (s.reference_patch == "") f.class _ _ r.declared r.disagreed
          (sym (ap (λ (x : StageResult). x.outcome) r.verdict) ∙ p) in
      (
        has_reference b,
        (
          f,
          r.some_member,
          len,
          elim (compare_all-cases quote r.ref r.cand r.members r.disagreed r.compared) [
            | inl (_, a) ↦ a
            | inr (d, rest, e, _) ↦ cc (e, n)
          ],
        ),
      )

  -- M2 rejects a candidate only against a reference patch, when the two replays have different
  -- results for some member of the class.
  pub class_run-failed :
      (w w' : W) (res : StageResult)
      → Did (class_run quote s inp) w res w'
      → res.outcome ≡ failed
      → (s.reference_patch ≢ "")
        × ((r : FromReplay w res w') × SomeDiffers r.replayed.ref r.replayed.cand
              r.replayed.members)
  class_run-failed w w' res h p =
      let f = class_run-FromReplay w w' res h (λ e. cc (p, e)) in
      let r = f.replayed in
      let (b, n) =
        judge_class-failed quote (s.reference_patch == "") f.class _ _ r.declared r.disagreed
          (sym (ap (λ (x : StageResult). x.outcome) r.verdict) ∙ p) in
      (
        has_reference b,
        (
          f,
          elim (compare_all-cases quote r.ref r.cand r.members r.disagreed r.compared) [
            | inl (e, _) ↦ absurd (n e)
            | inr (d, rest, _, d') ↦ d'
          ],
        ),
      )
