-- ===== src/ClassReplay/Laws.antt =====
-- What M2 concludes.
use arazu.Prelude.{
  ℕ, String, ◌==◌, eq_iff, ◌≡◌, ◌≢◌, refl, ap, sym, ◌∙◌, List, [], ◌∷◌, Option, none, some, Result,
  ok, err, Bool, true, false, inl, inr, ◌⊎◌, arith, All, length, ℤ, length_lt, ok-injective,
}
use arazu.Corpus.Case.{FalsifyingClass}
use arazu.Gate.Decision.{passed, failed, undecided, StageResult}
use arazu.Gate.Verify.{Input}
use arazu.Gate.Exec.{Did, >>=-Did, wrap-Did, require-Did, pure-Did, Did-start, Did-end}
use arazu.ClassReplay.{
  Outputs, ClassStage, Member, output_of, not_compared, prepend, compare_member, compare_all,
  unintended_of, judge_change, truncated, agrees_throughout, judge_fix, judge_class, replay,
}

module _ (ref cand : Outputs) where
  -- Both replays have a result for the member, and the results agree, or differ.
  abbrev pub Agrees : String → Type 0
  Agrees m = (v : String) × (output_of m ref ≡ some v) × (output_of m cand ≡ some v)

  abbrev pub Differs : String → Type 0
  Differs m = (r c : String) × (output_of m ref ≡ some r) × (output_of m cand ≡ some c) × (r ≢ c)

  abbrev pub SomeDiffers : List String → Type 0
  SomeDiffers [] = ⊥
  SomeDiffers (m ∷ ms) = Differs m ⊎ SomeDiffers ms

module _ (quote : String → String) (ref cand : Outputs) where
  abbrev pub Outcomes : List String → List Member → Type 0
  Outcomes ms ds =
      ((ds ≡ []) × All (Agrees ref cand) ms)
      ⊎ ((d : Member) × (rest : List Member) × (ds ≡ d ∷ rest) × SomeDiffers ref cand ms)

  prepend-cases :
      (m : String) (ms : List String) (r c : String) (b : Bool) (rest : Result String (List Member))
      (ds : List Member)
      → output_of m ref ≡ some r
      → output_of m cand ≡ some c
      → (r == c) ≡ b
      → prepend b (record { name = m; reference = r; candidate = c }) rest ≡ ok ds
      → ((es : List Member) → rest ≡ ok es → Outcomes ms es)
      → Outcomes (m ∷ ms) ds
  unfolding prepend
  prepend-cases m ms r c b (err e) ds p q t h ih = cc
  prepend-cases m ms r c true (ok es) ds p q t h ih =
      let e : es ≡ ds = ok-injective h in
      elim (ih es refl) [
        | inl (n, a) ↦ inl (sym e ∙ n, ((r, p, q ∙ ap some (sym ((eq_iff r c).0 t))), a))
        | inr (d, rest, n, s) ↦ inr (d, rest, sym e ∙ n, inr s)
      ]
  prepend-cases m ms r c false (ok es) ds p q t h ih =
      inr (_, es, sym (ok-injective h), inl (r, c, p, q, λ z. cc (t, (eq_iff r c).1 z)))

  compare_member-cases :
      (m : String) (ms : List String) (r c : Option String) (rest : Result String (List Member))
      (ds : List Member)
      → output_of m ref ≡ r
      → output_of m cand ≡ c
      → compare_member quote m r c rest ≡ ok ds
      → ((es : List Member) → rest ≡ ok es → Outcomes ms es)
      → Outcomes (m ∷ ms) ds
  unfolding compare_member not_compared
  compare_member-cases m ms none c rest ds p q h ih = cc
  compare_member-cases m ms (some r) none rest ds p q h ih = cc
  compare_member-cases m ms (some r) (some c) rest ds p q h ih =
      prepend-cases m ms r c (r == c) rest ds p q refl h ih

  pub compare_all-cases :
      (ms : List String) (ds : List Member) → compare_all quote ref cand ms ≡ ok ds → Outcomes ms ds
  unfolding compare_all
  compare_all-cases [] ds h = inl (sym (ok-injective h), tt)
  compare_all-cases (m ∷ ms) ds h =
      compare_member-cases m ms (output_of m ref) (output_of m cand) (compare_all quote ref cand ms)
        ds refl refl h (compare_all-cases ms)

judge_change-undecided :
    (quote : String → String) (ev : List String) (ds : List Member)
    → (judge_change quote ev ds).outcome ≡ undecided
unfolding judge_change
judge_change-undecided quote ev [] = refl
judge_change-undecided quote ev (d ∷ ds) = refl

judge_fix-passed :
    (quote : String → String) (ev : List String) (n : ℕ) (declared : ℤ) (ds : List Member)
    → (judge_fix quote ev n declared ds).outcome ≡ passed
    → (ds ≡ []) × (length_lt n declared ≡ false)
unfolding judge_fix truncated agrees_throughout
judge_fix-passed quote ev n declared (d ∷ ds) h = cc
judge_fix-passed quote ev n declared [] h = ground arith

judge_fix-failed :
    (quote : String → String) (ev : List String) (n : ℕ) (declared : ℤ) (ds : List Member)
    → (judge_fix quote ev n declared ds).outcome ≡ failed
    → ds ≢ []
unfolding judge_fix truncated agrees_throughout
judge_fix-failed quote ev n declared (d ∷ ds) h = λ e. cc
judge_fix-failed quote ev n declared [] h = absurd (ground arith)

pub judge_class-passed :
    (quote : String → String) (b : Bool) (fc : FalsifyingClass) (expected : String) (n : ℕ)
    (declared : ℤ) (ds : List Member)
    → (judge_class quote b fc expected n declared ds).outcome ≡ passed
    → (b ≡ false) × (ds ≡ []) × (length_lt n declared ≡ false)
unfolding judge_class
judge_class-passed quote true fc expected n declared ds h =
    cc (h, judge_change-undecided quote _ (unintended_of expected ds))
judge_class-passed quote false fc expected n declared ds h =
    let (a, b) = judge_fix-passed quote _ n declared ds h in (refl, a, b)

pub judge_class-failed :
    (quote : String → String) (b : Bool) (fc : FalsifyingClass) (expected : String) (n : ℕ)
    (declared : ℤ) (ds : List Member)
    → (judge_class quote b fc expected n declared ds).outcome ≡ failed
    → (b ≡ false) × (ds ≢ [])
unfolding judge_class
judge_class-failed quote true fc expected n declared ds h =
    cc (h, judge_change-undecided quote _ (unintended_of expected ds))
judge_class-failed quote false fc expected n declared ds h =
    (refl, judge_fix-failed quote _ n declared ds h)

module _ {W : Type 0} (quote : String → String) (s : ClassStage W) (inp : Input) where
  -- What a run that reached a verdict by replaying the class has done: the target generated the
  -- members, and replayed them against the oracle and then against the candidate.
  pub record Replayed (fc : FalsifyingClass) (w : W) (res : StageResult) (w' : W) : Type 0 where
    pub generated : W
    pub replayed : W
    pub members : List String
    pub declared : ℤ
    pub ref : Outputs
    pub cand : Outputs
    pub disagreed : List Member
    pub did_generate : Did (s.target.generate fc) w (members, declared) generated
    pub did_reference :
        Did (s.target.replay_against s.reference_patch members) generated ref replayed
    pub did_candidate : Did (s.target.replay_against s.candidate_patch members) replayed cand w'
    pub some_member : members ≢ []
    pub compared : compare_all quote ref cand members ≡ ok disagreed
    pub verdict :
        res
        ≡ judge_class quote
            (s.reference_patch == "")
            fc
            inp.case.pov.expected_sanitizer
            (length members)
            declared
            disagreed

  pub replay-Replayed :
      (fc : FalsifyingClass) (w w' : W) (res : StageResult)
      → Did (replay quote s inp fc) w res w'
      → Replayed fc w res w'
  unfolding replay
  replay-Replayed fc w w' res h =
      let (g, w1, dg, h1) = >>=-Did _ _ w w' h in
      let (u, w2, made, h2) = >>=-Did _ _ w1 w' h1 in
      let (ref, w3, dr, h3) = >>=-Did _ _ w2 w' h2 in
      let (cand, w4, dc, h4) = >>=-Did _ _ w3 w' h3 in
      let (ds, w5, c, h5) = >>=-Did _ _ w4 w' h4 in
      let at_reference : w1 ≡ w2 = (require-Did _ _ w1 w2 made).1 in
      let at_end : w4 ≡ w' = ap (λ p. p.1) c ∙ (pure-Did _ w5 w' h5).1 in
      record {
        generated = w1;
        replayed = w3;
        members = g.0;
        declared = g.1;
        ref = ref;
        cand = cand;
        disagreed = ds;
        did_generate = wrap-Did _ _ w w1 dg;
        did_reference =
            Did-start (s.target.replay_against s.reference_patch g.0) at_reference
              (wrap-Did _ _ w2 w3 dr);
        did_candidate =
            Did-end (s.target.replay_against s.candidate_patch g.0) {w = w3} at_end
              (wrap-Did _ _ w3 w4 dc);
        some_member = λ e. cc ((require-Did _ _ w1 w2 made).0, e);
        compared = ap (λ p. p.0) c;
        verdict = sym (pure-Did _ w5 w' h5).0;
      }
