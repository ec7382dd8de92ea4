-- ===== src/Eval/Once.antt =====
-- A stage has at most one row.
use arazu.Prelude.{
  ℕ, suc, ◌+◌, String, ◌==◌, eq_iff, ◌≡◌, ◌≤◌, ◌↔◌, refl, ap, sym, ◌∙◌, false, Bool-cases, ◌||◌,
  inl, inr, arith, if◌then◌else◌, List, [], ◌∷◌, ◌++◌,
}
use arazu.Eval.{Matrix, empty_row, has_row, update_row}

-- The rows of a stage.
unfoldable pub rows_for : String → List Matrix → ℕ
rows_for k [] = 0
rows_for k (m ∷ ms) = let n = rows_for k ms in if m.stage == k then suc n else n

pub has_row-update_row :
    (k s : String) (f : Matrix → Matrix) (ms : List Matrix)
    → ((m : Matrix) → (f m).stage ≡ m.stage)
    → has_row k (update_row s f ms) ≡ has_row k ms
unfolding has_row update_row
has_row-update_row k s f [] h = refl
has_row-update_row k s f (m ∷ ms) h = elim (Bool-cases (m.stage == s)) [
  | inl b ↦ rw (b, h m, has_row-update_row k s f ms h) refl
  | inr b ↦ rw (b, has_row-update_row k s f ms h) refl
]

pub has_row-append :
    (k : String) (ms ns : List Matrix) → has_row k (ms ++ ns) ≡ (has_row k ms || has_row k ns)
unfolding has_row
has_row-append k [] ns = refl
has_row-append k (m ∷ ms) ns = elim (Bool-cases (m.stage == k)) [
  | inl b ↦ rw b refl
  | inr b ↦ rw (b, has_row-append k ms ns) refl
]

pub rows_for-update_row :
    (k s : String) (f : Matrix → Matrix) (ms : List Matrix)
    → ((m : Matrix) → (f m).stage ≡ m.stage)
    → rows_for k (update_row s f ms) ≡ rows_for k ms
unfolding rows_for update_row
rows_for-update_row k s f [] h = refl
rows_for-update_row k s f (m ∷ ms) h = elim (Bool-cases (m.stage == s)) [
  | inl b ↦ rw (b, h m, rows_for-update_row k s f ms h) refl
  | inr b ↦ rw (b, rows_for-update_row k s f ms h) refl
]

rows_for-append :
    (k : String) (ms ns : List Matrix) → rows_for k (ms ++ ns) ≡ rows_for k ms + rows_for k ns
unfolding rows_for
rows_for-append k [] ns = omega arith
rows_for-append k (m ∷ ms) ns = elim (Bool-cases (m.stage == k)) [
  | inl b ↦ let ih = rows_for-append k ms ns in rw b (omega (arith, ih))
  | inr b ↦ rw b (rows_for-append k ms ns)
]

pub has_row-rows_for :
    (k : String) (ms : List Matrix) → (has_row k ms ≡ false) ↔ (rows_for k ms ≡ 0)
unfolding rows_for has_row
has_row-rows_for k [] = ((λ h. refl), (λ h. refl))
has_row-rows_for k (m ∷ ms) = elim (Bool-cases (m.stage == k)) [
  | inl b ↦ rw b ((λ h. cc), (λ h. absurd (omega arith)))
  | inr b ↦ rw b (has_row-rows_for k ms)
]

-- A row is added for a stage that has none.
pub one_more_row :
    (k s : String) (ms : List Matrix)
    → has_row s ms ≡ false
    → rows_for k ms ≤ 1
    → rows_for k (ms ++ empty_row s ∷ []) ≤ 1
unfolding rows_for
one_more_row k s ms b h = elim (Bool-cases (s == k)) [
  | inl e ↦
      let none_there =
        ap (λ x. rows_for x ms) (sym ((eq_iff s k).0 e)) ∙ (has_row-rows_for s ms).0 b in
      let one : rows_for k (empty_row s ∷ []) ≡ 1 = rw e refl in
      omega (arith, rows_for-append k ms (empty_row s ∷ []), none_there, one)
  | inr e ↦
      let none_new : rows_for k (empty_row s ∷ []) ≡ 0 = rw e refl in
      omega (arith, rows_for-append k ms (empty_row s ∷ []), none_new, h)
]
