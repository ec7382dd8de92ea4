-- ===== src/Prelude/Prefixes.antt =====
-- A text with a prefix is the prefix and a rest.
use mathlib.Core.Path.{◌≡◌, refl}
use mathlib.Core.Logic.{◌↔◌}
use mathlib.Core.Bool.{true}
use mathlib.Core.List.{[], ◌∷◌, ◌++◌}
use native.Mathlib.Omega.{arith}
use arazu.Prelude.Tests.{nat_eq, and-eq-true, nat_eq→path}
use arazu.Prelude.Strings.{Text, has_prefix}

pub has_prefix_iff : (s p : Text) → (has_prefix s p ≡ true) ↔ ((rest : Text) × (s ≡ p ++ rest))
unfolding has_prefix
has_prefix_iff s [] = ((λ h. (s, refl)), (λ h. refl))
has_prefix_iff [] (d ∷ p) = ((λ h. cc), (λ (r, e). cc))
has_prefix_iff (c ∷ s) (d ∷ p) = (
  (λ h.
      let (e, q) = and-eq-true (nat_eq c d) (has_prefix s p) h in
      let (r, t) = (has_prefix_iff s p).0 q in (r, cc (nat_eq→path c d e, t))),
  (λ (r, e).
      let q = (has_prefix_iff s p).1 (r, cc e) in let d : c ≡ d = cc e in ground (arith, q, d)),
)
