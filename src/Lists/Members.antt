-- ===== src/Lists/Members.antt =====
-- Membership and inclusion of lists by the equality test of their elements (Python's `in` and `<=`).
use emarecloud.Prelude.{
  ◌≡◌, inl, inr, Bool, true, false, ◌&&◌, ◌||◌, List, [], ◌∷◌, arith, Bool-cases, Eq, ◌==◌, nat_eq,
  string_eq, pair_eq,
}
use mathlib.Core.Path.{subst}

module _ {ℓ} {A : Type ℓ} ⦃test : Eq A⦄ where
  -- `a in xs`
  unfoldable pub is_in : A → List A → Bool
  is_in a [] = false
  is_in a (x ∷ xs) = (x == a) || is_in a xs

  -- Every element of the first list is in the second.
  unfoldable pub is_subset : List A → List A → Bool
  is_subset [] ys = true
  is_subset (x ∷ xs) ys = is_in x ys && is_subset xs ys

  pub is_in-is_subset :
      (a : A) (xs ys : List A) → is_subset xs ys ≡ true → is_in a xs ≡ true → is_in a ys ≡ true
  unfolding is_subset is_in
  is_in-is_subset a [] ys h m = ground (arith, m)
  is_in-is_subset a (x ∷ xs) ys h m = elim (Bool-cases (x == a)) [
    | inl q ↦ subst (λ b. is_in b ys ≡ true) ((test.same_iff x a).0 q) (ground (arith, h))
    | inr q ↦ is_in-is_subset a xs ys (ground (arith, h)) (ground (arith, m, q))
  ]
