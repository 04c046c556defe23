-- ===== src/Lists/Window.antt =====
-- Slices: `xs[:n]`, `xs[n:]` and `xs[-n:]`.
use emarecloud.Prelude.{
  ℕ, zero, suc, ◌+◌, ◌-◌, min, ◌≡◌, refl, sym, ap, Bool, List, [], ◌∷◌, ◌++◌, reverse, arith,
  nat_eq, string_eq, pair_eq,
}
use mathlib.Core.List.{reverse-cons}
use native.Mathlib.Nat.{zero-add, suc-add}
use emarecloud.Lists.Filter.{length, All, filter, All-append, filter-append, length-append}

module _ {ℓ} {A : Type ℓ} where
  unfoldable pub take : ℕ → List A → List A
  take zero xs = []
  take (suc n) [] = []
  take (suc n) (x ∷ xs) = x ∷ take n xs

  unfoldable pub drop : ℕ → List A → List A
  drop zero xs = xs
  drop (suc n) [] = []
  drop (suc n) (x ∷ xs) = drop n xs

  -- `xs[-n:]` for a positive `n`: the whole list when it is shorter.
  unfoldable pub last : ℕ → List A → List A
  unfolding drop
  last n xs = drop (length xs - n) xs

module _ {ℓ} {A : Type ℓ} where
  pub length-take : (n : ℕ) (xs : List A) → length (take n xs) ≡ min n (length xs)
  unfolding take
  length-take zero xs = omega arith
  length-take (suc n) [] = omega arith
  length-take (suc n) (x ∷ xs) = omega (arith, length-take n xs)

  pub length-drop : (n : ℕ) (xs : List A) → length (drop n xs) ≡ length xs - n
  unfolding drop
  length-drop zero xs = omega arith
  length-drop (suc n) [] = omega arith
  length-drop (suc n) (x ∷ xs) = omega (arith, length-drop n xs)

  pub take-append-drop : (n : ℕ) (xs : List A) → take n xs ++ drop n xs ≡ xs
  unfolding take drop
  take-append-drop zero xs = refl
  take-append-drop (suc n) [] = refl
  take-append-drop (suc n) (x ∷ xs) = ap (◌∷◌ x) (take-append-drop n xs)

  pub length-last : (n : ℕ) (xs : List A) → length (last n xs) ≡ min n (length xs)
  unfolding last
  length-last n xs = omega (arith, length-drop (length xs - n) xs)

  pub All-drop {κ} : (P : A → Type κ) (n : ℕ) (xs : List A) → All P xs → All P (drop n xs)
  unfolding drop
  All-drop P zero xs h = h
  All-drop P (suc n) [] h = h
  All-drop P (suc n) (x ∷ xs) h = All-drop P n xs h.1

  pub All-last {κ} : (P : A → Type κ) (n : ℕ) (xs : List A) → All P xs → All P (last n xs)
  unfolding last
  All-last P n xs h = All-drop P (length xs - n) xs h

  pub All-take {κ} : (P : A → Type κ) (n : ℕ) (xs : List A) → All P xs → All P (take n xs)
  unfolding take
  All-take P zero xs h = tt
  All-take P (suc n) [] h = tt
  All-take P (suc n) (x ∷ xs) h = (h.0, All-take P n xs h.1)

  pub All-reverse {κ} : (P : A → Type κ) (xs : List A) → All P xs → All P (reverse xs)
  All-reverse P [] h = tt
  All-reverse P (x ∷ xs) h =
      rw reverse-cons (All-append P (reverse xs) (x ∷ []) (All-reverse P xs h.1) (h.0, tt))

  pub length-filter-reverse :
      (p : A → Bool) (xs : List A) → length (filter p (reverse xs)) ≡ length (filter p xs)
  unfolding filter
  length-filter-reverse p [] = refl
  length-filter-reverse p (x ∷ xs) =
      rw (reverse-cons, filter-append p (reverse xs) (x ∷ []))
        (ground (
          arith,
          length-append (filter p (reverse xs)) (filter p (x ∷ [])),
          length-filter-reverse p xs,
        ))

  drop-nil : (n : ℕ) → drop {A = A} n [] ≡ []
  unfolding drop
  drop-nil zero = refl
  drop-nil (suc n) = refl

  take-nil : (n : ℕ) → take {A = A} n [] ≡ []
  unfolding take
  take-nil zero = refl
  take-nil (suc n) = refl

  pub drop-drop : (m n : ℕ) (xs : List A) → drop (m + n) xs ≡ drop n (drop m xs)
  unfolding drop
  drop-drop zero n xs = rw zero-add
  drop-drop (suc m) n [] = rw suc-add (sym (drop-nil n))
  drop-drop (suc m) n (x ∷ xs) = rw suc-add (drop-drop m n xs)

  pub take-append-take : (a b : ℕ) (xs : List A) → take a xs ++ take b (drop a xs) ≡ take (a + b) xs
  unfolding take drop
  take-append-take zero b xs = rw zero-add
  take-append-take (suc a) b [] = rw suc-add (take-nil b)
  take-append-take (suc a) b (x ∷ xs) = rw suc-add (ap (◌∷◌ x) (take-append-take a b xs))
