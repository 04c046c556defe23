-- ===== src/Dict/Laws.antt =====
-- What `get`, `set` and `delete` do to one another.
use emarecloud.Prelude.{
  ℕ, ◌+◌, ◌≤◌, ◌≡◌, refl, inl, inr, true, not, ◌&&◌, ◌||◌, none, some, [], ◌∷◌, ◌++◌, arith,
  if◌then◌else◌, Bool-cases, Eq, ◌==◌, nat_eq, string_eq, pair_eq,
}
use mathlib.Core.Path.{subst₂}
use emarecloud.Lists.{length, All}
use emarecloud.Dict.{Dict, get, set, delete, contains}

pub beq_refl {ℓ} : {K : Type ℓ} ⦃e : Eq K⦄ (k : K) → (k == k) ≡ true
beq_refl ⦃e⦄ k = (e.same_iff k k).1 refl

module _ {ℓ κ} {K : Type ℓ} {V : Type κ} ⦃e : Eq K⦄ where
  pub get-set :
      (k j : K) (v : V) (d : Dict K V) → get j (set k v d) ≡ (if k == j then some v else get j d)
  unfolding get set
  get-set k j v [] = refl
  get-set k j v ((i, w) ∷ d) =
      ground (arith, e.same_iff i k, e.same_iff i j, e.same_iff k j, get-set k j v d)

  pub get-delete :
      (k j : K) (d : Dict K V) → get j (delete k d) ≡ (if k == j then none else get j d)
  unfolding get delete
  get-delete k j [] = ground arith
  get-delete k j ((i, w) ∷ d) =
      ground (arith, e.same_iff i k, e.same_iff i j, e.same_iff k j, get-delete k j d)

  pub contains-set :
      (k j : K) (v : V) (d : Dict K V) → contains j (set k v d) ≡ (k == j) || contains j d
  unfolding contains
  contains-set k j v d = rw (get-set k j v d) (ground arith)

  pub contains-delete :
      (k j : K) (d : Dict K V) → contains j (delete k d) ≡ not (k == j) && contains j d
  unfolding contains
  contains-delete k j d = rw (get-delete k j d) (ground arith)

  pub set-append_new :
      (k : K) (v : V) (d : Dict K V) → get k d ≡ none → set k v d ≡ d ++ (k, v) ∷ []
  unfolding get set
  set-append_new k v [] h = refl
  set-append_new k v ((i, w) ∷ d) h = ground (arith, set-append_new k v d)

  pub length-set-le : (k : K) (v : V) (d : Dict K V) → length (set k v d) ≤ length d + 1
  unfolding set
  length-set-le k v [] = omega arith
  length-set-le k v ((i, w) ∷ d) = ground (arith, length-set-le k v d)

  pub All-set {μ} :
      (P : K × V → Type μ) (k : K) (v : V) (d : Dict K V) → All P d → P (k, v) → All P (set k v d)
  unfolding set
  All-set P k v [] h p = (p, tt)
  All-set P k v ((i, w) ∷ d) h p = ground (arith, All-set P k v d h.1 p)

  pub All-delete {μ} : (P : K × V → Type μ) (k : K) (d : Dict K V) → All P d → All P (delete k d)
  unfolding delete
  All-delete P k [] h = tt
  All-delete P k ((i, w) ∷ d) h = ground (arith, All-delete P k d h.1)

  -- A pair that satisfies `P` is found wherever all pairs satisfy it.
  pub get-All {μ} :
      (P : K × V → Type μ) (k : K) (v : V) (d : Dict K V) → All P d → get k d ≡ some v → P (k, v)
  unfolding get
  get-All P k v [] h g = absurd (cc)
  get-All P k v ((i, w) ∷ d) h g = elim (Bool-cases (i == k)) [
    | inl q ↦ subst₂ (λ a b. P (a, b)) ((e.same_iff i k).0 q) (ground arith) h.0
    | inr q ↦ get-All P k v d h.1 (rw q at g)
  ]

module _ {ℓ} {V : Type ℓ} where
  -- No key of the dictionary is above the counter that numbers are taken from.
  abbrev pub IsNumbered : ℕ → Dict ℕ V → Type 0
  IsNumbered n d = All (λ e. e.0 ≤ n) d

  pub get-none_of_IsNumbered : (n : ℕ) (d : Dict ℕ V) → IsNumbered n d → get (n + 1) d ≡ none
  unfolding get
  get-none_of_IsNumbered n [] h = refl
  get-none_of_IsNumbered n ((i, w) ∷ d) h = ground (arith, get-none_of_IsNumbered n d h.1)

  -- The next number keeps the counter above every key.
  pub set-IsNumbered :
      (n : ℕ) (v : V) (d : Dict ℕ V) → IsNumbered n d → IsNumbered (n + 1) (set (n + 1) v d)
  unfolding set
  set-IsNumbered n v [] h = omega arith
  set-IsNumbered n v ((i, w) ∷ d) h = ground (arith, set-IsNumbered n v d h.1)
