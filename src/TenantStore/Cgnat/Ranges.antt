-- ===== src/TenantStore/Cgnat/Ranges.antt =====
-- The port ranges of a pool: within the pool, and disjoint as long as nothing is released.
use emarecloud.Prelude.{
  ℕ, ◌+◌, ◌-◌, ◌*◌, ◌/◌, ◌≤◌, ◌<◌, String, ◌≡◌, refl, inl, inr, List, [], ◌∷◌, ◌++◌, arith, leb,
  Bool-cases, ◌==◌, nat_eq, string_eq, pair_eq,
}
use emarecloud.Dict
use emarecloud.Dict.{Dict, values}
use emarecloud.Dict.Laws.{IsNumbered, set-append_new, set-IsNumbered, get-none_of_IsNumbered}
use emarecloud.Lists.{filter, length, All, filter-append}
use emarecloud.TenantStore.State.{Pool, Mapping, Store, Reply, ok, failure}
use emarecloud.TenantStore.Cgnat.{mappings_of, next_range, allocate_new, total_slots}
use mathlib.Core.List.{map-append}

-- The ranges of a pool lie side by side from its first port, from slot `i` on.
abbrev pub IsTiled : Pool → ℕ → List Mapping → Type 0
IsTiled p i [] = Unit
IsTiled p i (m ∷ ms) =
    (m.port_start ≡ p.port_start + i * p.ports_per_subscriber)
    × (m.port_end ≡ p.port_start + i * p.ports_per_subscriber + p.ports_per_subscriber - 1)
    × IsTiled p (i + 1) ms

IsTiled-snoc :
    (p : Pool) (i c : ℕ) (ms : List Mapping) (mid pool_id : ℕ) (ip now : String)
    → c ≡ i + length ms
    → IsTiled p i ms
    → IsTiled p i (ms ++ next_range mid p c pool_id ip now ∷ [])
IsTiled-snoc p i c [] mid pool_id ip now e h = let q : c ≡ i = omega arith in rw q (refl, refl, tt)
IsTiled-snoc p i c (m ∷ ms) mid pool_id ip now e h =
    (h.0, h.1, IsTiled-snoc p (i + 1) c ms mid pool_id ip now (omega arith) h.2)

mappings_of-set_new :
    (k : ℕ) (m : Mapping) (d : Dict ℕ Mapping) (n : ℕ)
    → IsNumbered n d
    → m.pool_id ≡ k
    → mappings_of k (Dict.set (n + 1) m d) ≡ mappings_of k d ++ m ∷ []
unfolding mappings_of
mappings_of-set_new k m d n h e =
    rw (set-append_new (n + 1) m d (get-none_of_IsNumbered n d h), map-append, filter-append)
      (unfold filter in ground arith)

-- What a call that began at `s` does to the mappings of pool `k`: nothing, or one range more.
abbrev pub Allocates : Pool → ℕ → Store → Reply Mapping × Store → Type 0
Allocates p k s (failure e, s') = s' ≡ s
Allocates p k s (ok m, s') =
    (mappings_of k s'.cgnat_mappings ≡ mappings_of k s.cgnat_mappings ++ m ∷ [])
    × (s'.cgnat_pools ≡ s.cgnat_pools)
    × IsNumbered s'.counter s'.cgnat_mappings
    × IsTiled p 0 (mappings_of k s'.cgnat_mappings)
    × (p.port_start ≤ m.port_start)
    × (m.port_end ≤ p.port_end)

slot_fits : (a b c : ℕ) → a < b / c → a * c + c ≤ b
slot_fits a b c h = grind arith

-- A new range is appended behind the others, keeps them side by side, and lies within the pool.
pub allocate_new-Allocates :
    (p : Pool) (k : ℕ) (ip now : String) (s : Store)
    → IsNumbered s.counter s.cgnat_mappings
    → IsTiled p 0 (mappings_of k s.cgnat_mappings)
    → Allocates p k s (allocate_new p k ip now s)
unfolding allocate_new
allocate_new-Allocates p k ip now s numbered h =
    let ms = mappings_of k s.cgnat_mappings in
    let m = next_range (s.counter + 1) p (length ms) k ip now in
    let more = mappings_of-set_new k m s.cgnat_mappings s.counter numbered refl in
    elim (Bool-cases (p.ports_per_subscriber == 0)) [
      | inl z ↦ rw z refl
      | inr z ↦ elim (Bool-cases (leb (total_slots p) (length ms))) [
        | inl full ↦ rw (z, full) refl
        | inr room ↦
            rw (z, room)
              (
                more,
                refl,
                set-IsNumbered s.counter m s.cgnat_mappings numbered,
                rw more (IsTiled-snoc p 0 (length ms) ms (s.counter + 1) k ip now (omega arith) h),
                omega arith,
                unfold total_slots in
                    ground (
                      arith,
                      slot_fits (length ms) (p.port_end + 1 - p.port_start) p.ports_per_subscriber,
                    ),
              )
      ]
    ]

-- Every range ends below the ranges behind it.
abbrev pub IsDisjoint : List Mapping → Type 0
IsDisjoint [] = Unit
IsDisjoint (m ∷ ms) = All (λ n. m.port_end < n.port_start) ms × IsDisjoint ms

tiled_above :
    (p : Pool) (i j : ℕ) (ms : List Mapping)
    → j ≤ i
    → IsTiled p i ms
    → All (λ n. p.port_start + j * p.ports_per_subscriber ≤ n.port_start) ms
tiled_above p i j [] le h = tt
tiled_above p i j (m ∷ ms) le h = (grind arith, tiled_above p (i + 1) j ms (omega arith) h.2)

All-weaken {ℓ κ μ} :
    {A : Type ℓ} (P : A → Type κ) (Q : A → Type μ) (xs : List A)
    → ((x : A) → P x → Q x)
    → All P xs
    → All Q xs
All-weaken P Q [] f h = tt
All-weaken P Q (x ∷ xs) f h = (f x h.0, All-weaken P Q xs f h.1)

next_slot : (a i c k : ℕ) → 0 < c → a + (i + 1) * c ≤ k → a + i * c + c - 1 < k
next_slot a i c k pos h = grind arith

pub tiled-IsDisjoint :
    (p : Pool) (i : ℕ) (ms : List Mapping)
    → 0 < p.ports_per_subscriber
    → IsTiled p i ms
    → IsDisjoint ms
tiled-IsDisjoint p i [] pos h = tt
tiled-IsDisjoint p i (m ∷ ms) pos h = (
  All-weaken (λ (n : Mapping). p.port_start + (i + 1) * p.ports_per_subscriber ≤ n.port_start)
      (λ n. m.port_end < n.port_start) ms
      (λ n le. rw h.1 (next_slot p.port_start i p.ports_per_subscriber n.port_start pos le))
      (tiled_above p (i + 1) (i + 1) ms (omega arith) h.2),
  tiled-IsDisjoint p (i + 1) ms pos h.2,
)
