-- ===== src/TenantStore/Cgnat/Runs.antt =====
-- Runs of allocations, and a range that is given twice after a release.
use emarecloud.Prelude.{
  ℕ, ◌≤◌, ◌<◌, String, ◌≡◌, refl, true, map, inl, inr, some, List, [], ◌∷◌, arith, Bool-cases,
  Option-cases, nat_eq, string_eq, pair_eq,
}
use emarecloud.Dict
use emarecloud.Dict.{Dict, values}
use emarecloud.Dict.Laws.{IsNumbered}
use emarecloud.Lists.{filter, All, All-append}
use emarecloud.TenantStore.State.{Pool, Mapping, Store, Reply, ok, failure, init}
use emarecloud.TenantStore.Cgnat.{
  mappings_of, find_subscriber, allocate_new, allocate_cgnat, release_cgnat,
}
use emarecloud.TenantStore.Cgnat.Ranges.{
  IsTiled, IsDisjoint, Allocates, allocate_new-Allocates, tiled-IsDisjoint,
}

abbrev pub IsWithin : Pool → Mapping → Type 0
IsWithin p m = (p.port_start ≤ m.port_start) × (m.port_end ≤ p.port_end)

-- Pool `k` is `p`, and its ranges lie side by side within it.
pub record IsLaid (k : ℕ) (p : Pool) (s : Store) : Type 0 where
  pub found : Dict.get k s.cgnat_pools ≡ some p
  pub numbered : IsNumbered s.counter s.cgnat_mappings
  pub tiled : IsTiled p 0 (mappings_of k s.cgnat_mappings)
  pub within : All (IsWithin p) (mappings_of k s.cgnat_mappings)

Allocates-IsLaid :
    (k : ℕ) (p : Pool) (s : Store) (r : Reply Mapping × Store)
    → IsLaid k p s
    → Allocates p k s r
    → IsLaid k p r.1
Allocates-IsLaid k p s (failure e, s') l same = rw same l
Allocates-IsLaid k p s (ok m, s') l (more, pools, numbered, tiled, low, high) = record {
  found = rw pools l.found;
  numbered = numbered;
  tiled = tiled;
  within = rw more (
      All-append (IsWithin p) (mappings_of k s.cgnat_mappings) (m ∷ []) l.within ((low, high), tt));
}

allocate_cgnat-IsLaid :
    (k : ℕ) (p : Pool) (ip now : String) (s : Store)
    → IsLaid k p s
    → IsLaid k p (allocate_cgnat k ip now s).1
unfolding allocate_cgnat
allocate_cgnat-IsLaid k p ip now s l =
    elim (Option-cases (find_subscriber ip (mappings_of k s.cgnat_mappings))) [
      | inl new ↦ elim (Bool-cases p.active) [
        | inl on ↦
            (let e : allocate_cgnat k ip now s ≡ allocate_new p k ip now s =
                ground (arith, l.found) in
              let done = allocate_new-Allocates p k ip now s l.numbered l.tiled in
              rw e (Allocates-IsLaid k p s (allocate_new p k ip now s) l done))
        | inr off ↦ (let e : (allocate_cgnat k ip now s).1 ≡ s = ground (arith, l.found) in rw e l)
      ]
      | inr (m, old) ↦ let e : (allocate_cgnat k ip now s).1 ≡ s = ground (arith, l.found) in rw e l
    ]

-- Allocations for these subscribers, one after the other, each with its time.
abbrev pub allocate_all : (pool_id : ℕ) → List (String × String) → Store → Store
allocate_all k [] s = s
allocate_all k ((ip, now) ∷ rest) s = allocate_all k rest (allocate_cgnat k ip now s).1

allocate_all-IsLaid :
    (k : ℕ) (p : Pool) (ips : List (String × String)) (s : Store)
    → IsLaid k p s
    → IsLaid k p (allocate_all k ips s)
allocate_all-IsLaid k p [] s l = l
allocate_all-IsLaid k p ((ip, now) ∷ ips) s l =
    allocate_all-IsLaid k p ips (allocate_cgnat k ip now s).1 (allocate_cgnat-IsLaid k p ip now s l)

-- Whatever subscribers ask a pool that has handed out nothing, the port ranges handed out do not
-- overlap and lie within the pool, if a subscriber has at least one port and the mapping ids are
-- below the counter.
pub allocate_all-IsDisjoint :
    (k : ℕ) (p : Pool) (ips : List (String × String)) (s : Store)
    → Dict.get k s.cgnat_pools ≡ some p
    → 0 < p.ports_per_subscriber
    → IsNumbered s.counter s.cgnat_mappings
    → mappings_of k s.cgnat_mappings ≡ []
    → IsDisjoint (mappings_of k (allocate_all k ips s).cgnat_mappings)
      × All (IsWithin p) (mappings_of k (allocate_all k ips s).cgnat_mappings)
allocate_all-IsDisjoint k p ips s found pos numbered none_yet =
    let start : IsLaid k p s = record {
      found = found;
      numbered = numbered;
      tiled = rw none_yet tt;
      within = rw none_yet tt;
    } in
    let laid = allocate_all-IsLaid k p ips s start in
    (
      tiled-IsDisjoint p 0 (mappings_of k (allocate_all k ips s).cgnat_mappings) pos laid.tiled,
      laid.within,
    )

-- A pool of three ranges of ten ports.
abbrev pub cgnat_pool : Pool
cgnat_pool = record {
  id = 1;
  tenant_id = 1;
  pool_name = "pool";
  public_ip = "198.51.100.1";
  port_start = 1000;
  port_end = 1029;
  ports_per_subscriber = 10;
  active = true;
}

-- That pool after "a" and "b" have taken a range each and "a" has given its range back.
abbrev released_pool : Store
released_pool =
    let s : Store = record init { cgnat_pools = (1, cgnat_pool) ∷ []; counter = 1 } in
    (release_cgnat 1 "a" (allocate_all 1 (("a", "t1") ∷ ("b", "t2") ∷ []) s)).1

-- The next range is placed by the number of ranges in use, and is the one that "b" still has.
ranges_coincide :
    map
      (λ m. m.port_start)
      (mappings_of 1 (allocate_cgnat 1 "c" "t3" released_pool).1.cgnat_mappings)
    ≡ (1010 ∷ 1010 ∷ [])
unfolding allocate_cgnat release_cgnat allocate_new mappings_of filter Dict.set Dict.get Dict.delete
ranges_coincide = refl
