-- ===== src/TenantStore/Tenants/Laws.antt =====
-- Who a key authenticates: soundness, and the key that a new tenant is given.
use emarecloud.Prelude.{
  ◌+◌, String, ◌≡◌, refl, inl, inr, true, false, ◌&&◌, some, List, [], ◌∷◌, ◌++◌, arith, eq_iff,
  Bool-cases, ◌==◌, nat_eq, string_eq, pair_eq,
}
use mathlib.Core.List.{Mem, mem-cons_self, mem-cons_of_mem, map-append}
use emarecloud.TenantStore.State.{Tenant, Store, ok}
use emarecloud.Dict
use emarecloud.Dict.{values}
use emarecloud.Dict.Laws.{IsNumbered, set-append_new, get-none_of_IsNumbered}
use emarecloud.Text.{is_empty, strip, prefix}
use emarecloud.TenantStore.Plans.{Limits, plan_limits, is_valid_tenant_name}
use emarecloud.Lists.{All}
use emarecloud.TenantStore.Tenants.{
  create_tenant, authenticate_by_key, Identity, identity_of, new_tenant, find_key,
}

find_key_sound :
    (h : String) (ts : List Tenant) (i : Identity)
    → find_key h ts ≡ some i
    → (t : Tenant) × Mem t ts × (t.active ≡ true) × (t.api_key_hash ≡ h) × (i ≡ identity_of t)
unfolding find_key
find_key_sound h [] i e = absurd (cc)
find_key_sound h (t ∷ ts) i e = elim (Bool-cases ((t.api_key_hash == h) && t.active)) [
  | inl p ↦ (t, mem-cons_self, ground arith, ground (arith, eq_iff t.api_key_hash h), ground arith)
  | inr p ↦
      (let (u, m, a, k, r) = find_key_sound h ts i (rw p at e) in (u, mem-cons_of_mem t m, a, k, r))
]

find_key_new :
    (h : String) (ts : List Tenant) (t : Tenant)
    → All (λ u. (u.api_key_hash == h) ≡ false) ts
    → t.api_key_hash ≡ h
    → t.active ≡ true
    → find_key h (ts ++ t ∷ []) ≡ some (identity_of t)
unfolding find_key
find_key_new h [] t other k a = ground (arith, eq_iff t.api_key_hash h)
find_key_new h (u ∷ ts) t other k a = ground (arith, find_key_new h ts t other.1 k a)

module _ (hash : String → String) where
  -- A key that authenticates belongs to an active tenant of the store that keeps its hash, and the
  -- identity returned is that of the tenant.
  pub authenticate_sound :
      (key : String) (s : Store) (i : Identity)
      → authenticate_by_key hash key s ≡ some i
      → (t : Tenant) × Mem t (values s.tenants)
        × (t.active ≡ true)
        × (t.api_key_hash ≡ hash key)
        × (i ≡ identity_of t)
  unfolding authenticate_by_key
  authenticate_sound key s i e = find_key_sound (hash key) (values s.tenants) i (ground arith)

  -- The key given to a new tenant with a valid name and a known plan authenticates as that tenant,
  -- which has the next id, the stripped name, the plan and all three limits of the plan, if the
  -- key is not empty, ids are below the counter and no other tenant keeps the same hash.
  pub authenticate-create_tenant :
      (name email plan key now : String) (s : Store) (limits : Limits)
      → is_valid_tenant_name (strip name) ≡ true
      → Dict.get plan plan_limits ≡ some limits
      → is_empty key ≡ false
      → IsNumbered s.counter s.tenants
      → All (λ u. (u.api_key_hash == hash key) ≡ false) (values s.tenants)
      → let (r, s') = create_tenant hash name email plan key now s in
        (t : Tenant) × (r ≡ ok t)
        × (t.id ≡ s.counter + 1)
        × (t.name ≡ strip name)
        × (t.plan ≡ plan)
        × (t.max_servers ≡ limits.max_servers)
        × (t.max_rules ≡ limits.max_rules)
        × (t.rate_limit ≡ limits.rate_limit)
        × (authenticate_by_key hash key s' ≡ some (identity_of t))
  unfolding create_tenant authenticate_by_key
  authenticate-create_tenant name email plan key now s limits valid known given numbered other =
      let t = new_tenant (s.counter + 1) name email plan limits (hash key) (prefix 12 key) now in
      let new =
        set-append_new (s.counter + 1) t s.tenants
          (get-none_of_IsNumbered s.counter s.tenants numbered) in
      rw (valid, known)
        (
          t,
          refl,
          refl,
          refl,
          refl,
          refl,
          refl,
          refl,
          rw (given, new, map-append)
              (find_key_new (hash key) (values s.tenants) t other refl refl),
        )
