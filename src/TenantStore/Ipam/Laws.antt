-- ===== src/TenantStore/Ipam/Laws.antt =====
-- No address is assigned twice.
use emarecloud.Prelude.{
  Bool-cases, Option-cases, String, [], arith, eq_iff, false, inl, inr, nat_eq, pair_eq, refl,
  string_eq, ℕ, ◌++◌, ◌+◌, ◌==◌, ◌||◌, ◌∷◌, ◌≡◌, ◌≤◌,
}
use emarecloud.Dict
use emarecloud.Dict.{Dict, values}
use emarecloud.Dict.Laws.{
  IsNumbered, set-append_new, set-IsNumbered, get-none_of_IsNumbered, All-delete,
}
use emarecloud.Lists.{any}
use emarecloud.TenantStore.State.{Assignment, Store}
use emarecloud.TenantStore.Ipam.{new_assignment, assign_ip, release_ip, find_assignment}

-- No two of the assignments have one address.
abbrev pub IsUnique : Dict ℕ Assignment → Type 0
IsUnique [] = Unit
IsUnique ((_, a) ∷ d) = (any (λ b. b.ip_address == a.ip_address) (values d) ≡ false) × IsUnique d

-- The assignments are numbered by the counter, and no address is assigned twice.
pub record IsValid (s : Store) : Type 0 where
  pub numbered : IsNumbered s.counter s.ipam_assignments
  pub unique : IsUnique s.ipam_assignments

any-snoc :
    (ip : String) (d : Dict ℕ Assignment) (k : ℕ) (a : Assignment)
    → any (λ b. b.ip_address == ip) (values (d ++ (k, a) ∷ []))
      ≡ any (λ b. b.ip_address == ip) (values d) || (a.ip_address == ip)
unfolding any
any-snoc ip [] k a = ground arith
any-snoc ip ((j, b) ∷ d) k a = ground (arith, any-snoc ip d k a)

snoc-IsUnique :
    (k : ℕ) (a : Assignment) (d : Dict ℕ Assignment)
    → IsUnique d
    → any (λ b. b.ip_address == a.ip_address) (values d) ≡ false
    → IsUnique (d ++ (k, a) ∷ [])
unfolding any
snoc-IsUnique k a [] u new = (refl, tt)
snoc-IsUnique k a ((j, b) ∷ d) u new = ground (
  arith,
  snoc-IsUnique k a d u.1,
  any-snoc b.ip_address d k a,
  eq_iff b.ip_address a.ip_address,
  eq_iff a.ip_address b.ip_address,
)

any-delete :
    (ip : String) (k : ℕ) (d : Dict ℕ Assignment)
    → any (λ b. b.ip_address == ip) (values d) ≡ false
    → any (λ b. b.ip_address == ip) (values (Dict.delete k d)) ≡ false
unfolding any Dict.delete
any-delete ip k [] h = refl
any-delete ip k ((j, b) ∷ d) h = ground (arith, any-delete ip k d)

delete-IsUnique : (k : ℕ) (d : Dict ℕ Assignment) → IsUnique d → IsUnique (Dict.delete k d)
unfolding Dict.delete
delete-IsUnique k [] u = tt
delete-IsUnique k ((j, b) ∷ d) u =
    ground (arith, delete-IsUnique k d u.1, any-delete b.ip_address k d u.0)

-- If no address is assigned twice and ids are below the counter, the same holds after an
-- assignment, whatever the outcome.
pub assign_ip-IsValid :
    (block : ℕ) (ip to mac note now : String) (s : Store)
    → IsValid s
    → IsValid (assign_ip block ip to mac note now s).1
unfolding assign_ip
assign_ip-IsValid block ip to mac note now s v =
    let row = new_assignment (s.counter + 1) block ip to mac note now in
    elim (Bool-cases (any (λ a. a.ip_address == ip) (values s.ipam_assignments))) [
      | inl taken ↦ rw taken v
      | inr free ↦ rw free (record {
        numbered = set-IsNumbered s.counter row s.ipam_assignments v.numbered;
        unique =
            rw
              (set-append_new (s.counter + 1) row s.ipam_assignments
                (get-none_of_IsNumbered s.counter s.ipam_assignments v.numbered))
              (snoc-IsUnique (s.counter + 1) row s.ipam_assignments v.unique free);
      })
    ]

-- Releasing an address leaves no address assigned twice.
pub release_ip-IsValid : (ip : String) (s : Store) → IsValid s → IsValid (release_ip ip s).1
unfolding release_ip
release_ip-IsValid ip s v = elim (Option-cases (find_assignment ip s.ipam_assignments)) [
  | inl missing ↦ let e : (release_ip ip s).1 ≡ s = ground arith in rw e v
  | inr (k, found) ↦
      (let d = Dict.delete k s.ipam_assignments in
        let e : (release_ip ip s).1 ≡ record s { ipam_assignments = d } = ground arith in
        rw e (record {
          numbered = All-delete (λ x. x.0 ≤ s.counter) k s.ipam_assignments v.numbered;
          unique = delete-IsUnique k s.ipam_assignments v.unique;
        }))
]
