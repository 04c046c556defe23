-- ===== src/Ports/Laws.antt =====
-- Which port is given, and that no two rows have one port.
use emarecloud.Prelude.{
  ℕ, zero, suc, ◌+◌, ◌-◌, ◌≤◌, ◌<◌, ◌≡◌, refl, sym, inl, inr, true, false, ◌||◌, Option, none, some,
  List, [], ◌∷◌, ◌++◌, arith, nat_beq, nat_beq_iff, Bool-cases, ◌==◌, nat_eq, string_eq, pair_eq,
}
use mathlib.Core.Path.{subst}
use emarecloud.Lists.{any}
use emarecloud.Ports.Registry.{
  port_min, port_max, PortRecord, Project, Refusal, is_used, first_free, next_free_port,
  insert_record, insert_free, insert_checked, new_record, allocate, check_preferred, find_port,
}

first_free_least :
    (count p q : ℕ) (rows : List PortRecord)
    → first_free count p rows ≡ some q
    → (is_used q rows ≡ false)
      × (p ≤ q)
      × (q < p + count)
      × ((i : ℕ) → p ≤ i → i < q → is_used i rows ≡ true)
unfolding first_free
first_free_least zero p q rows e = absurd (cc)
first_free_least (suc count) p q rows e = elim (Bool-cases (is_used p rows)) [
  | inl u ↦
      let (a, b, c, d) = first_free_least count (p + 1) q rows (rw u at e) in
      (
        a,
        omega (arith, b),
        omega (arith, c),
        λ i h k. elim (Bool-cases (nat_beq p i)) [
          | inl s ↦ subst (λ j. is_used j rows ≡ true) ((nat_beq_iff p i).0 s) u
          | inr s ↦ d i (ground (arith, h, s)) k
        ],
      )
  | inr u ↦
      let s : p ≡ q = ground (arith, rw u at e) in
      (rw (sym s) u, omega (arith, s), omega (arith, s), λ i h k. absurd (omega (arith, s, h, k)))
]

-- The port that is given without a preference is free, lies between 8000 and 9999, and every
-- smaller port of that range is used.
pub next_free_port_least :
    (rows : List PortRecord) (q : ℕ)
    → next_free_port rows ≡ some q
    → (is_used q rows ≡ false)
      × (port_min ≤ q)
      × (q ≤ port_max)
      × ((i : ℕ) → port_min ≤ i → i < q → is_used i rows ≡ true)
unfolding next_free_port
next_free_port_least rows q e =
    let (a, b, c, d) = first_free_least (port_max + 1 - port_min) port_min q rows e in
    (a, b, omega (arith, c), d)

-- No two rows have one port.
abbrev pub IsUnique : List PortRecord → Type 0
IsUnique [] = Unit
IsUnique (r ∷ rows) = (any (λ q. q.port == r.port) rows ≡ false) × IsUnique rows

any-append_one :
    (n : ℕ) (rows : List PortRecord) (r : PortRecord)
    → any (λ q. q.port == n) (rows ++ r ∷ []) ≡ (any (λ q. q.port == n) rows || r.port == n)
unfolding any
any-append_one n [] r = ground arith
any-append_one n (q ∷ rows) r = ground (arith, any-append_one n rows r)

append-IsUnique :
    (rows : List PortRecord) (r : PortRecord)
    → any (λ q. q.port == r.port) rows ≡ false
    → IsUnique rows
    → IsUnique (rows ++ r ∷ [])
unfolding any
append-IsUnique [] r n h = (refl, tt)
append-IsUnique (q ∷ rows) r n (a, h) = (
  ground (arith, any-append_one q.port rows r, n, a),
  append-IsUnique rows r (ground (arith, n)) h,
)

insert_record-IsUnique :
    (r : PortRecord) (rows : List PortRecord) → IsUnique rows → IsUnique (insert_record r rows).1
unfolding insert_record
insert_record-IsUnique r rows h = elim (Bool-cases (any (λ q. q.port == r.port) rows)) [
  | inl e ↦ rw e h
  | inr e ↦ rw e (append-IsUnique rows r e h)
]

insert_free-IsUnique :
    (p : Project) (port : Option ℕ) (now : ℕ) (rows : List PortRecord)
    → IsUnique rows
    → IsUnique (insert_free p port now rows).1
insert_free-IsUnique p none now rows h = h
insert_free-IsUnique p (some port) now rows h =
    insert_record-IsUnique (new_record p port now) rows h

insert_checked-IsUnique :
    (e : Option Refusal) (r : PortRecord) (rows : List PortRecord)
    → IsUnique rows
    → IsUnique (insert_checked e r rows).1
insert_checked-IsUnique none r rows h = insert_record-IsUnique r rows h
insert_checked-IsUnique (some e) r rows h = h

-- An allocation, with a preferred port or without one and whatever its outcome, gives no port twice.
pub allocate-IsUnique :
    (p : Project) (preferred : Option ℕ) (now : ℕ) (rows : List PortRecord)
    → IsUnique rows
    → IsUnique (allocate p preferred now rows).1
unfolding allocate
allocate-IsUnique p none now rows h = insert_free-IsUnique p (next_free_port rows) now rows h
allocate-IsUnique p (some zero) now rows h = insert_free-IsUnique p (next_free_port rows) now rows h
allocate-IsUnique p (some (suc n)) now rows h =
    insert_checked-IsUnique (check_preferred (suc n) (find_port (suc n) rows))
      (new_record p (suc n) now) rows h
