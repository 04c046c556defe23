-- ===== src/Rmm/Playbooks/Counts.antt =====
-- How the counts of the playbooks and the log of runs hang together, table by table.
use emarecloud.Prelude.{
  ℕ, ◌+◌, ◌≡◌, refl, sym, ◌∙◌, inl, inr, true, false, not, List, [], ◌∷◌, ◌++◌, arith, leb,
  if◌then◌else◌, is_some, Bool-cases, ◌==◌, nat_eq, string_eq, pair_eq,
}
use emarecloud.Lists.{All, filter}
use emarecloud.Rmm.Playbooks.{
  Playbook, Run, Playbooks, Field, set_field, set_fields, change_playbook, find_playbook,
}
use emarecloud.Rmm.Playbooks.Execute.{counted}

-- The number of logged runs of a playbook.
unfoldable pub runs_of : (id : ℕ) → List Run → ℕ
runs_of id [] = 0
runs_of id (r ∷ runs) = (if r.playbook_id == id then 1 else 0) + runs_of id runs

abbrev pub IsCounted : List Run → (sequence : ℕ) → Playbook → Type 0
IsCounted runs n p = (p.run_count ≡ runs_of p.id runs) × (leb p.id n ≡ true)

abbrev pub IsOld : (sequence : ℕ) → Run → Type 0
IsOld n r = leb r.playbook_id n ≡ true

abbrev pub IsKept : Playbooks → Type 0
IsKept s = All (IsCounted s.runs s.sequence) s.rows × All (IsOld s.sequence) s.runs

runs_of-append :
    (id : ℕ) (runs : List Run) (r : Run)
    → runs_of id (runs ++ (r ∷ [])) ≡ (if r.playbook_id == id then 1 else 0) + runs_of id runs
unfolding runs_of
runs_of-append id [] r = refl
runs_of-append id (q ∷ runs) r = rw (runs_of-append id runs r) (ground arith)

pub runs_of-new : (n : ℕ) (runs : List Run) → All (IsOld n) runs → runs_of (n + 1) runs ≡ 0
unfolding runs_of
runs_of-new n [] h = refl
runs_of-new n (r ∷ runs) (hr, h) = ground (arith, hr, runs_of-new n runs h)

runs_of-deleted :
    (id other : ℕ) (runs : List Run)
    → (other == id) ≡ false
    → runs_of other (filter (λ r. not (r.playbook_id == id)) runs) ≡ runs_of other runs
unfolding runs_of filter
runs_of-deleted id other [] q = refl
runs_of-deleted id other (r ∷ runs) q = ground (arith, q, runs_of-deleted id other runs q)

pub IsOld-deleted :
    (n id : ℕ) (runs : List Run)
    → All (IsOld n) runs
    → All (IsOld n) (filter (λ r. not (r.playbook_id == id)) runs)
unfolding filter
IsOld-deleted n id [] h = tt
IsOld-deleted n id (r ∷ runs) (hr, h) = elim (Bool-cases (r.playbook_id == id)) [
  | inl e ↦ rw e (IsOld-deleted n id runs h)
  | inr e ↦ rw e (hr, IsOld-deleted n id runs h)
]

pub delete-IsCounted :
    (n id : ℕ) (runs : List Run) (rows : List Playbook)
    → All (IsCounted runs n) rows
    → All
        (IsCounted (filter (λ r. not (r.playbook_id == id)) runs) n)
        (filter (λ p. not (p.id == id)) rows)
unfolding filter
delete-IsCounted n id runs [] h = tt
delete-IsCounted n id runs (p ∷ rows) ((hc, hn), h) = elim (Bool-cases (p.id == id)) [
  | inl e ↦ rw e (delete-IsCounted n id runs rows h)
  | inr e ↦
      rw e ((hc ∙ sym (runs_of-deleted id p.id runs e), hn), delete-IsCounted n id runs rows h)
]

-- A function on rows that leaves the identifier and the count.
abbrev pub Leaves : (Playbook → Playbook) → Type 0
Leaves f = (p : Playbook) → ((f p).id ≡ p.id) × ((f p).run_count ≡ p.run_count)

set_field-Leaves : (f : Field) → Leaves (set_field f)
unfolding set_field
set_field-Leaves f p = ground arith

pub set_fields-Leaves : (fields : List Field) → Leaves (set_fields fields)
unfolding set_fields
set_fields-Leaves [] p = (refl, refl)
set_fields-Leaves (f ∷ fields) p =
    let one = set_field-Leaves f p in
    let rest = set_fields-Leaves fields (set_field f p) in (rest.0 ∙ one.0, rest.1 ∙ one.1)

pub change_playbook-IsCounted :
    (f : Playbook → Playbook) (id : ℕ) (runs : List Run) (n : ℕ) (rows : List Playbook)
    → Leaves f
    → All (IsCounted runs n) rows
    → All (IsCounted runs n) (change_playbook id f rows)
unfolding change_playbook
change_playbook-IsCounted f id runs n [] l h = tt
change_playbook-IsCounted f id runs n (p ∷ rows) l ((hc, hn), h) =
    let rest = change_playbook-IsCounted f id runs n rows l h in
    elim (Bool-cases (p.id == id)) [
      | inl e ↦ rw e ((rw (l p).0 (rw (l p).1 hc), rw (l p).0 hn), rest)
      | inr e ↦ rw e ((hc, hn), rest)
    ]

-- A run that is logged and counted.
pub counted-IsCounted :
    (now : ℕ) (r : Run) (runs : List Run) (n : ℕ) (rows : List Playbook)
    → All (IsCounted runs n) rows
    → All (IsCounted (runs ++ (r ∷ [])) n) (change_playbook r.playbook_id (counted now) rows)
unfolding change_playbook
counted-IsCounted now r runs n [] h = tt
counted-IsCounted now r runs n (p ∷ rows) ((hc, hn), h) =
    let rest = counted-IsCounted now r runs n rows h in
    elim (Bool-cases (p.id == r.playbook_id)) [
      | inl e ↦ rw e ((ground (arith, e, hc, runs_of-append p.id runs r), hn), rest)
      | inr e ↦ rw e ((ground (arith, e, hc, runs_of-append p.id runs r), hn), rest)
    ]

pub next-IsCounted :
    (runs : List Run) (n : ℕ) (rows : List Playbook)
    → All (IsCounted runs n) rows
    → All (IsCounted runs (n + 1)) rows
next-IsCounted runs n [] h = tt
next-IsCounted runs n (p ∷ rows) ((hc, hn), h) =
    ((hc, ground (arith, hn)), next-IsCounted runs n rows h)

pub next-IsOld : (n : ℕ) (runs : List Run) → All (IsOld n) runs → All (IsOld (n + 1)) runs
next-IsOld n [] h = tt
next-IsOld n (r ∷ runs) (hr, h) = (ground (arith, hr), next-IsOld n runs h)

pub find_playbook-known :
    (id : ℕ) (runs : List Run) (n : ℕ) (rows : List Playbook)
    → All (IsCounted runs n) rows
    → is_some (find_playbook id rows) ≡ true
    → leb id n ≡ true
unfolding find_playbook
find_playbook-known id runs n [] h q = ground (arith, q)
find_playbook-known id runs n (p ∷ rows) ((hc, hn), h) q = elim (Bool-cases (p.id == id)) [
  | inl e ↦ ground (arith, e, hn)
  | inr e ↦ find_playbook-known id runs n rows h (ground (arith, e, q))
]
