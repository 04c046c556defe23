-- ===== src/Ports/Released.antt =====
-- A port that is given and released again is never given again without a preference.
use emarecloud.Prelude.{
  ℕ, zero, suc, ◌+◌, ◌-◌, ◌≡◌, refl, sym, ap, ◌∙◌, ◌⊎◌, inl, inr, true, false, Option, none, some,
  List, [], ◌∷◌, ◌++◌, arith, nat_beq_iff, Bool-cases, ◌==◌, nat_eq, string_eq, pair_eq,
}
use mathlib.Core.Path.{subst}
use emarecloud.Lists.{any}
use emarecloud.Ports.Registry.{
  port_min, port_max, PortRecord, Project, Refusal, not_unique, is_used, first_free, next_free_port,
  insert_record, insert_free, new_record, allocate, release,
}

-- The row that a release leaves.
abbrev released : (now : ℕ) → PortRecord → PortRecord
released now r = record r { status = "released"; released_at = some now }

release-append :
    (q now : ℕ) (rows : List PortRecord) (r : PortRecord)
    → any (λ s. s.port == q) rows ≡ false
    → (r.port == q) ≡ true
    → release q now (rows ++ (r ∷ [])) ≡ rows ++ (released now r ∷ [])
unfolding release any
release-append q now [] r h e = rw e refl
release-append q now (s ∷ rows) r h e =
    let here : (s.port == q) ≡ false = ground (arith, h) in
    let rest : any (λ s. s.port == q) rows ≡ false = ground (arith, h) in
    rw here (ap (λ l. s ∷ l) (release-append q now rows r rest e))

-- A released row makes no port used.
is_used-released :
    (i now : ℕ) (rows : List PortRecord) (r : PortRecord)
    → is_used i (rows ++ (released now r ∷ [])) ≡ is_used i rows
unfolding is_used any
is_used-released i now [] r = refl
is_used-released i now (s ∷ rows) r = ground (arith, is_used-released i now rows r)

first_free-cong :
    (count p : ℕ) (a b : List PortRecord)
    → ((i : ℕ) → is_used i a ≡ is_used i b)
    → first_free count p a ≡ first_free count p b
unfolding first_free
first_free-cong zero p a b h = refl
first_free-cong (suc count) p a b h = rw (h p, first_free-cong count (p + 1) a b h) refl

any-released :
    (q now : ℕ) (rows : List PortRecord) (r : PortRecord)
    → (r.port == q) ≡ true
    → any (λ s. s.port == q) (rows ++ (released now r ∷ [])) ≡ true
unfolding any
any-released q now [] r e = rw e refl
any-released q now (s ∷ rows) r e = ground (arith, any-released q now rows r e)

abbrev right_or : PortRecord → Refusal ⊎ PortRecord → PortRecord
right_or d (inl e) = d
right_or d (inr r) = r

-- What a successful allocation without a preference did.
insert_free_inv :
    (p : Project) (port : Option ℕ) (now : ℕ) (rows rows' : List PortRecord) (r : PortRecord)
    → insert_free p port now rows ≡ (inr r, rows')
    → (port ≡ some r.port) × (any (λ s. s.port == r.port) rows ≡ false) × (rows' ≡ rows ++ (r ∷ []))
unfolding insert_record
insert_free_inv p none now rows rows' r h = absurd (ground (arith, h))
insert_free_inv p (some q) now rows rows' r h = elim (Bool-cases (any (λ s. s.port == q) rows)) [
  | inl e ↦ absurd (ground (arith, h, e))
  | inr e ↦
      let n = new_record p q now in
      let done : ◌≡◌ {A = (Refusal ⊎ PortRecord) × List PortRecord} (inr n, rows ++ (n ∷ []))
          (inr r, rows') =
        rw e at h in
      let same : n ≡ r = ap (λ x. right_or r x.0) done in
      let port : q ≡ r.port = ap (λ x. x.port) same in
      (
        ap some port,
        ap (λ k. any (λ s. s.port == k) rows) (sym port) ∙ e,
        sym (ap (λ x. x.1) done) ∙ ap (λ x. rows ++ (x ∷ [])) same,
      )
]

-- The port that would be given is refused where a row has it.
allocate_held :
    (p : Project) (now q : ℕ) (rows : List PortRecord)
    → next_free_port rows ≡ some q
    → any (λ r. r.port == q) rows ≡ true
    → allocate p none now rows ≡ (inl not_unique, rows)
unfolding allocate insert_record
allocate_held p now q rows e h = ap (λ o. insert_free p o now rows) e ∙ rw h refl

next_free_port-released :
    (now : ℕ) (rows : List PortRecord) (r : PortRecord)
    → next_free_port (rows ++ (released now r ∷ [])) ≡ next_free_port rows
unfolding next_free_port
next_free_port-released now rows r =
    first_free-cong (port_max + 1 - port_min) port_min _ rows (λ i. is_used-released i now rows r)

allocate_inv :
    (p : Project) (now : ℕ) (rows rows' : List PortRecord) (r : PortRecord)
    → allocate p none now rows ≡ (inr r, rows')
    → (next_free_port rows ≡ some r.port)
      × (any (λ s. s.port == r.port) rows ≡ false)
      × (rows' ≡ rows ++ (r ∷ []))
unfolding allocate
allocate_inv p now rows rows' r h = insert_free_inv p (next_free_port rows) now rows rows' r h

-- Once a port that was given without a preference is released, the next allocation without a
-- preference is refused by the unique column and changes nothing.
pub allocate-release :
    (p p' : Project) (now later last : ℕ) (rows rows' : List PortRecord) (r : PortRecord)
    → allocate p none now rows ≡ (inr r, rows')
    → allocate p' none last (release r.port later rows')
      ≡ (inl not_unique, release r.port later rows')
allocate-release p p' now later last rows rows' r h =
    let (free, absent, grown) = allocate_inv p now rows rows' r h in
    let same : (r.port == r.port) ≡ true = (nat_beq_iff r.port r.port).1 refl in
    let left : release r.port later rows' ≡ rows ++ (released later r ∷ []) =
      ap (release r.port later) grown ∙ release-append r.port later rows r absent same in
    subst (λ l. allocate p' none last l ≡ (inl not_unique, l)) (sym left)
      (allocate_held p' last r.port (rows ++ (released later r ∷ []))
        (next_free_port-released later rows r ∙ free) (any-released r.port later rows r same))
