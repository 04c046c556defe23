-- ===== src/Rmm/Tickets/Stats.antt =====
-- The statistics of the tickets count every ticket.
use emarecloud.Prelude.{
  ℕ, suc, ◌+◌, String, ◌≡◌, refl, ap, ◌∙◌, inl, inr, true, Option, none, some, List, [], ◌∷◌, ◌++◌,
  arith, if◌then◌else◌, Bool-cases, ◌==◌, nat_eq, string_eq, pair_eq,
}
use mathlib.Core.Path.{subst}
use emarecloud.Dict
use emarecloud.Lists.{All, length, is_in, length-append, All-append}
use emarecloud.Rmm.Tickets.{
  Note, Ticket, Tickets, NewTicket, ticket_row, create_ticket, get_ticket, Change, changed,
  change_rows, update_found, update_ticket, count_status, valid_ticket_statuses, ticket_stats,
}

pub data Event : Type 0 where
  creates : NewTicket → (now : ℕ) → Event
  updates : (id : ℕ) → Change → (now : ℕ) → Event

unfoldable pub run : List Event → Tickets → Tickets
run [] t = t
run (creates n now ∷ es) t = run es (create_ticket n now t).1
run (updates id c now ∷ es) t = run es (update_ticket id c now t).1

abbrev pub empty : Tickets
empty = record { rows = []; sequence = 0 }

-- How many tickets a run creates.
abbrev pub creations : List Event → ℕ
creations [] = 0
creations (creates n now ∷ es) = 1 + creations es
creations (updates id c now ∷ es) = creations es

abbrev HasStatus : Ticket → Type 0
HasStatus t = is_in t.status valid_ticket_statuses ≡ true

changed-HasStatus :
    (c : Change) (now : ℕ) (old : List Note) (t : Ticket)
    → HasStatus t
    → HasStatus (changed c now old t)
unfolding changed
changed-HasStatus c now old t h = ground (arith, h)

change_rows-All :
    (id : ℕ) (f : Ticket → Ticket) (rows : List Ticket)
    → ((t : Ticket) → HasStatus t → HasStatus (f t))
    → All HasStatus rows
    → All HasStatus (change_rows id f rows)
unfolding change_rows
change_rows-All id f [] k h = tt
change_rows-All id f (t ∷ rows) k (ht, h) = elim (Bool-cases (t.id == id)) [
  | inl e ↦ rw e (k t ht, change_rows-All id f rows k h)
  | inr e ↦ rw e (ht, change_rows-All id f rows k h)
]

length-change_rows :
    (id : ℕ) (f : Ticket → Ticket) (rows : List Ticket)
    → length (change_rows id f rows) ≡ length rows
unfolding change_rows
length-change_rows id f [] = refl
length-change_rows id f (t ∷ rows) = ap suc (length-change_rows id f rows)

update_found-IsKept :
    (id : ℕ) (c : Change) (now : ℕ) (o : Option Ticket) (t : Tickets)
    → All HasStatus t.rows
    → All HasStatus (update_found id c now o t).1.rows
      × (length (update_found id c now o t).1.rows ≡ length t.rows)
update_found-IsKept id c now none t h = (h, refl)
update_found-IsKept id c now (some old) t h = (
  change_rows-All id (changed c now old.notes) t.rows (changed-HasStatus c now old.notes) h,
  length-change_rows id (changed c now old.notes) t.rows,
)

new_row-HasStatus : (id : ℕ) (n : NewTicket) (now : ℕ) → HasStatus (ticket_row id n now)
unfolding is_in
new_row-HasStatus id n now = refl

run-creations :
    (es : List Event) (t : Tickets)
    → All HasStatus t.rows
    → All HasStatus (run es t).rows × (length (run es t).rows ≡ length t.rows + creations es)
unfolding run create_ticket update_ticket
run-creations [] t h = (h, omega arith)
run-creations (creates n now ∷ es) t h =
    let row : Ticket = ticket_row (t.sequence + 1) n now in
    let added : Tickets = record { rows = t.rows ++ (row ∷ []); sequence = t.sequence + 1 } in
    let (vs, ls) =
      run-creations es added
        (All-append HasStatus t.rows (row ∷ []) h (new_row-HasStatus (t.sequence + 1) n now, tt)) in
    (vs, omega (arith, ls, length-append {0} t.rows (row ∷ [])))
run-creations (updates id c now ∷ es) t h =
    let (v, l) = update_found-IsKept id c now (get_ticket id t) t h in
    let (vs, ls) = run-creations es (update_found id c now (get_ticket id t) t).1 v in
    (vs, omega (arith, l, ls))

indicator : (status s : String) → ℕ
indicator status s = if s == status then 1 else 0

one_status :
    (s : String)
    → is_in s valid_ticket_statuses ≡ true
    → indicator "open" s
        + (indicator "in_progress" s + (indicator "resolved" s + indicator "closed" s))
      ≡ 1
unfolding is_in indicator
one_status s h =
    let P = λ (x : String).
      indicator "open" x
        + (indicator "in_progress" x + (indicator "resolved" x + indicator "closed" x))
      ≡ 1 in
    elim (Bool-cases ("open" == s)) [
      | inl e ↦ subst P ((string_eq.same_iff "open" s).0 e) refl
      | inr a ↦ elim (Bool-cases ("in_progress" == s)) [
        | inl e ↦ subst P ((string_eq.same_iff "in_progress" s).0 e) refl
        | inr b ↦ elim (Bool-cases ("resolved" == s)) [
          | inl e ↦ subst P ((string_eq.same_iff "resolved" s).0 e) refl
          | inr c ↦
              let e : ("closed" == s) ≡ true = ground (arith, h, a, b, c) in
              subst P ((string_eq.same_iff "closed" s).0 e) refl
        ]
      ]
    ]

counts-total :
    (rows : List Ticket)
    → All HasStatus rows
    → count_status "open" rows
        + (count_status "in_progress" rows
            + (count_status "resolved" rows + (count_status "closed" rows + 0)))
      ≡ length rows
unfolding count_status indicator
counts-total [] h = refl
counts-total (t ∷ rows) (ht, h) = omega (arith, one_status t.status ht, counts-total rows h)

-- After any run of creations and updates from an empty table, whatever the statuses that the updates ask for, the total of
-- `ticket_stats`, which it sums over the valid statuses, is the number of tickets that were created.
pub ticket_stats_total :
    (es : List Event) → Dict.get "total" (ticket_stats (run es empty)) ≡ some (creations es)
unfolding ticket_stats Dict.get
ticket_stats_total es =
    let (v, l) = run-creations es empty tt in
    ap some (counts-total (run es empty).rows v ∙ l ∙ omega arith)
