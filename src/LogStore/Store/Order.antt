-- ===== src/LogStore/Store/Order.antt =====
-- The buffer is bounded, and its entries are numbered in order.
use emarecloud.Prelude.{
  ℕ, zero, suc, ◌+◌, ◌-◌, ◌≤◌, ◌<◌, String, ◌≡◌, refl, inl, inr, some, List, [], ◌∷◌, ◌++◌, arith,
  Option-cases, nat_eq, string_eq, pair_eq,
}
use emarecloud.Lists.{length, length-last, last, drop, All, All-append, All-last}
use emarecloud.LogEntry.{TsaResult, Entry}
use emarecloud.Law5651.{stamped, stamp_entry}
use emarecloud.LogStore.Store.{entry_of, Backend, Log, Request, record_entry, add, clear}

-- Each entry's id is below the next one's.
abbrev pub IsAscending : List Entry → Type 0
IsAscending [] = Unit
IsAscending (x ∷ []) = Unit
IsAscending (x ∷ y ∷ ys) = (x.id < y.id) × IsAscending (y ∷ ys)

IsAscending-tail : (x : Entry) (xs : List Entry) → IsAscending (x ∷ xs) → IsAscending xs
IsAscending-tail x [] h = tt
IsAscending-tail x (y ∷ ys) h = h.1

IsAscending-drop : (n : ℕ) (xs : List Entry) → IsAscending xs → IsAscending (drop n xs)
unfolding drop
IsAscending-drop zero xs h = h
IsAscending-drop (suc n) [] h = tt
IsAscending-drop (suc n) (x ∷ xs) h = IsAscending-drop n xs (IsAscending-tail x xs h)

IsAscending-snoc :
    (xs : List Entry) (e : Entry)
    → IsAscending xs
    → All (λ x. x.id < e.id) xs
    → IsAscending (xs ++ e ∷ [])
IsAscending-snoc [] e h a = tt
IsAscending-snoc (x ∷ []) e h a = (a.0, tt)
IsAscending-snoc (x ∷ y ∷ ys) e h a = (h.0, IsAscending-snoc (y ∷ ys) e h.1 a.1)

All-le_lt : (n : ℕ) (xs : List Entry) → All (λ x. x.id ≤ n) xs → All (λ x. x.id < n + 1) xs
All-le_lt n [] h = tt
All-le_lt n (x ∷ xs) h = (omega arith, All-le_lt n xs h.1)

All-le_suc : (n : ℕ) (xs : List Entry) → All (λ x. x.id ≤ n) xs → All (λ x. x.id ≤ n + 1) xs
All-le_suc n [] h = tt
All-le_suc n (x ∷ xs) h = (omega arith, All-le_suc n xs h.1)

module _ (B : Backend) where
  -- At most `max_entries` entries, in the order of their ids, none above the counter.
  pub record IsOrdered (s : Log B) : Type 0 where
    pub bounded : length s.entries ≤ s.max_entries
    pub ascending : IsAscending s.entries
    pub below : All (λ e. e.id ≤ s.counter) s.entries

  record_entry_keeps :
      (e : Entry) (s : Log B)
      → ((record_entry B e s).entries ≡ last s.max_entries (s.entries ++ e ∷ []))
        × ((record_entry B e s).counter ≡ s.counter)
        × ((record_entry B e s).max_entries ≡ s.max_entries)
  unfolding record_entry
  record_entry_keeps e s = ground arith

  record_entry-IsOrdered :
      (e : Entry) (s : Log B)
      → IsAscending s.entries
      → All (λ x. x.id < e.id) s.entries
      → All (λ x. x.id ≤ s.counter) s.entries
      → e.id ≡ s.counter
      → IsOrdered (record_entry B e s)
  unfolding last
  record_entry-IsOrdered e s asc below le at =
      let (es, c, m) = record_entry_keeps e s in
      let all = s.entries ++ e ∷ [] in
      record {
        bounded = rw (es, m) (omega (arith, length-last s.max_entries all));
        ascending = rw es (
            IsAscending-drop (length all - s.max_entries) all
              (IsAscending-snoc s.entries e asc below));
        below =
            rw (es, c)
              (All-last (λ x. x.id ≤ s.counter) s.max_entries all
                (All-append (λ x. x.id ≤ s.counter) s.entries (e ∷ []) le (omega arith, tt)));
      }

  module _ (sha256_hex : String → String) (dumps : Entry → String)
      (request_timestamp : String → TsaResult) where
    -- Adding an entry keeps the buffer within its bound and its ids ascending up to the counter,
    -- with a stamper and without one, whatever the database does.
    pub add-IsOrdered :
        (now : String) (r : Request B) (s : Log B)
        → IsOrdered s
        → IsOrdered (add B sha256_hex dumps request_timestamp now r s).1
    unfolding add
    add-IsOrdered now r s h =
        let e = entry_of B (s.counter + 1) now r in
        let s' = record s { counter = s.counter + 1 } in
        let lt = All-le_lt s.counter s.entries h.below in
        let le = All-le_suc s.counter s.entries h.below in
        elim (Option-cases s.law5651) [
          | inl off ↦ rw (off, add) (record_entry-IsOrdered e s' h.ascending lt le refl)
          | inr (t, on) ↦
              (let (m, t') = stamp_entry sha256_hex dumps request_timestamp now e t in
                rw (on, add)
                  (record_entry-IsOrdered (stamped e m) (record s' { law5651 = some t' })
                    h.ascending lt le refl))
        ]

  -- Clearing leaves an ordered buffer.
  pub clear-IsOrdered : (s : Log B) → IsOrdered (clear B s)
  unfolding clear
  clear-IsOrdered s = record { bounded = omega arith; ascending = tt; below = tt }
