-- ===== src/LogStore/Store/Durable.antt =====
-- What reaches a database that keeps the ids of the entries, as that of SQLiteBackend does: every entry, in order.
use mathlib.Core.Path.{subst}
use emarecloud.Prelude.{
  ℕ, ◌≤◌, ◌+◌, ◌<◌, String, ◌≡◌, refl, sym, ap, ◌∙◌, ◌⊎◌, inl, inr, true, some, List, [], ◌∷◌, ◌++◌,
  arith, leb, Bool-cases, Option-cases, nat_eq, string_eq, pair_eq,
}
use mathlib.Core.List.{append_assoc, append-nil}
use emarecloud.Lists.{length}
use emarecloud.LogEntry.{TsaResult, Entry}
use emarecloud.Law5651.{stamped, stamp_entry}
use emarecloud.LogStore.Stats.{update_stats}
use emarecloud.LogStore.Store.{
  push_entry, Backend, Log, Request, entry_of, persist, flush_db, record_entry, add, flush_size,
}

List-cases {ℓ} : {A : Type ℓ} (xs : List A) → (xs ≡ []) ⊎ ((x : A) × (ys : List A) × (xs ≡ x ∷ ys))
List-cases [] = inl refl
List-cases (x ∷ ys) = inr (x, ys, refl)

-- The ids ascend from above `lo` up to `hi`.
abbrev pub IsRising : (lo : ℕ) → List Entry → (hi : ℕ) → Type 0
IsRising lo [] hi = lo ≤ hi
IsRising lo (e ∷ es) hi = (lo < e.id) × IsRising e.id es hi

-- The next id stands behind the others.
IsRising-next :
    (lo : ℕ) (es : List Entry) (hi : ℕ) (e : Entry)
    → e.id ≡ hi + 1
    → IsRising lo es hi
    → IsRising lo (es ++ (e ∷ [])) (hi + 1)
IsRising-next lo [] hi e q h = (omega (arith, q, h), omega (arith, q))
IsRising-next lo (d ∷ es) hi e q (l, h) = (l, IsRising-next d.id es hi e q h)

IsRising-weaken : (lo : ℕ) (es : List Entry) (hi : ℕ) → IsRising lo es hi → IsRising lo es (hi + 1)
IsRising-weaken lo [] hi h = omega (arith, h)
IsRising-weaken lo (d ∷ es) hi (l, h) = (l, IsRising-weaken d.id es hi h)

module _ (B : Backend) (rows : B.Db → List Entry) where
  -- A batch whose ids ascend beyond those of the rows is written behind them.
  abbrev pub Appends : Type 0
  Appends =
      (hi : ℕ) (es : List Entry) (d : B.Db)
      → IsRising 0 (rows d ++ es) hi
      → (d' : B.Db) × (B.insert_batch es d ≡ (true, d')) × (rows d' ≡ rows d ++ es)

  -- The database of `s` is there, and its rows with the write buffer are `all`, whose ids ascend up to the counter;
  -- the buffer is shorter than a batch.
  pub record IsDurable (all : List Entry) (s : Log B) : Type 0 where
    pub db : B.Db
    pub present : s.db ≡ some db
    pub kept : rows db ++ s.write_buf ≡ all
    pub rising : IsRising 0 all s.counter
    pub short : length s.write_buf < flush_size

  module _ (appends : Appends) where
    -- Writing the buffer out leaves it empty, and every entry among the rows.
    flush_db-IsDurable :
        (all : List Entry) (s : Log B) (d : B.Db)
        → s.db ≡ some d
        → rows d ++ s.write_buf ≡ all
        → IsRising 0 all s.counter
        → IsDurable all (flush_db B s) × ((flush_db B s).write_buf ≡ [])
    unfolding flush_db
    flush_db-IsDurable all s d present kept rising = elim (List-cases s.write_buf) [
      | inl none_left ↦
          (let same : (flush_db B s).write_buf ≡ [] = ground arith in
            (
              record {
                db = d;
                present = ground arith;
                kept = rw same (rw none_left at kept);
                rising = subst (λ n. IsRising 0 all n) (ground arith) rising;
                short = rw same (omega arith);
              },
              same,
            ))
      | inr (e, es, left) ↦
          (let joined : rows d ++ (e ∷ es) ≡ all = rw left at kept in
            let (d', written, grown) =
              appends s.counter (e ∷ es) d
                (subst (λ l. IsRising 0 l s.counter) (sym joined) rising) in
            let gone : (flush_db B s).write_buf ≡ [] = ground arith in
            (
              record {
                db = d';
                present = ground arith;
                kept = rw (gone, append-nil, grown) joined;
                rising = subst (λ n. IsRising 0 all n) (ground arith) rising;
                short = rw gone (omega arith);
              },
              gone,
            ))
    ]

    persist-IsDurable :
        (all : List Entry) (e : Entry) (s : Log B)
        → IsRising 0 (all ++ e ∷ []) s.counter
        → IsDurable all s
        → IsDurable (all ++ e ∷ []) (persist B e s)
    unfolding persist
    persist-IsDurable all e s more_rising h =
        let s' : Log B = record s { write_buf = s.write_buf ++ e ∷ [] } in
        let more : rows h.db ++ s'.write_buf ≡ all ++ e ∷ [] =
          sym (append_assoc (rows h.db) s.write_buf (e ∷ [])) ∙ ap (λ l. l ++ e ∷ []) h.kept in
        elim (Bool-cases (leb flush_size (length s'.write_buf))) [
          | inl full ↦
              (let same : persist B e s ≡ flush_db B s' = ground (arith, h.present) in
                rw same (flush_db-IsDurable (all ++ e ∷ []) s' h.db h.present more more_rising).0)
          | inr room ↦
              (let same : persist B e s ≡ record s' { flush_timer = true } =
                  ground (arith, h.present) in
                rw same (record {
                  db = h.db;
                  present = h.present;
                  kept = more;
                  rising = more_rising;
                  short = ground arith;
                }))
        ]

    record_entry-IsDurable :
        (all : List Entry) (e : Entry) (s : Log B)
        → IsRising 0 (all ++ e ∷ []) s.counter
        → IsDurable all s
        → IsDurable (all ++ e ∷ []) (record_entry B e s)
    unfolding record_entry
    record_entry-IsDurable all e s more_rising h =
        let s' = push_entry B e s in
        persist-IsDurable all e (record s' { stats = update_stats e s'.stats }) more_rising
          (record {
            db = h.db;
            present = h.present;
            kept = h.kept;
            rising = h.rising;
            short = h.short;
          })

    module _ (sha256_hex : String → String) (dumps : Entry → String)
        (request_timestamp : String → TsaResult) where
      -- An entry that is added becomes the next of the entries that the rows and the write buffer
      -- hold, in order, with none lost and with ascending ids, and the buffer stays shorter than a
      -- batch, if the database writes every batch whose ids ascend beyond those of its rows, with
      -- these ids, and operations follow one another.
      pub add-IsDurable :
          (all : List Entry) (now : String) (r : Request B) (s : Log B)
          → IsDurable all s
          → let (e, s') = add B sha256_hex dumps request_timestamp now r s in
            IsDurable (all ++ e ∷ []) s'
      unfolding add
      add-IsDurable all now r s h =
          let e = entry_of B (s.counter + 1) now r in
          let s' = record s { counter = s.counter + 1 } in
          let weak = IsRising-weaken 0 all s.counter h.rising in
          elim (Option-cases s.law5651) [
            | inl off ↦
                rw (off, add)
                  (record_entry-IsDurable all e s' (IsRising-next 0 all s.counter e refl h.rising)
                    (record {
                      db = h.db;
                      present = h.present;
                      kept = h.kept;
                      rising = weak;
                      short = h.short;
                    }))
            | inr (t, on) ↦
                (let (m, t') = stamp_entry sha256_hex dumps request_timestamp now e t in
                  rw (on, add)
                    (record_entry-IsDurable all (stamped e m) (record s' { law5651 = some t' })
                      (IsRising-next 0 all s.counter (stamped e m) refl h.rising)
                      (record {
                        db = h.db;
                        present = h.present;
                        kept = h.kept;
                        rising = weak;
                        short = h.short;
                      })))
          ]
