-- ===== src/Law5651/Chain.antt =====
-- What is stamped in order verifies, from the first entry of the chain on.
use emarecloud.Prelude.{
  ℕ, ◌+◌, String, ◌≡◌, refl, ap, ◌∙◌, ◌≢◌, none, some, List, [], ◌∷◌, arith, eq_iff, nat_eq,
  string_eq, pair_eq,
}
use mathlib.Core.Path.{subst}
use text.Mathlib.TextPositions.{eq_refl}
use emarecloud.Lists.{length, ascending, sort_of_IsSorted, IsSorted, drop}
use emarecloud.LogEntry.{TsaResult, Stamp, Entry}
use emarecloud.Law5651.{
  Stamper, genesis, unstamped, stamped, stamp_entry, entry_hash_of, chain_hash_of, intact, broken,
  prev_hash_broken, verify_one, verify_from, verify_entries,
}

module _ (sha256_hex : String → String) (dumps : Entry → String)
    (request_timestamp : String → TsaResult) where
  -- `LogStore.add` for each entry: the stamp is made, and written into the entry.
  unfoldable pub stamp_all : List (String × Entry) → Stamper → List Entry × Stamper
  stamp_all [] t = ([], t)
  stamp_all ((now, e) ∷ es) t =
      let (m, t') = stamp_entry sha256_hex dumps request_timestamp now e t in
      let (rest, t'') = stamp_all es t' in (stamped e m ∷ rest, t'')

  module _ (now : String) (e : Entry) (t : Stamper) where
    abbrev pub made : Stamp × Stamper
    made = stamp_entry sha256_hex dumps request_timestamp now e t

    verify_one-stamped :
        (n : ℕ)
        → verify_one sha256_hex dumps t.last_chain_hash n (stamped e made.0) (some made.0) ≡ none
    unfolding verify_one stamp_entry
    verify_one-stamped n = let h = sha256_hex (dumps (unstamped e)) in simp eq_refl

    last_chain_hash-stamp_entry :
        made.1.last_chain_hash
        ≡ chain_hash_of sha256_hex dumps t.last_chain_hash (entry_hash_of sha256_hex dumps e)
    unfolding stamp_entry
    last_chain_hash-stamp_entry = refl

  -- An entry that passes hands its chain hash on to the next.
  verify_from_passed :
      (prev : String) (n : ℕ) (e : Entry) (es : List Entry)
      → verify_one sha256_hex dumps prev n e e.extra.law_5651 ≡ none
      → verify_from sha256_hex dumps prev n (e ∷ es)
        ≡ verify_from sha256_hex dumps
            (chain_hash_of sha256_hex dumps prev (entry_hash_of sha256_hex dumps e))
            (n + 1)
            es
  unfolding verify_from
  verify_from_passed prev n e es h = ground arith

  stamp_all-verify_from :
      (es : List (String × Entry)) (t : Stamper) (n : ℕ)
      → verify_from sha256_hex dumps t.last_chain_hash n (stamp_all es t).0 ≡ intact (n + length es)
  unfolding stamp_all verify_from entry_hash_of
  stamp_all-verify_from [] t n = ap intact (omega arith)
  stamp_all-verify_from ((now, e) ∷ es) t n =
      let (m, t') = made now e t in
      let rest = (stamp_all es t').0 in
      let ih = stamp_all-verify_from es t' (n + 1) in
      verify_from_passed t.last_chain_hash n (stamped e m) rest (verify_one-stamped now e t n)
      ∙ (rw last_chain_hash-stamp_entry at ih)
      ∙ ap intact (omega arith)

  id-stamp_all :
      (es : List (String × Entry)) (t : Stamper)
      → IsSorted (ascending (λ x. x.1.id)) es
      → IsSorted (ascending (λ e. e.id)) (stamp_all es t).0
  unfolding stamp_all
  id-stamp_all [] t h = tt
  id-stamp_all ((now, e) ∷ []) t h = tt
  id-stamp_all ((now, e) ∷ (now', e') ∷ es) t h =
      let (m, t') = made now e t in (h.0, id-stamp_all ((now', e') ∷ es) t' h.1)

  -- A log stamped from the start of the chain in the order of its ids verifies whole.
  pub stamp_all-verify_entries :
      (es : List (String × Entry)) (t : Stamper)
      → t.last_chain_hash ≡ genesis
      → IsSorted (ascending (λ x. x.1.id)) es
      → verify_entries sha256_hex dumps (stamp_all es t).0 ≡ intact (length es)
  unfolding verify_entries
  stamp_all-verify_entries es t start ordered =
      rw (sort_of_IsSorted (ascending (λ e. e.id)) (stamp_all es t).0 (id-stamp_all es t ordered)) (
        subst (λ h. verify_from sha256_hex dumps h 0 (stamp_all es t).0 ≡ intact (length es)) start
          (stamp_all-verify_from es t 0 ∙ ap intact (omega arith)))

  -- A log whose first entry does not name the start of the chain is reported broken at that entry.
  verify_entries_cut :
      (e : Entry) (es : List Entry) (m : Stamp)
      → IsSorted (ascending (λ e. e.id)) (e ∷ es)
      → e.extra.law_5651 ≡ some m
      → m.entry_hash ≡ entry_hash_of sha256_hex dumps e
      → m.prev_chain_hash ≢ genesis
      → verify_entries sha256_hex dumps (e ∷ es) ≡ broken 0 e.id prev_hash_broken
  unfolding verify_entries verify_from verify_one
  verify_entries_cut e es m ordered has sound cut =
      rw (sort_of_IsSorted (ascending (λ e. e.id)) (e ∷ es) ordered) (
        ground (
          arith,
          eq_iff m.entry_hash (entry_hash_of sha256_hex dumps e),
          eq_iff m.prev_chain_hash genesis,
        ))

  -- A stamped log that has dropped its oldest entry is reported broken at the entry that is now
  -- first, with nothing verified, if the others are in the order of their ids and the dropped
  -- chain hash is not the start of the chain.
  pub stamp_all_dropped :
      (x y : String × Entry) (es : List (String × Entry)) (t : Stamper)
      → IsSorted (ascending (λ z. z.1.id)) (y ∷ es)
      → (made x.0 x.1 t).1.last_chain_hash ≢ genesis
      → verify_entries sha256_hex dumps (drop 1 (stamp_all (x ∷ y ∷ es) t).0)
        ≡ broken 0 y.1.id prev_hash_broken
  unfolding stamp_all drop entry_hash_of
  stamp_all_dropped x y es t ordered moved =
      let t' = (made x.0 x.1 t).1 in
      let m = (made y.0 y.1 t').0 in
      verify_entries_cut (stamped y.1 m) (stamp_all es (made y.0 y.1 t').1).0 m
        (id-stamp_all (y ∷ es) t' ordered) refl (unfold stamp_entry in refl)
        (unfold stamp_entry in moved)
