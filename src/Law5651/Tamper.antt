-- ===== src/Law5651/Tamper.antt =====
-- The last chain hash of a verified log fixes every entry of it, up to a collision of SHA-256 among the texts that are hashed.
use emarecloud.Prelude.{
  ℕ, ◌+◌, String, ◌≡◌, refl, sym, ◌∙◌, ◌≢◌, ◌⊎◌, inl, inr, Option, none, some, List, [], ◌∷◌, map,
  arith, eq_iff, Bool-cases, Option-cases, nat_eq, string_eq, pair_eq,
}
use Prim.Native.String.{count}
use Prim.Native.String.{◌++◌ as join_texts}
use mathlib.Core.List.{Mem, mem-cons_self, mem-cons_of_mem}
use text.Mathlib.Text.{◌==◌ as str_eq}
use text.Mathlib.TextLemmas.{append_inj, append_cancel_left}
use emarecloud.Lists.{length, ascending, sort_of_IsSorted, IsSorted}
use emarecloud.LogEntry.{Stamp, Entry}
use emarecloud.Law5651.{
  genesis, unstamped, entry_hash_of, chain_hash_of, intact, verify_one, verify_from, verify_entries,
}

-- The chain hash that the last entry of a log states.
abbrev pub tip_of : String → Option Stamp → String
tip_of prev none = prev
tip_of prev (some m) = m.chain_hash

abbrev pub tip : String → List Entry → String
tip prev [] = prev
tip prev (e ∷ es) = tip (tip_of prev e.extra.law_5651) es

-- A text of one list and another text of a second list with one SHA-256.
abbrev pub Collision : (String → String) → (xs ys : List String) → Type 0
Collision sha256_hex xs ys =
    (a : String) × (b : String) × Mem a xs × Mem b ys × (a ≢ b) × (sha256_hex a ≡ sha256_hex b)

module _ (sha256_hex : String → String) (xs ys : List String) where
  same_or_Collision :
      (a b : String)
      → Mem a xs
      → Mem b ys
      → sha256_hex a ≡ sha256_hex b
      → Collision sha256_hex xs ys ⊎ (a ≡ b)
  same_or_Collision a b ma mb h = elim (Bool-cases (str_eq a b)) [
    | inl same ↦ inr ((eq_iff a b).0 same)
    | inr differ ↦ inl (a, b, ma, mb, (λ p. cc (differ, (eq_iff a b).1 p)), h)
  ]

  -- A collision in the rest of two logs is one in the logs.
  Collision-later :
      (t u v w : String)
      → Collision sha256_hex xs ys
      → Collision sha256_hex (t ∷ u ∷ xs) (v ∷ w ∷ ys)
  Collision-later t u v w (a, b, ma, mb, differ, h) = (
    a,
    b,
    mem-cons_of_mem t (mem-cons_of_mem u ma),
    mem-cons_of_mem v (mem-cons_of_mem w mb),
    differ,
    h,
  )

module _ (sha256_hex : String → String) (dumps : Entry → String) where
  abbrev pub canonical : Entry → String
  canonical e = dumps (unstamped e)

  -- The text whose hash is the chain hash of an entry.
  abbrev pub linked : (prev : String) → Entry → String
  linked prev e = join_texts prev (join_texts ":" (entry_hash_of sha256_hex dumps e))

  -- The texts that the verification of a log hashes, from the chain hash `prev` on.
  abbrev pub hashed : (prev : String) → List Entry → List String
  hashed prev [] = []
  hashed prev (e ∷ es) =
      canonical e
      ∷ linked prev e
      ∷ hashed (chain_hash_of sha256_hex dumps prev (entry_hash_of sha256_hex dumps e)) es

  -- The hash at the end of the chain that starts at `prev`.
  final : String → List Entry → String
  final prev [] = prev
  final prev (e ∷ es) =
      final (chain_hash_of sha256_hex dumps prev (entry_hash_of sha256_hex dumps e)) es

  step_tip :
      (prev : String) (n : ℕ) (e : Entry) (es : List Entry) (k : ℕ)
      → verify_from sha256_hex dumps prev n (e ∷ es) ≡ intact k
      → let next = chain_hash_of sha256_hex dumps prev (entry_hash_of sha256_hex dumps e) in
        (tip_of prev e.extra.law_5651 ≡ next)
        × (verify_from sha256_hex dumps next (n + 1) es ≡ intact k)
  unfolding verify_from verify_one
  step_tip prev n e es k h = elim (Option-cases e.extra.law_5651) [
    | inl missing ↦ ground arith
    | inr (m, has) ↦ ground (
      arith,
      eq_iff m.chain_hash (chain_hash_of sha256_hex dumps prev (entry_hash_of sha256_hex dumps e)),
    )
  ]

  tip-eq-final :
      (prev : String) (n : ℕ) (es : List Entry) (k : ℕ)
      → verify_from sha256_hex dumps prev n es ≡ intact k
      → tip prev es ≡ final prev es
  unfolding final
  tip-eq-final prev n [] k h = refl
  tip-eq-final prev n (e ∷ es) k h =
      let next = chain_hash_of sha256_hex dumps prev (entry_hash_of sha256_hex dumps e) in
      let (here, rest) = step_tip prev n e es k h in rw here (tip-eq-final next (n + 1) es k rest)

  module _ (digest_length : (a : String) → count (sha256_hex a) ≡ 64) where
    -- One link: equal chain hashes come from equal predecessors and equal entries.
    link :
        (p q : String) (e f : Entry) (es fs : List Entry)
        → count p ≡ count q
        → chain_hash_of sha256_hex dumps p (entry_hash_of sha256_hex dumps e)
          ≡ chain_hash_of sha256_hex dumps q (entry_hash_of sha256_hex dumps f)
        → Collision sha256_hex (hashed p (e ∷ es)) (hashed q (f ∷ fs))
          ⊎ ((p ≡ q) × (canonical e ≡ canonical f))
    unfolding chain_hash_of entry_hash_of
    link p q e f es fs same h =
        elim (same_or_Collision sha256_hex (hashed p (e ∷ es)) (hashed q (f ∷ fs)) (linked p e)
          (linked q f) (mem-cons_of_mem _ mem-cons_self) (mem-cons_of_mem _ mem-cons_self) h) [
            | inl c ↦ inl c
            | inr joined ↦
                (let (pq, ends) = append_inj joined same in
                  elim (same_or_Collision sha256_hex (hashed p (e ∷ es)) (hashed q (f ∷ fs))
                    (canonical e) (canonical f) mem-cons_self mem-cons_self
                    (append_cancel_left ":" _ _ ends)) [
                      | inl c ↦ inl c
                      | inr dumped ↦ inr (pq, dumped)
                    ])
          ]

    chain_length : (p h : String) → count (chain_hash_of sha256_hex dumps p h) ≡ 64
    unfolding chain_hash_of
    chain_length p h = digest_length _

    final-injective :
        (p q : String) (es fs : List Entry)
        → count p ≡ count q
        → length es ≡ length fs
        → final p es ≡ final q fs
        → Collision sha256_hex (hashed p es) (hashed q fs)
          ⊎ ((p ≡ q) × (map canonical es ≡ map canonical fs))
    unfolding final
    final-injective p q [] [] same n h = inr (h, refl)
    final-injective p q [] (f ∷ fs) same n h = absurd (omega arith)
    final-injective p q (e ∷ es) [] same n h = absurd (omega arith)
    final-injective p q (e ∷ es) (f ∷ fs) same n h =
        let p' = chain_hash_of sha256_hex dumps p (entry_hash_of sha256_hex dumps e) in
        let q' = chain_hash_of sha256_hex dumps q (entry_hash_of sha256_hex dumps f) in
        let lengths : count p' ≡ count q' = chain_length p _ ∙ sym (chain_length q _) in
        elim (final-injective p' q' es fs lengths (omega arith) h) [
          | inl c ↦ inl (Collision-later sha256_hex (hashed p' es) (hashed q' fs) _ _ _ _ c)
          | inr (heads, tails) ↦ elim (link p q e f es fs same heads) [
            | inl c ↦ inl c
            | inr (pq, ef) ↦ inr (pq, cc)
          ]
        ]

    -- Two logs of one length in the order of their ids that both verify and state the same last
    -- chain hash have the same canonical texts, or two different texts, one hashed in the
    -- verification of each log, have the same SHA-256; digests have 64 characters.
    pub verify_entries_binds :
        (es fs : List Entry) (k j : ℕ)
        → IsSorted (ascending (λ e. e.id)) es
        → IsSorted (ascending (λ e. e.id)) fs
        → length es ≡ length fs
        → verify_entries sha256_hex dumps es ≡ intact k
        → verify_entries sha256_hex dumps fs ≡ intact j
        → tip genesis es ≡ tip genesis fs
        → Collision sha256_hex (hashed genesis es) (hashed genesis fs)
          ⊎ (map canonical es ≡ map canonical fs)
    unfolding verify_entries
    verify_entries_binds es fs k j oe of n ve vf tips =
        let order = ascending (λ (e : Entry). e.id) in
        let he = tip-eq-final genesis 0 es k (rw (sort_of_IsSorted order es oe) at ve) in
        let hf = tip-eq-final genesis 0 fs j (rw (sort_of_IsSorted order fs of) at vf) in
        elim (final-injective genesis genesis es fs refl n (sym he ∙ tips ∙ hf)) [
          | inl c ↦ inl c
          | inr (start, same) ↦ inr same
        ]
