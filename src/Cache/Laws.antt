-- ===== src/Cache/Laws.antt =====
-- What is read back from the cache in memory, and what it counts.
use emarecloud.Cache.Memory.{first_count}
use emarecloud.Cache.Memory.{next_count}
use emarecloud.Prelude.{
  ℕ, ◌+◌, ◌*◌, ◌≤◌, String, ◌≡◌, refl, sym, ap, ◌∙◌, inl, inr, true, false, Option, none, some,
  List, [], ◌∷◌, arith, ltb, leb, if◌then◌else◌, Bool-cases, ◌==◌, nat_eq, string_eq, pair_eq,
}
use mathlib.Core.Path.{subst}
use emarecloud.Dict
use emarecloud.Dict.{Dict}
use emarecloud.Lists.{All}
use emarecloud.Dict.Laws.{get-set, beq_refl}
use emarecloud.Integers.{ℤ, pos}
use emarecloud.Cache.Memory.{
  second, Value, number, string, other, DictCache, ttl_or, answer, count_up,
}
use emarecloud.Cache.Memory as Memory

-- The value that an entry still has.
abbrev alive : (now : ℕ) → Option (ℕ × Value) → Option Value
alive now none = none
alive now (some (expire, value)) = if leb now expire then some value else none

answer-alive :
    (key : String) (now : ℕ) (entry : Option (ℕ × Value)) (c : DictCache)
    → (answer key now entry c).0 ≡ alive now entry
answer-alive key now none c = refl
answer-alive key now (some (expire, value)) c = ground arith

-- A key answers the value that was set last up to its time of expiry, and nothing after it; no other
-- key answers differently.
pub get-set_memory :
    (j k : String) (v : Value) (ttl : Option ℕ) (now later : ℕ) (c : DictCache)
    → (Memory.get j later (Memory.set k v ttl now c)).0 ≡ (
        if k == j
        then if leb later (now + ttl_or c.default_ttl ttl * second) then some v else none
        else (Memory.get j later c).0)
unfolding Memory.get Memory.set
get-set_memory j k v ttl now later c =
    let expire = now + ttl_or c.default_ttl ttl * second in
    let old = Dict.get j c.entries in
    let new = Dict.get j (Dict.set k (expire, v) c.entries) in
    let a = answer-alive j later new (Memory.set k v ttl now c) in
    let b : alive later new ≡ alive later (if k == j then some (expire, v) else old) =
      ap (alive later) (get-set k j (expire, v) c.entries) in
    elim (Bool-cases (k == j)) [
      | inl q ↦ rw q (a ∙ rw q at b)
      | inr q ↦ rw q (a ∙ (rw q at b) ∙ sym (answer-alive j later old c))
    ]

-- The counts of a key at a list of times, from the earliest.
unfoldable pub count_all :
    (key : String) → Option ℕ → List ℕ → DictCache → List (Option ℤ) × DictCache
count_all key ttl [] c = ([], c)
count_all key ttl (t ∷ ts) c =
    let (n, c') = Memory.incr key ttl t c in
    let (ns, c'') = count_all key ttl ts c' in (n ∷ ns, c'')

-- The numbers above `n`, one for each time.
abbrev pub ranks : ℕ → List ℕ → List (Option ℤ)
ranks n [] = []
ranks n (t ∷ ts) = some (pos (n + 1)) ∷ ranks (n + 1) ts

get-set_same :
    (k : String) (e : ℕ × Value) (d : Dict String (ℕ × Value))
    → Dict.get k (Dict.set k e d) ≡ some e
get-set_same k e d = get-set k k e d ∙ rw (beq_refl k) refl

incr-next :
    (key : String) (ttl : Option ℕ) (expire n t : ℕ) (c : DictCache)
    → Dict.get key c.entries ≡ some (expire, number (pos n))
    → t ≤ expire
    → Memory.incr key ttl t c ≡ next_count key expire (number (pos n)) c
unfolding Memory.incr
incr-next key ttl expire n t c e h =
    let late : ltb expire t ≡ false = ground (arith, h) in
    ap (λ o. count_up key ttl t o c) e ∙ rw late refl

next-ranks :
    (key : String) (ttl : Option ℕ) (expire n : ℕ) (ts : List ℕ) (c : DictCache)
    → Dict.get key c.entries ≡ some (expire, number (pos n))
    → All (λ t. t ≤ expire) ts
    → (count_all key ttl ts c).0 ≡ ranks n ts
unfolding count_all
next-ranks key ttl expire n [] c e h = refl
next-ranks key ttl expire n (t ∷ ts) c e (h, hs) =
    let c' = (next_count key expire (number (pos n)) c).1 in
    let entry = get-set_same key (expire, number (pos (n + 1))) c.entries in
    subst (λ r. r.0 ∷ (count_all key ttl ts r.1).0 ≡ ranks n (t ∷ ts))
      (sym (incr-next key ttl expire n t c e h))
      (ap (λ l. some (pos (n + 1)) ∷ l) (next-ranks key ttl expire (n + 1) ts c' entry hs))

count_up-first :
    (key : String) (ttl : Option ℕ) (now : ℕ) (entry : Option (ℕ × Value)) (c : DictCache)
    → alive now entry ≡ none
    → count_up key ttl now entry c ≡ first_count key ttl now c
count_up-first key ttl now none c h = refl
count_up-first key ttl now (some (expire, value)) c h =
    let late : ltb expire now ≡ true = ground (arith, h) in rw late refl

-- A key with no value counts 1 first, and then one more for each count up to its time of expiry.
pub incr-ranks :
    (key : String) (ttl : Option ℕ) (now : ℕ) (ts : List ℕ) (c : DictCache)
    → (Memory.get key now c).0 ≡ none
    → All (λ t. t ≤ now + ttl_or c.default_ttl ttl * second) ts
    → (count_all key ttl (now ∷ ts) c).0 ≡ ranks 0 (now ∷ ts)
unfolding count_all Memory.get Memory.incr
incr-ranks key ttl now ts c h hs =
    let entry = Dict.get key c.entries in
    let expire = now + ttl_or c.default_ttl ttl * second in
    let dead = sym (answer-alive key now entry c) ∙ h in
    let c' = (first_count key ttl now c).1 in
    let started = get-set_same key (expire, number (pos 1)) c.entries in
    subst (λ r. r.0 ∷ (count_all key ttl ts r.1).0 ≡ ranks 0 (now ∷ ts))
      (sym (count_up-first key ttl now entry c dead))
      (ap (λ l. some (pos 1) ∷ l) (next-ranks key ttl expire 1 ts c' started hs))
