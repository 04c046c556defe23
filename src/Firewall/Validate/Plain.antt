-- ===== src/Firewall/Validate/Plain.antt =====
-- How a text of the characters of addresses is quoted.
use Prim.Native.Char.{code}
use Prim.Native.String.{String, [], ◌∷◌, ◌++◌}
use emarecloud.Prelude.{
  ℕ, ◌≡◌, refl, sym, ap, ◌∙◌, ◌⊎◌, inl, inr, true, false, arith, nat_beq, nat_beq_iff, Bool-cases,
}
use emarecloud.Text.{is_empty, codes, replace_code}
use emarecloud.Lists.{any}
use emarecloud.Firewall.Quote.{all_safe, sq}
use emarecloud.Firewall.Mq.{is_dangerous, wants_quotes, mq}
use emarecloud.Firewall.Forms.Bounds.{is_address_code, all_address}

other_code : (c n : ℕ) → is_address_code c ≡ true → is_address_code n ≡ false → nat_beq c n ≡ false
other_code c n h k = elim (Bool-cases (nat_beq c n)) [
  | inl e ↦
      let same : c ≡ n = (nat_beq_iff c n).0 e in
      absurd (ground (arith, sym h ∙ ap is_address_code same ∙ k))
  | inr e ↦ e
]

replace_code-all_address : (new s : String) → all_address s ≡ true → replace_code 39 new s ≡ s
unfolding all_address is_address_code emarecloud.Text.Digits.is_digit
replace_code-all_address new [] h = refl
replace_code-all_address new (c ∷ s) h =
    let here : is_address_code (code c) ≡ true = ground (arith, h) in
    let differs : nat_beq (code c) 39 ≡ false = other_code (code c) 39 here refl in
    rw differs (ap (λ t. c ∷ t) (replace_code-all_address new s (ground (arith, h))))

-- A shell is given the text as it is, or between two quotes.
pub sq-all_address :
    (s : String)
    → is_empty s ≡ false
    → all_address s ≡ true
    → (sq s ≡ s) ⊎ (sq s ≡ "'" ++ (s ++ "'"))
unfolding sq
sq-all_address s e h = elim (Bool-cases (all_safe s)) [
  | inl k ↦ inl (rw (e, k) refl)
  | inr k ↦ inr (rw (e, k) (ap (λ t. "'" ++ (t ++ "'")) (replace_code-all_address "'\"'\"'" s h)))
]

any-all_address :
    (s : String)
    → all_address s ≡ true
    → (any is_dangerous (codes s) ≡ false) × (any wants_quotes (codes s) ≡ false)
unfolding all_address is_address_code any emarecloud.Text.Digits.is_digit
any-all_address [] h = (refl, refl)
any-all_address (c ∷ s) h =
    let n = code c in
    let here : is_address_code n ≡ true = ground (arith, h) in
    let (ds, ws) = any-all_address s (ground (arith, h)) in
    (
      ground (
        arith,
        ds,
        other_code n 59 here refl,
        other_code n 10 here refl,
        other_code n 13 here refl,
        other_code n 0 here refl,
      ),
      ground (arith, ws, other_code n 32 here refl, other_code n 34 here refl),
    )

-- Emare OS is given the text as it is.
pub mq-all_address : (s : String) → is_empty s ≡ false → all_address s ≡ true → mq s ≡ inr s
unfolding mq
mq-all_address s e h = let (d, w) = any-all_address s h in rw (e, d, w) refl
