-- ===== src/Firewall/Terse/Values.antt =====
-- What the quoting of a value writes, the reader reads back.
use Prim.Native.Char.{code}
use Prim.Native.String.{String, [], ◌∷◌, ◌++◌}
use mathlib.Core.Option.{some}
use emarecloud.Prelude.{
  ℕ, ◌+◌, ◌≡◌, ◌≢◌, refl, sym, ap, ◌∙◌, inl, inr, Bool, true, false, not, ◌&&◌, ◌||◌, arith,
  nat_beq, Bool-cases,
}
use text.Mathlib.TextLemmas.{nil-append, cons-append, append_assoc}
use emarecloud.Lists.{any}
use emarecloud.Text.{codes, is_space, is_empty, replace_code}
use emarecloud.Firewall.Validate.{Checked}
use emarecloud.Firewall.Mq.{mq, is_dangerous, wants_quotes}
use emarecloud.Firewall.Terse.{quoted_body, bare_value, value_at}

-- The number of characters.
abbrev pub len : String → ℕ
len [] = 0
len (c ∷ s) = len s + 1

-- A character that no form of a value changes: no double quote and no backslash, and no white space but a space.
abbrev pub is_plain : ℕ → Bool
is_plain c = not (nat_beq c 34) && not (nat_beq c 92) && (nat_beq c 32 || not (is_space c))

-- A text in front of which a value without quotes ends.
abbrev pub EndsValue : String → Type 0
EndsValue w = bare_value w ≡ ("", 0)

quoted_body-plain :
    (v w : String)
    → any (λ c. not (is_plain c)) (codes v) ≡ false
    → quoted_body false (v ++ ("\"" ++ w)) ≡ some (v, len v + 1)
unfolding quoted_body any is_space
quoted_body-plain [] w h = rw (nil-append, cons-append) refl
quoted_body-plain (c ∷ v) w h =
    let quote : nat_beq (code c) 34 ≡ false = ground (arith, h) in
    let slash : nat_beq (code c) 92 ≡ false = ground (arith, h) in
    let rest : any (λ c. not (is_plain c)) (codes v) ≡ false = ground (arith, h) in
    rw (cons-append, quote, slash, quoted_body-plain v w rest) refl

bare_value-plain :
    (v w : String)
    → EndsValue w
    → any (λ c. not (is_plain c)) (codes v) ≡ false
    → any wants_quotes (codes v) ≡ false
    → bare_value (v ++ w) ≡ (v, len v)
unfolding bare_value any is_space
bare_value-plain [] w e h k = rw nil-append e
bare_value-plain (c ∷ v) w e h k =
    let dark : is_space (code c) ≡ false = ground (arith, h, k) in
    let rest : any (λ c. not (is_plain c)) (codes v) ≡ false = ground (arith, h) in
    let rest2 : any wants_quotes (codes v) ≡ false = ground (arith, k) in
    rw (cons-append, dark, bare_value-plain v w e rest rest2) refl

replace_code-absent :
    (n : ℕ) (new v : String) → any (λ c. nat_beq c n) (codes v) ≡ false → replace_code n new v ≡ v
unfolding any
replace_code-absent n new [] h = refl
replace_code-absent n new (c ∷ v) h =
    let here : nat_beq (code c) n ≡ false = ground (arith, h) in
    let rest : any (λ c. nat_beq c n) (codes v) ≡ false = ground (arith, h) in
    rw (here, replace_code-absent n new v rest) refl

plain-no_escape :
    (v : String)
    → any (λ c. not (is_plain c)) (codes v) ≡ false
    → (any (λ c. nat_beq c 92) (codes v) ≡ false) × (any (λ c. nat_beq c 34) (codes v) ≡ false)
unfolding any
plain-no_escape [] h = (refl, refl)
plain-no_escape (c ∷ v) h =
    let (a, b) = plain-no_escape v (ground (arith, h)) in
    (ground (arith, h, a), ground (arith, h, b))

bare-value_at :
    (v w : String)
    → is_empty v ≡ false
    → EndsValue w
    → any (λ c. not (is_plain c)) (codes v) ≡ false
    → any wants_quotes (codes v) ≡ false
    → value_at (v ++ w) ≡ (v, len v)
unfolding value_at any is_empty
bare-value_at [] w e f h k = cc
bare-value_at (c ∷ v) w e f h k =
    let quote : nat_beq (code c) 34 ≡ false = ground (arith, h) in
    rw (cons-append, quote)
      (sym (ap bare_value (cons-append c v w)) ∙ bare_value-plain (c ∷ v) w f h k)

quoted-value_at :
    (v w : String)
    → any (λ c. not (is_plain c)) (codes v) ≡ false
    → value_at ("\"" ++ (v ++ ("\"" ++ w))) ≡ (v, len v + 1 + 1)
unfolding value_at
quoted-value_at v w h = rw (cons-append, nil-append, quoted_body-plain v w h) refl

-- The form that a value of plain characters gets.
mq-quoted :
    (v : String)
    → is_empty v ≡ false
    → any is_dangerous (codes v) ≡ false
    → any wants_quotes (codes v) ≡ true
    → any (λ c. not (is_plain c)) (codes v) ≡ false
    → mq v ≡ inr ("\"" ++ (v ++ "\""))
unfolding mq
mq-quoted v f d k h =
    let (slash, quote) = plain-no_escape v h in
    rw (f, d, k, replace_code-absent 92 "\\\\" v slash, replace_code-absent 34 "\\\"" v quote) refl

mq-bare :
    (v : String)
    → is_empty v ≡ false
    → any is_dangerous (codes v) ≡ false
    → any wants_quotes (codes v) ≡ false
    → mq v ≡ inr v
unfolding mq
mq-bare v f d k = rw (f, d, k) refl

mq-refused : (v q : String) → is_empty v ≡ false → any is_dangerous (codes v) ≡ true → mq v ≢ inr q
unfolding mq
mq-refused v q f d = rw (f, d) (λ e. cc)

abbrev text_of : Checked → String
text_of (inl e) = e
text_of (inr v) = v

-- The reading of a value in the form that it gets.
read_form :
    (v q f w : String)
    → mq v ≡ inr q
    → mq v ≡ inr f
    → (value_at (f ++ w)).0 ≡ v
    → (value_at (q ++ w)).0 ≡ v
read_form v q f w m n h =
    let same : q ≡ f = sym (ap text_of m) ∙ ap text_of n in ap (λ x. (value_at (x ++ w)).0) same ∙ h

read_empty : (v q w : String) → is_empty v ≡ true → mq v ≡ inr q → (value_at (q ++ w)).0 ≡ v
unfolding is_empty mq value_at quoted_body
read_empty [] q w f m = read_form [] q "\"\"" w m refl (rw (cons-append, cons-append) refl)
read_empty (c ∷ v) q w f m = cc

read_quoted :
    (v w : String)
    → any (λ c. not (is_plain c)) (codes v) ≡ false
    → (value_at (("\"" ++ (v ++ "\"")) ++ w)).0 ≡ v
read_quoted v w h =
    ap (λ x. (value_at x).0)
      (append_assoc "\"" (v ++ "\"") w ∙ ap (λ x. "\"" ++ x) (append_assoc v "\"" w))
    ∙ ap (λ r. r.0) (quoted-value_at v w h)

-- What `_mq` writes for a value without double quotes, backslashes and white space other than spaces is read back as the
-- value, whatever follows it in front of which a bare value ends.
pub value_at-mq :
    (v q w : String)
    → any (λ c. not (is_plain c)) (codes v) ≡ false
    → EndsValue w
    → mq v ≡ inr q
    → (value_at (q ++ w)).0 ≡ v
value_at-mq v q w h e m = elim (Bool-cases (is_empty v)) [
  | inl f ↦ read_empty v q w f m
  | inr f ↦ elim (Bool-cases (any is_dangerous (codes v))) [
    | inl d ↦ absurd (mq-refused v q f d m)
    | inr d ↦ elim (Bool-cases (any wants_quotes (codes v))) [
      | inl k ↦ read_form v q _ w m (mq-quoted v f d k h) (read_quoted v w h)
      | inr k ↦ read_form v q v w m (mq-bare v f d k) (ap (λ r. r.0) (bare-value_at v w f e h k))
    ]
  ]
]
