-- ===== src/Firewall/Mq/Laws.antt =====
-- A value of safe characters needs no quotes.
use Prim.Native.Char.{code}
use Prim.Native.String.{String, [], ◌∷◌}
use emarecloud.Prelude.{◌≡◌, refl, inr, true, false, arith, ℕ}
use emarecloud.Text.{is_empty, codes}
use emarecloud.Lists.{any}
use emarecloud.Firewall.Quote.{is_safe, all_safe}
use emarecloud.Firewall.Mq.{is_dangerous, wants_quotes, mq}

is_safe_plain : (c : ℕ) → is_safe c ≡ true → (is_dangerous c ≡ false) × (wants_quotes c ≡ false)
unfolding is_safe
is_safe_plain c h = (ground (arith, h), ground (arith, h))

all_safe_plain :
    (s : String)
    → all_safe s ≡ true
    → (any is_dangerous (codes s) ≡ false) × (any wants_quotes (codes s) ≡ false)
unfolding all_safe any
all_safe_plain [] h = (refl, refl)
all_safe_plain (c ∷ s) h =
    let (d, w) = is_safe_plain (code c) (ground (arith, h)) in
    let (ds, ws) = all_safe_plain s (ground (arith, h)) in (rw (d, ds) refl, rw (w, ws) refl)

pub mq-all_safe : (s : String) → is_empty s ≡ false → all_safe s ≡ true → mq s ≡ inr s
unfolding mq
mq-all_safe s e h = let (d, w) = all_safe_plain s h in rw (e, d, w) refl
