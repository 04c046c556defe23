-- ===== src/Firewall/Program/Sends.antt =====
-- What a program may send, one rule for each way to build a program.
use emarecloud.Prelude.{
  String, ◌≡◌, refl, ◌⊎◌, inl, inr, Bool, true, false, if◌then◌else◌, nat_eq, string_eq, pair_eq,
}
use emarecloud.Firewall.Program.{
  Reply, Caches, Program, done, raised, call, M, Outcome, continue, ◌>>=◌, pure, gets, modify, exec,
  lift, with_valid,
}

-- Every command that the program sends satisfies `P`, whatever the replies.
abbrev pub AllCalls : {A : Type 0} → (String → String → Type 0) → Program A → Type 0
AllCalls P (done c a) = Unit
AllCalls P (raised c e) = Unit
AllCalls P (call s m k) = P s m × ((r : Reply) → AllCalls P (k r))

pub record Sends {A : Type 0} (P : String → String → Type 0) (m : M A) : Type 0 where
  pub at : (c : Caches) → AllCalls P (m c)

module _ {P : String → String → Type 0} where
  pub Sends-pure : {A : Type 0} (a : A) → Sends P (pure a)
  unfolding pure
  Sends-pure a = record { at = λ c. tt }

  pub Sends-gets : {A : Type 0} (f : Caches → A) → Sends P (gets f)
  unfolding gets
  Sends-gets f = record { at = λ c. tt }

  pub Sends-modify : (f : Caches → Caches) → Sends P (modify f)
  unfolding modify
  Sends-modify f = record { at = λ c. tt }

  pub Sends-exec : (s m : String) → P s m → Sends P (exec s m)
  unfolding exec
  Sends-exec s m p = record { at = λ c. (p, λ r. tt) }

  pub Sends-lift : (v : String ⊎ String) → Sends P (lift v)
  unfolding lift
  Sends-lift (inl e) = record { at = λ c. tt }
  Sends-lift (inr v) = record { at = λ c. tt }

  pub Sends-with_valid :
      (v : String ⊎ String) (f : String → M Outcome)
      → ((a : String) → v ≡ inr a → Sends P (f a))
      → Sends P (with_valid v f)
  unfolding with_valid
  Sends-with_valid (inl e) f h = Sends-pure (false, e)
  Sends-with_valid (inr a) f h = h a refl

  AllCalls-continue :
      {A B : Type 0} (p : Program A) (f : A → M B)
      → AllCalls P p
      → ((a : A) → Sends P (f a))
      → AllCalls P (continue p f)
  AllCalls-continue (done c a) f h k = (k a).at c
  AllCalls-continue (raised c e) f h k = tt
  AllCalls-continue (call s m g) f (p, h) k = (p, λ r. AllCalls-continue (g r) f (h r) k)

  pub Sends-bind :
      {A B : Type 0} (m : M A) (f : A → M B)
      → Sends P m
      → ((a : A) → Sends P (f a))
      → Sends P (m >>= f)
  unfolding ◌>>=◌
  Sends-bind m f h k = record { at = λ c. AllCalls-continue (m c) f (h.at c) k }

  pub Sends-if :
      {A : Type 0} (b : Bool) (m n : M A) → Sends P m → Sends P n → Sends P (if b then m else n)
  Sends-if true m n h k = h
  Sends-if false m n h k = k

  AllCalls-weaken :
      {A : Type 0} {Q : String → String → Type 0} (p : Program A)
      → ((s m : String) → P s m → Q s m)
      → AllCalls P p
      → AllCalls Q p
  AllCalls-weaken (done c a) w h = tt
  AllCalls-weaken (raised c e) w h = tt
  AllCalls-weaken (call s m g) w (p, h) = (w s m p, λ r. AllCalls-weaken (g r) w (h r))

  pub Sends-weaken :
      {A : Type 0} {Q : String → String → Type 0} (m : M A)
      → ((s n : String) → P s n → Q s n)
      → Sends P m
      → Sends Q m
  Sends-weaken m w h = record { at = λ c. AllCalls-weaken (m c) w (h.at c) }

module _ {P : String → String → Type 0} where
  -- The rest may use the value that did not raise.
  pub Sends-bind-lift :
      {B : Type 0} (v : String ⊎ String) (f : String → M B)
      → ((a : String) → v ≡ inr a → Sends P (f a))
      → Sends P (lift v >>= f)
  unfolding ◌>>=◌ lift
  Sends-bind-lift (inl e) f k = record { at = λ c. tt }
  Sends-bind-lift (inr a) f k = record { at = λ c. (k a refl).at c }

pub ruleset sends_rules = (
  Sends-pure, Sends-gets, Sends-modify, Sends-exec, Sends-lift, Sends-with_valid, Sends-bind,
  Sends-if,
)
