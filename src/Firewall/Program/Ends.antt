-- ===== src/Firewall/Program/Ends.antt =====
-- Caches that a program leaves, however it ends, one rule for each way to build a program.
use emarecloud.Prelude.{
  String, ◌⊎◌, inl, inr, Bool, true, false, if◌then◌else◌, nat_eq, string_eq, pair_eq,
}
use emarecloud.Firewall.Program.{
  Reply, Caches, Program, done, raised, call, M, Outcome, continue, ◌>>=◌, pure, gets, modify, exec,
  lift, with_valid,
}

-- The caches satisfy `Q` where the program ends, whatever the replies.
abbrev pub AllEnds : {A : Type 0} → (Caches → Type 0) → Program A → Type 0
AllEnds Q (done c a) = Q c
AllEnds Q (raised c e) = Q c
AllEnds Q (call s m k) = (r : Reply) → AllEnds Q (k r)

-- From caches with `Q` the program ends in caches with `Q`.
pub record Keeps {A : Type 0} (Q : Caches → Type 0) (m : M A) : Type 0 where
  pub at : (c : Caches) → Q c → AllEnds Q (m c)

module _ {Q : Caches → Type 0} where
  pub Keeps-pure : {A : Type 0} (a : A) → Keeps Q (pure a)
  unfolding pure
  Keeps-pure a = record { at = λ c h. h }

  pub Keeps-gets : {A : Type 0} (f : Caches → A) → Keeps Q (gets f)
  unfolding gets
  Keeps-gets f = record { at = λ c h. h }

  pub Keeps-modify : (f : Caches → Caches) → ((c : Caches) → Q c → Q (f c)) → Keeps Q (modify f)
  unfolding modify
  Keeps-modify f k = record { at = k }

  pub Keeps-exec : (s m : String) → Keeps Q (exec s m)
  unfolding exec
  Keeps-exec s m = record { at = λ c h r. h }

  pub Keeps-lift : (v : String ⊎ String) → Keeps Q (lift v)
  unfolding lift
  Keeps-lift (inl e) = record { at = λ c h. h }
  Keeps-lift (inr v) = record { at = λ c h. h }

  pub Keeps-with_valid :
      (v : String ⊎ String) (f : String → M Outcome)
      → ((a : String) → Keeps Q (f a))
      → Keeps Q (with_valid v f)
  unfolding with_valid
  Keeps-with_valid (inl e) f h = Keeps-pure (false, e)
  Keeps-with_valid (inr a) f h = h a

  AllEnds-continue :
      {A B : Type 0} (p : Program A) (f : A → M B)
      → AllEnds Q p
      → ((a : A) → Keeps Q (f a))
      → AllEnds Q (continue p f)
  AllEnds-continue (done c a) f h k = (k a).at c h
  AllEnds-continue (raised c e) f h k = h
  AllEnds-continue (call s m g) f h k = λ r. AllEnds-continue (g r) f (h r) k

  pub Keeps-bind :
      {A B : Type 0} (m : M A) (f : A → M B)
      → Keeps Q m
      → ((a : A) → Keeps Q (f a))
      → Keeps Q (m >>= f)
  unfolding ◌>>=◌
  Keeps-bind m f h k = record { at = λ c q. AllEnds-continue (m c) f (h.at c q) k }

  pub Keeps-if :
      {A : Type 0} (b : Bool) (m n : M A) → Keeps Q m → Keeps Q n → Keeps Q (if b then m else n)
  Keeps-if true m n h k = h
  Keeps-if false m n h k = k

pub ruleset keeps_rules = (
  Keeps-pure, Keeps-gets, Keeps-modify, Keeps-exec, Keeps-lift, Keeps-with_valid, Keeps-bind,
  Keeps-if,
)
