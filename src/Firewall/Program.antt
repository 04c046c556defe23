-- ===== src/Firewall/Program.antt =====
-- Programs that send commands by the executor of the manager, which is no code of the repository's: a
-- program waits for its reply and goes on with any. The caches of the manager are the state; a raised
-- `ValueError` ends the program.
pub mod Sends
pub mod Ends
use emarecloud.Prelude.{
  ℕ, zero, suc, ◌+◌, ◌-◌, ◌*◌, ◌/◌, ◌%◌, ◌≤◌, ◌<◌, min, max, String, ◌≡◌, refl, sym, ap, ◌∙◌, ◌≢◌,
  ◌↔◌, ◌⊎◌, inl, inr, Bool, true, false, not, ◌&&◌, ◌||◌, Option, none, some, List, [], ◌∷◌, ◌++◌,
  map, reverse, arith, eq_iff, ltb, leb, nat_beq, if◌then◌else◌, is_some, nat_beq_iff, ltb→lt,
  leb→le, Bool-cases, Option-cases, Eq, ◌==◌, nat_eq, string_eq, pair_eq, pair_beq,
}
use Prim.Native.String.{◌++◌ as join_texts}
use emarecloud.Text.{is_empty, strip}
use emarecloud.Dict.{Dict}

-- `(ok, stdout, stderr)`
pub record Reply : Type 0 where
  pub ok : Bool
  pub out : String
  pub err : String

pub data Kind : Type 0 where
  ufw firewalld emareos : Kind

-- What the cache service (`_cache`) does with the kinds of servers: the answer to the n-th `get`, which may be that of
-- any earlier `set` or none, the number of the `get` calls, and the `set` calls, whose entries may expire.
pub record Service : Type 0 where
  pub answer : (n : ℕ) (server : String) → Option Kind
  pub reads : ℕ
  pub sets : List (String × Option Kind)

-- The cache service of a manager that has one, and `_type_cache`, `_status_cache` and `_l7_cache`, by server. The statuses
-- and the L7 results stand for those under the keys fws: and fwl: of the service where there is one. A result is kept as a text.
pub record Caches : Type 0 where
  pub service : Option Service
  pub kinds : Dict String (Option Kind)
  pub statuses : Dict String String
  pub l7s : Dict String String

pub data Program (A : Type 0) : Type 0 where
  done : Caches → A → Program A
  raised : Caches → (message : String) → Program A
  call : (server command : String) → (Reply → Program A) → Program A

abbrev pub M : Type 0 → Type 0
M A = Caches → Program A

-- `(ok, msg)`
abbrev pub Outcome : Type 0
Outcome = Bool × String

abbrev pub continue : {A B : Type 0} → Program A → (A → M B) → Program B
continue (done c a) f = f a c
continue (raised c e) f = raised c e
continue (call s m k) f = call s m (λ r. continue (k r) f)

infixl 10 ◌>>=◌ ◌>>◌
unfoldable pub ◌>>=◌ : {A B : Type 0} → M A → (A → M B) → M B
◌>>=◌ m f c = continue (m c) f

abbrev pub ◌>>◌ : {A B : Type 0} → M A → M B → M B
m >> n = m >>= λ _. n

unfoldable pub pure : {A : Type 0} → A → M A
pure a c = done c a

unfoldable pub gets : {A : Type 0} → (Caches → A) → M A
gets f c = done c (f c)

unfoldable pub modify : (Caches → Caches) → M (Unit {0})
modify f c = done (f c) tt

-- `self._exec(server_id, command)`
unfoldable pub exec : (server command : String) → M Reply
exec s m c = call s m (λ r. done c r)

-- A value whose check may raise out of the operation.
unfoldable pub lift : String ⊎ String → M String
lift (inl e) c = raised c e
lift (inr v) c = done c v

-- `try: v = check except ValueError as e: return False, str(e)`
unfoldable pub with_valid : String ⊎ String → (String → M Outcome) → M Outcome
unfolding pure
with_valid (inl e) f = pure (false, e)
with_valid (inr v) f = f v

abbrev pub or_text : (s default : String) → String
or_text s default = if is_empty s then default else s

-- `(out + " " + err).strip()`
abbrev pub said : Reply → String
said r = strip (join_texts r.out (join_texts " " r.err))

-- `return ok, (out + " " + err).strip() or default`
abbrev pub outcome : (default : String) → Reply → Outcome
outcome default r = (r.ok, or_text (said r) default)
