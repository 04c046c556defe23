-- ===== src/Tenancy/Request.antt =====
-- The tenant of a request (`resolve_tenant` and `_resolve_api_token_tenant`, core/tenant.py). The hash of
-- a token is an argument.
use emarecloud.Prelude.{
  zero, suc, String, Bool, true, false, ◌&&◌, Option, none, some, List, [], ◌∷◌, if◌then◌else◌,
  ◌==◌, nat_eq, string_eq, pair_eq,
}
use text.Mathlib.Text.{starts_with}
use emarecloud.Text.{suffix, is_empty}
use emarecloud.Lists.{any}
use emarecloud.Integers.{ℤ, pos, negsuc, parse_int}

-- What the code reads of `request`.
pub record Request : Type 0 where
  pub path : String
  pub authorization : String
  pub x_org_id : Option String
  pub org_id_arg : Option String

-- A user who is logged in.
pub record User : Type 0 where
  pub role : String
  pub org_id : Option ℤ

pub record ApiToken : Type 0 where
  pub token_hash : String
  pub is_active : Bool
  pub org_id : Option ℤ

-- `g.tenant_id` and `g.is_global`
pub record Context : Type 0 where
  pub tenant_id : Option ℤ
  pub is_global : Bool

-- The truth value of an id that may be missing: a number other than 0.
abbrev pub is_truthy : Option ℤ → Bool
is_truthy none = false
is_truthy (some (pos zero)) = false
is_truthy (some (pos (suc n))) = true
is_truthy (some (negsuc n)) = true

-- An id, or nothing where it is not true.
abbrev pub truthy : Option ℤ → Option ℤ
truthy i = if is_truthy i then i else none

-- `a or b` of two texts that may be missing, where `""` is not true either.
abbrev pub or_text : Option String → Option String → Option String
or_text none b = b
or_text (some a) b = if is_empty a then b else some a

-- `ApiToken.find_by_raw_token`, by the hash of the token.
unfoldable pub find_by_hash : String → List ApiToken → Option ApiToken
find_by_hash h [] = none
find_by_hash h (t ∷ ts) = if t.token_hash == h && t.is_active then some t else find_by_hash h ts

abbrev pub org_of : Option ApiToken → Option ℤ
org_of none = none
org_of (some t) = t.org_id

-- `_resolve_api_token_tenant`
unfoldable pub resolve_api_token_tenant : (String → String) → List ApiToken → Request → Option ℤ
resolve_api_token_tenant sha256_hex tokens r =
    if starts_with r.authorization "Bearer "
    then truthy (org_of (find_by_hash (sha256_hex (suffix 7 r.authorization)) tokens))
    else none

-- The organization that a super admin names, or else the own one.
abbrev pub chosen : Option String → User → Option ℤ
chosen none u = truthy u.org_id
chosen (some s) u = if is_empty s then truthy u.org_id else parse_int s

-- Static files and the pages of the login need no tenant.
unfoldable pub is_exempt : Request → Bool
is_exempt r = any (λ p. starts_with r.path p) ("/static/" ∷ "/login" ∷ "/landing" ∷ "/favicon" ∷ [])

-- The tenant of a path that needs one, by the user who is logged in.
unfoldable pub resolve_user : (String → String) → List ApiToken → Option User → Request → Context
resolve_user sha256_hex tokens none r = record {
  tenant_id = resolve_api_token_tenant sha256_hex tokens r;
  is_global = false;
}
resolve_user sha256_hex tokens (some u) r =
    if u.role == "super_admin"
    then record { tenant_id = chosen (or_text r.x_org_id r.org_id_arg) u; is_global = true }
    else record { tenant_id = truthy u.org_id; is_global = false }

-- `resolve_tenant`
unfoldable pub resolve_tenant : (String → String) → List ApiToken → Option User → Request → Context
unfolding resolve_user is_exempt
resolve_tenant sha256_hex tokens user r =
    if is_exempt r
    then record { tenant_id = none; is_global = false }
    else resolve_user sha256_hex tokens user r
