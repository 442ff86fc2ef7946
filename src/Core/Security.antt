-- ===== src/Core/Security.antt =====
-- core/security.py and the dependencies of dependencies.py on the caller: bearer tokens, the key set
-- that they are verified with, and the roles that a handler asks for. The clock counts nanoseconds.
pub mod Tokens
pub mod Offline
use Prim.Native.String.{◌++◌}
use agentcompany.Prelude.{
  String, Option, Bool, ℕ, none, some, ◌==◌, ◌&&◌, ◌||◌, not, or_else, is_empty, if◌then◌else◌, ltb,
  ◌-◌, true, false,
}
use agentcompany.Exec.{
  Exec, Result, Error, ok, raise, auth_error, http_exception, foreign, type_error, ◌>>=◌, ◌>>◌,
  pure, raise_if, lift,
}
use agentcompany.Json.{
  occurs_in, Json, Fields, Items, obj, arr, str, null, bool, num, nil, cons, end, field, get,
  truthy, equals,
}

pub record TokenClaims : Type 0 where
  pub sub : Json
  pub org_id : Json
  pub is_agent : Bool
  pub agent_id : Option Json
  pub company_id : Option Json
  pub roles : Json
  pub email : Option Json
  pub name : Option Json

-- What `jwt.decode` makes of a token: its claims, or a `JWTError` or another exception.
pub data Decoded : Type 0 where
  claims_of : Fields → Decoded
  jwt_error : Error → Decoded
  other_error : Error → Decoded

-- `download` is the request of the key set, its `raise_for_status` and its `json`; `decode` is
-- `jwt.decode` under the settings; `partition_space s` is what stands before and after the first
-- space of a text; `is_within s t` is `s in t` for texts.
pub record SecurityServices (W : Type 0) : Type 0 where
  pub download : Exec W Json
  pub decode : String → Json → Decoded
  pub error_text : Error → String
  pub partition_space : String → String × String
  pub lower : String → String
  pub is_within : String → String → Bool

-- The globals of the module.
pub record Security (W : Type 0) : Type 0 where
  pub jwks_cache : Json
  pub jwks_fetched_at : ℕ
  pub world : W

abbrev pub jwks_ttl : ℕ
jwks_ttl = 3600000000000

-- `claims.get("realm_access", {}).get("roles", [])`
abbrev pub realm_roles : Fields → Result Json
realm_roles claims = elim (or_else (get "realm_access" claims) (obj end)) [
  | obj access ↦ ok (or_else (get "roles" access) (arr nil))
  | _ ↦ raise (foreign "AttributeError")
]

-- `if not v`, of a claim that may be missing.
abbrev pub is_missing : Option Json → Bool
is_missing v = not (truthy (or_else v null))

-- The claims that `validate_token` returns.
abbrev pub token_claims : Fields → Json → TokenClaims
token_claims claims roles = record {
  sub = or_else (get "sub" claims) null;
  org_id = or_else (get "org_id" claims) null;
  is_agent = truthy (or_else (get "agent" claims) (bool false));
  agent_id = get "agent_id" claims;
  company_id = get "company_id" claims;
  roles = roles;
  email = get "email" claims;
  name = get "name" claims;
}

-- The set of the roles that `require_org_member` admits.
abbrev pub is_allowed : Json → Bool
is_allowed (str r) =
    r == "org:member"
    || (r == "org:admin" || (r == "company:admin" || (r == "company:member" || r == "agent")))
is_allowed _ = false

-- Lists and dicts have no hash, so no set holds them.
abbrev pub is_hashable : Json → Bool
is_hashable (arr _) = false
is_hashable (obj _) = false
is_hashable _ = true

abbrev pub all_hashable : Items → Bool
all_hashable nil = true
all_hashable (cons v vs) = is_hashable v && all_hashable vs

abbrev pub any_allowed : Items → Bool
any_allowed nil = false
any_allowed (cons v vs) = is_allowed v || any_allowed vs

abbrev pub any_key_allowed : Fields → Bool
any_key_allowed end = false
any_key_allowed (field k v rest) = is_allowed (str k) || any_key_allowed rest

-- `set(roles) & allowed`; no allowed role is a single character.
abbrev pub has_allowed : Json → Result Bool
has_allowed (arr vs) = if all_hashable vs then ok (any_allowed vs) else raise type_error
has_allowed (obj d) = ok (any_key_allowed d)
has_allowed (str s) = ok false
has_allowed _ = raise type_error

-- What the handler of an AuthError raises for it.
abbrev pub unauthorized : Error → Error
unauthorized (auth_error why) = http_exception 401 why
unauthorized e = e

module _ {W : Type 0} (services : SecurityServices W) where
  open services use {download, decode, error_text, partition_space, lower, is_within}

  -- The branches of `_fetch_jwks` after the download.
  abbrev pub refreshed : ℕ → Security W → Result Json × W → Result Json × Security W
  refreshed now s (ok keys, w) =
      (ok keys, record { jwks_cache = keys; jwks_fetched_at = now; world = w })
  refreshed now s (raise e, w) =
      if truthy s.jwks_cache then (ok s.jwks_cache, record s { world = w }) else (
        raise (auth_error ("Unable to fetch JWKS from Keycloak: " ++ error_text e)),
        record s { world = w },
      )

  -- `_fetch_jwks`; `now` is the monotonic clock.
  unfoldable pub fetch_jwks : ℕ → Exec (Security W) Json
  fetch_jwks now s =
      if truthy s.jwks_cache && ltb (now - s.jwks_fetched_at) jwks_ttl
      then (ok s.jwks_cache, s)
      else refreshed now s (download s.world)

  -- `jwt.decode` with its `except JWTError`.
  unfoldable pub decode_token : String → Json → Exec (Security W) Fields
  decode_token raw_token jwks s = elim (decode raw_token jwks) [
    | claims_of claims ↦ (ok claims, s)
    | jwt_error e ↦ (raise (auth_error ("Invalid token: " ++ error_text e)), s)
    | other_error e ↦ (raise e, s)
  ]

  -- The tests of the claims.
  unfoldable pub read_claims : Fields → Exec (Security W) TokenClaims
  read_claims claims = do
    raise_if (is_missing (get "sub" claims)) (auth_error "Token missing 'sub' claim")
    raise_if (is_missing (get "org_id" claims)) (auth_error "Token missing 'org_id' claim")
    roles ← lift (realm_roles claims)
    pure (token_claims claims roles)

  unfoldable pub validate_token : ℕ → String → Exec (Security W) TokenClaims
  validate_token now raw_token = do
    jwks ← fetch_jwks now
    claims ← decode_token raw_token jwks
    read_claims claims

  -- `try: m` with `except AuthError as exc`.
  unfoldable pub or_unauthorized : {A : Type 0} → Exec (Security W) A → Exec (Security W) A
  or_unauthorized m s =
      let (r, s') = m s in (elim r [ ok a ↦ ok a | raise e ↦ raise (unauthorized e) ], s')

  -- `_get_token_claims`
  unfoldable pub get_token_claims : ℕ → Option String → Exec (Security W) TokenClaims
  get_token_claims now authorization = do
    raise_if (is_empty (or_else authorization ""))
        (http_exception 401 "Authorization header is required")
    let (scheme, token) = partition_space (or_else authorization "") in
        (do
          raise_if (not (lower scheme == "bearer") || is_empty token)
              (http_exception 401 "Authorization header must be 'Bearer <token>'")
          or_unauthorized (validate_token now token))

  unfoldable pub require_org_member : TokenClaims → Exec (Security W) TokenClaims
  require_org_member claims = do
    member ← lift (has_allowed claims.roles)
    raise_if (not member) (http_exception 403 "Insufficient permissions: org membership required")
    pure claims

  unfoldable pub require_org_admin : TokenClaims → Exec (Security W) TokenClaims
  require_org_admin claims = do
    admin ← lift (occurs_in is_within "org:admin" claims.roles)
    raise_if (not admin) (http_exception 403 "Insufficient permissions: org admin required")
    pure claims
