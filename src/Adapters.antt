-- ===== src/Adapters.antt =====
-- services/agent-runtime/app/adapters/base.py and types.py: what the adapters of the platforms
-- share. A response of `httpx` is given by what the code reads of it.
pub mod Registry
use Prim.Native.String.{◌++◌}
use agentcompany.Prelude.{
  String, Option, Bool, List, ℕ, none, some, if◌then◌else◌, contains, ◌||◌, not, leb, eqb, false,
  or_else,
}
use agentcompany.Json.{Builtins, take_chars}
use agentcompany.Exec.{Exec, Result, Error, raise, ok}
use agentcompany.Prelude.Int.{ℤ, pos}

pub data AdapterErrorCode : Type 0 where
  connection_timeout connection_refused auth_failed auth_expired : AdapterErrorCode
  permission_denied resource_not_found validation_error rate_limited : AdapterErrorCode
  server_error unavailable capability_not_supported circuit_open : AdapterErrorCode

pub record AdapterError : Type 0 where
  pub code : AdapterErrorCode
  pub message : String
  pub tool : String
  pub operation : String
  pub retryable : Bool
  pub retry_after_seconds : Option ℤ
  pub details : Option (ℕ × String)

-- What `_raise_for_status` does: it returns, it raises an AdapterError, or another error passes.
pub data Translated : Type 0 where
  passes : Translated
  fails : AdapterError → Translated
  escapes : Error → Translated

pub record Response : Type 0 where
  pub is_success : Bool
  pub status_code : ℕ
  pub retry_after : Option String
  pub body : String

-- An adapter: its name and what it can do.
pub record BaseAdapter : Type 0 where
  pub name : String
  pub capabilities : List String

unfoldable pub supports : BaseAdapter → String → Bool
supports adapter capability = contains adapter.capabilities capability

unfoldable pub require_capability : BaseAdapter → String → String → Translated
require_capability adapter capability operation =
    if supports adapter capability
    then passes
    else fails (record {
      code = capability_not_supported;
      message = adapter.name ++ (" does not support capability '" ++ (capability ++ "'"));
      tool = adapter.name;
      operation = operation;
      retryable = false;
      retry_after_seconds = none;
      details = none;
    })

-- `status in (429, 500, 502, 503, 504)`
abbrev pub transient : ℕ → Bool
transient status =
    eqb status 429 || eqb status 500 || eqb status 502 || eqb status 503 || eqb status 504

-- The code of an error, and whether a retry may help.
abbrev pub code_of : ℕ → AdapterErrorCode × Bool
code_of status =
    if eqb status 429
    then (rate_limited, transient status)
    else if eqb status 401
    then (auth_failed, transient status)
    else if eqb status 403
    then (permission_denied, transient status)
    else if eqb status 404
    then (resource_not_found, false)
    else if eqb status 422
    then (validation_error, false)
    else (server_error, transient status)

-- `int(response.headers.get("Retry-After", "60"))`, of a response 429.
abbrev pub retry_after_of : Builtins → Response → Result (Option ℤ)
retry_after_of py r =
    if eqb r.status_code 429
    then elim (py.parse_int (or_else r.retry_after "60")) [ ok n ↦ ok (some n) | raise e ↦ raise e ]
    else ok none

-- `_raise_for_status`
unfoldable pub raise_for_status : Builtins → BaseAdapter → Response → String → Translated
raise_for_status py adapter r operation =
    if r.is_success then passes else elim (retry_after_of py r) [
      | raise e ↦ escapes e
      | ok seconds ↦
          let (code, retryable) = code_of r.status_code in
          fails (record {
            code = code;
            message =
                "HTTP "
                ++ (py.int_text (pos r.status_code)
                    ++ (" from " ++ (adapter.name ++ ("." ++ operation))));
            tool = adapter.name;
            operation = operation;
            retryable = retryable;
            retry_after_seconds = seconds;
            details = some (r.status_code, take_chars 500 r.body);
          })
    ]
