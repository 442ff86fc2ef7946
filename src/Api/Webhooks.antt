-- ===== src/Api/Webhooks.antt =====
-- api/webhooks.py: the webhooks of the platforms, and the events that they publish. HMAC-SHA256, the
-- parser of the body and Python's functions on texts are given.
pub mod Signatures
use Prim.Native.String.{◌++◌}
use agentcompany.Prelude.{
  String, Option, Bool, List, ℕ, none, some, is_empty, or_else, not, if◌then◌else◌, ◌==◌,
}
use agentcompany.Exec.{
  Exec, raise_if, http_exception, lift, throw, pure, Result, Error, ok, raise, foreign, ◌>>=◌, ◌>>◌,
}
use agentcompany.Json.{Json, Fields, obj, str, get, field, end, truthy}
use agentcompany.Core.{EventBus, publish}

-- `hexdigest secret body` is the digest of the body; `compare_digest` is `hmac.compare_digest` of
-- two texts; `remove_prefix p s` is `s.removeprefix(p)`; `parse` is `request.json()`.
pub record WebhookServices (W : Type 0) : Type 0 where
  pub event_bus : Option (EventBus W)
  pub hexdigest : String → List ℕ → String
  pub compare_digest : String → String → Result Bool
  pub remove_prefix : String → String → String
  pub parse : List ℕ → Result Json
  pub text_of : Json → String
  pub error_text : Error → String

module _ {W : Type 0} (services : WebhookServices W) where
  open services use {
    event_bus, hexdigest, compare_digest, remove_prefix, parse, text_of, error_text,
  }

  -- The comparison of the digests.
  unfoldable pub verify_signature : String → List ℕ → String → String → Exec W Unit
  verify_signature secret body header_name signature = do
    equal ← lift (compare_digest (hexdigest secret body) (remove_prefix "sha256=" signature))
    raise_if (not equal) (http_exception 401 ("Invalid " ++ (header_name ++ " signature")))

  -- `_verify_hmac`
  unfoldable pub verify_hmac : String → List ℕ → Option String → String → Exec W Unit
  verify_hmac secret body signature header_name = do
    raise_if (is_empty (or_else signature ""))
        (http_exception 401 ("Missing " ++ (header_name ++ " header")))
    verify_signature secret body header_name (or_else signature "")

  -- The company that an event is published for.
  abbrev pub company_of : Fields → Json
  company_of payload =
      let given = or_else (get "company_id" payload) (str "") in
      let found =
        if truthy given
        then given
        else or_else (get "workspace_id" payload) (or_else (get "channel_id" payload) (str "")) in
      if truthy found then found else str "system"

  -- `_emit_webhook_event`
  unfoldable pub emit_webhook_event : String → Json → Fields → Exec W Unit
  emit_webhook_event source event_type payload = elim event_bus [
    | none ↦ pure tt
    | some bus ↦ publish bus (text_of (company_of payload)) (
        field "type" (str ("webhook." ++ (source ++ ("." ++ text_of event_type))))
          (field "source" (str source) (field "payload" (obj payload) end)))
  ]

  -- `await request.json()`, of which `get` is called.
  unfoldable pub payload_of : List ℕ → Exec W Fields
  payload_of body = elim (parse body) [
    | ok (obj payload) ↦ pure payload
    | ok _ ↦ throw (foreign "AttributeError")
    | raise e ↦ throw (http_exception 400 ("Invalid JSON payload: " ++ error_text e))
  ]

  abbrev pub event_of : String → Fields → Json
  event_of default payload = or_else (get "event" payload) (str default)

  -- The handlers of Plane and of Outline: their source, their name and their header.
  unfoldable pub signed_webhook :
      String → String → String → String → List ℕ → Option String → Exec W Unit
  signed_webhook source title header_name secret body signature = do
    raise_if (is_empty secret)
        (http_exception 503 (title ++ " webhook secret is not configured on this server"))
    verify_hmac secret body signature header_name
    payload ← payload_of body
    emit_webhook_event source (event_of "unknown" payload) payload

  unfoldable pub plane_webhook : String → List ℕ → Option String → Exec W Unit
  plane_webhook = signed_webhook "plane" "Plane" "X-Plane-Signature"

  unfoldable pub outline_webhook : String → List ℕ → Option String → Exec W Unit
  outline_webhook = signed_webhook "outline" "Outline" "X-Outline-Signature"

  -- `token.encode()` of a value that is no text raises.
  abbrev pub token_matches : String → Json → Result Bool
  token_matches secret (str token) = ok (token == secret)
  token_matches secret _ = raise (foreign "AttributeError")

  unfoldable pub mattermost_webhook : String → List ℕ → Exec W Unit
  mattermost_webhook secret body = do
    raise_if (is_empty secret)
        (http_exception 503 "Mattermost webhook secret is not configured on this server")
    payload ← payload_of body
    equal ← lift (token_matches secret (or_else (get "token" payload) (str "")))
    raise_if (not equal) (http_exception 401 "Invalid Mattermost webhook token")
    emit_webhook_event "mattermost" (event_of "message.posted" payload) payload
