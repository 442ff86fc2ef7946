-- ===== src/Engine/TriggerConsumer.antt =====
-- services/agent-runtime/app/engine/trigger_consumer.py: the messages of the trigger stream, one
-- after the other. The back-off of a second after an error and the polling are left to the caller.
pub mod Batches
use agentcompany.Prelude.{
  ◌∷◌, [], ◌≡◌, String, Bool, Dict, List, ℕ, if◌then◌else◌, true, [], ◌+◌, insert, false,
}
use agentcompany.Json.{Builtins}
use agentcompany.Exec.{
  Result, Exec, ok, otherwise, pure, ◌>>=◌, raise, lift, ◌>>◌, key_error, value_error,
}
use agentcompany.Engine.Heartbeat.{TriggerMessage, from_redis_dict}

-- Redis gives texts or bytes.
pub data Raw : Type 0 where
  text_value : String → Raw
  bytes_value : List ℕ → Raw

-- Redis, the engine service, Python's functions and `bytes.decode`.
pub record ConsumerServices (W : Type 0) : Type 0 where
  pub py : Builtins
  pub decode : List ℕ → Result String
  pub xgroup_create : Exec W Unit
  pub xreadgroup : Exec W (List (String × List (Raw × Raw)))
  pub xack : String → Exec W Unit
  pub dispatch_trigger : TriggerMessage → Exec W Unit

-- The flag and the tasks that were created, beside the world.
pub record Consumer (W : Type 0) : Type 0 where
  pub is_running : Bool
  pub tasks : ℕ
  pub world : W

module _ {W : Type 0} (services : ConsumerServices W) where
  open services use {py, decode, xgroup_create, xreadgroup, xack, dispatch_trigger}

  abbrev text_in : Raw → Result String
  text_in (text_value s) = ok s
  text_in (bytes_value b) = decode b

  -- The dict comprehension, from the pairs that were read before.
  abbrev pub decode_into : Dict String → List (Raw × Raw) → Result (Dict String)
  decode_into d [] = ok d
  decode_into d ((k, v) ∷ rest) = elim (text_in k) [
    | raise e ↦ raise e
    | ok key ↦ elim (text_in v) [
      | raise e ↦ raise e
      | ok value ↦ decode_into (insert key value d) rest
    ]
  ]

  -- `_ack`
  unfoldable pub ack : String → Exec W Unit
  ack id = otherwise (xack id) tt

  -- The dispatch, whose exceptions are caught, and the acknowledgement.
  unfoldable pub dispatch : String → TriggerMessage → Exec W Unit
  dispatch id trigger = do otherwise (dispatch_trigger trigger) tt; ack id

  -- What follows `from_redis_dict`: a KeyError or a ValueError acknowledges the message.
  abbrev pub settle : String → Result TriggerMessage × W → Result (Unit {0}) × W
  settle id (ok trigger, w) = dispatch id trigger w
  settle id (raise (key_error _), w) = ack id w
  settle id (raise (value_error _), w) = ack id w
  settle id (raise e, w) = (raise e, w)

  unfoldable pub handle_entry : String → Dict String → Exec W Unit
  handle_entry id entry w = settle id (from_redis_dict py entry w)

  -- `_handle_message`
  unfoldable pub handle_message : String → List (Raw × Raw) → Exec W Unit
  handle_message id raw = do entry ← lift (decode_into [] raw); handle_entry id entry

  unfoldable pub handle_batch : List (String × List (Raw × Raw)) → Exec W Unit
  handle_batch [] = pure tt
  handle_batch ((id, raw) ∷ rest) = do handle_message id raw; handle_batch rest

  -- One pass of `_consume_loop`: every exception is caught.
  unfoldable pub consume : Exec W Unit
  consume = otherwise (do messages ← xreadgroup; handle_batch messages) tt

  -- `start`
  unfoldable pub start : Exec (Consumer W) Unit
  start c = if c.is_running then (ok tt, c) else (
    ok tt,
    record {
      is_running = true;
      tasks = c.tasks + 1;
      world = (otherwise xgroup_create tt c.world).1;
    },
  )

  -- `stop`: the flag falls; the cancelled task is asyncio's.
  unfoldable pub stop : Exec (Consumer W) Unit
  stop c = (ok tt, record c { is_running = false })
