-- ===== src/Engine/EngineService/Delivery.antt =====
-- engine_service.py and trigger_consumer.py: a trigger that is in the stream reaches the service.
use agentcompany.Prelude.{
  ◌≡◌, refl, String, List, Dict, [], ◌∷◌, ap, is_empty, false, Option, Bool, some, none, true, ◌∙◌,
  sym,
}
use agentcompany.Engine.TriggerConsumer.{
  Raw, text_value, ConsumerServices, handle_message, decode_into, handle_entry, dispatch, ack,
  settle,
}
use agentcompany.Engine.EngineService.{Database, EngineService, or_engine_error_ok}
use agentcompany.Engine.EngineService.Triggers.{
  dispatch_trigger, announce, company_of, trigger_agent, or_api,
}
use agentcompany.Engine.Heartbeat.{TriggerMessage, to_redis_dict}
use agentcompany.Json.{Json, truthy, Fields, obj, merge, field, str, end}
use agentcompany.Exec.{
  ok, pure, lift, otherwise_tt, Result, bind_of_ok, raise_if_passes, otherwise_unit,
}
use agentcompany.Core.{EventBus}
use agentcompany.Engine.Heartbeat.Messages.{
  ReadsBack, from_redis_dict-to_redis_dict, to_redis_dict_inversion,
}
use agentcompany.Engine.Heartbeat.Service.{
  HeartbeatService, enqueue_manual_trigger, enqueue_trigger,
}
use agentcompany.Engine.Heartbeat.Stream.{KeepsStream, Enqueued, enqueue_trigger-Enqueued}
use mathlib.Core.List.{◌++◌}
use agentcompany.Prelude.Int.{pos}

-- What Redis gives back of an entry that was added: its texts.
abbrev pub texts : Dict String → List (Raw × Raw)
texts [] = []
texts ((k, v) ∷ d) = (text_value k, text_value v) ∷ texts d

module _ {W : Type 0} (db : Database W) (service : EngineService W)
    (redis : ConsumerServices W) where
  -- The consumer of this service.
  abbrev pub consumer : ConsumerServices W
  consumer = record redis { dispatch_trigger = dispatch_trigger db service }

  announce_ok : (t : TriggerMessage) (v : Json) (w : W) → (announce db service t v w).0 ≡ ok tt
  unfolding pure
  announce_ok t v w = go service.bus refl (truthy v) refl
    where
      go :
          (o : Option (EventBus W))
          → service.bus ≡ o
          → (b : Bool) → truthy v ≡ b
          → (announce db service t v w).0 ≡ ok tt
      go none e b k = rw (e, announce) refl
      go (some bus) e true k = rw (e, announce) (rw k (otherwise_tt _ w))
      go (some bus) e false k = rw (e, announce) (rw k refl)

  -- A trigger of an agent whose payload is a dict is dispatched without an exception.
  dispatch_trigger_ok :
      (t : TriggerMessage) {payload : Fields} (w : W)
      → is_empty t.agent_id ≡ false
      → t.payload ≡ obj payload
      → (dispatch_trigger db service t w).0 ≡ ok tt
  unfolding dispatch_trigger lift
  dispatch_trigger_ok t w named has_dict =
      ap (λ x. x.0)
        (bind_of_ok _ _ (raise_if_passes _ _ w named)
          ∙ bind_of_ok (lift (company_of db t.payload)) _ (ap (λ v. (company_of db v, w)) has_dict))
      ∙ announce_ok t _ w

  -- An entry that was written is decoded to itself.
  decoded_texts :
      (m : TriggerMessage) (entry : Dict String)
      → to_redis_dict redis.py m ≡ ok entry
      → decode_into consumer [] (texts entry) ≡ ok entry
  decoded_texts m entry e =
      let (payload, d, same) = to_redis_dict_inversion redis.py m entry e in rw⁻¹ same refl

  handle_dispatches :
      (id : String) (m : TriggerMessage) (entry : Dict String) (w : W)
      → ReadsBack redis.py m.payload m.attempt
      → to_redis_dict redis.py m ≡ ok entry
      → handle_message consumer id (texts entry) w
        ≡ ack consumer id (dispatch_trigger db service m w).1
  unfolding handle_message handle_entry lift dispatch
  handle_dispatches id m entry w back e =
      bind_of_ok _ (handle_entry consumer id) (ap (λ r. (r, w)) (decoded_texts m entry e))
      ∙ ap (settle consumer id) (from_redis_dict-to_redis_dict redis.py m entry w back e)
      ∙ bind_of_ok _ (λ _. ack consumer id) (otherwise_unit (dispatch_trigger db service m) w)

  module _ (h : HeartbeatService W) (lawful : KeepsStream h) (same_python : redis.py ≡ h.py) where
    open lawful use {entries}

    -- What a manual trigger for an agent leads to: a message in the stream that, whenever a consumer
    -- reads it, is dispatched without an exception and then acknowledged.
    pub record Delivered (agent_id id : String) (before later : W) (after : Result String × W)
        : Type 0 where
      message : TriggerMessage
      entry : Dict String
      for_agent : message.agent_id ≡ agent_id
      returned : after.0 ≡ ok message.trigger_id
      added : entries after.1 ≡ entries before ++ entry ∷ []
      dispatched : (dispatch_trigger db service message later).0 ≡ ok tt
      acknowledged :
          handle_message consumer id (texts entry) later
          ≡ ack redis id (dispatch_trigger db service message later).1

    Enqueued-Delivered :
        {agent_id : String} {payload : Fields} {before : W} {after : Result String × W}
        (id : String) (later : W)
        → is_empty agent_id ≡ false
        → ReadsBack h.py (obj payload) (pos 1)
        → Enqueued h lawful agent_id (obj payload) before after
        → Delivered agent_id id before later after
    unfolding ack
    Enqueued-Delivered id later named back sent = record {
      message = sent.message;
      entry = sent.entry;
      for_agent = sent.for_agent;
      returned = sent.returned;
      added = sent.added;
      dispatched =
          dispatch_trigger_ok sent.message later (rw sent.for_agent named) sent.with_payload;
      acknowledged =
          handle_dispatches id sent.message sent.entry later
            (rw (same_python, sent.with_payload, sent.first_attempt) back)
            (rw same_python sent.written_as);
    }

    -- `merge` of the sender and the data.
    abbrev pub manual_payload : Fields → Option String → Fields
    manual_payload event_data by = merge (field "triggered_by" (str (or_api db by)) end) event_data

    trigger_agent_enqueues :
        (agent_id : String) (event_data : Fields) (by : Option String) (w : W) {trigger_id : String}
        → service.heartbeat ≡ some h
        → is_empty agent_id ≡ false
        → (enqueue_trigger h agent_id "manual" "api" (obj (manual_payload event_data by)) w).0
          ≡ ok trigger_id
        → trigger_agent db service agent_id event_data by w
          ≡ enqueue_trigger h agent_id "manual" "api" (obj (manual_payload event_data by)) w
    unfolding trigger_agent enqueue_manual_trigger
    trigger_agent_enqueues agent_id event_data by w {trigger_id} there named e =
        bind_of_ok _ _ (raise_if_passes _ _ w named)
        ∙ rw there (or_engine_error_ok db _ (enqueue_manual_trigger h agent_id _ _) manual)
        ∙ sym returned
      where
        sent : Result String × W
        sent = enqueue_trigger h agent_id "manual" "api" (obj (manual_payload event_data by)) w

        returned : sent ≡ (ok trigger_id, sent.1)
        returned = ap (λ r. (r, sent.1)) e

        manual :
            enqueue_manual_trigger h agent_id event_data (or_api db by) w ≡ (ok trigger_id, sent.1)
        manual = bind_of_ok _ _ (raise_if_passes _ _ w named) ∙ returned

    -- A manual trigger for an agent is delivered: the service returns the id of a message for that
    -- agent, which is the one entry that the stream gains; and whenever a consumer reads this entry,
    -- the service dispatches that message without an exception, whatever the bus does, and the
    -- consumer acknowledges it. Redis answers, and JSON reads back what it wrote.
    pub trigger_agent-Delivered :
        (agent_id id : String) (event_data : Fields) (by : Option String) (w later : W)
        {payload : String}
        → service.heartbeat ≡ some h
        → is_empty agent_id ≡ false
        → h.py.dumps (obj (manual_payload event_data by)) ≡ ok payload
        → ReadsBack h.py (obj (manual_payload event_data by)) (pos 1)
        → Delivered agent_id id w later (trigger_agent db service agent_id event_data by w)
    trigger_agent-Delivered agent_id id event_data by w later there named payload_ok back =
        rw (trigger_agent_enqueues agent_id event_data by w there named sent.returned)
          (Enqueued-Delivered id later named back sent)
      where
        sent :
            Enqueued h lawful agent_id
              (obj (manual_payload event_data by))
              w
              (enqueue_trigger h agent_id "manual" "api" (obj (manual_payload event_data by)) w)
        sent = enqueue_trigger-Enqueued h lawful payload_ok agent_id "manual" "api" w
