-- ===== src/Engine/Heartbeat/Stream.antt =====
-- heartbeat.py: the trigger stream, and the entry that a trigger adds to it.
use agentcompany.Prelude.{
  ◌≡◌, refl, List, Dict, String, Option, ◌∷◌, map, lookup, [], some, ap, ◌∙◌, map-append,
}
use mathlib.Core.List.{◌++◌}
use agentcompany.Engine.Heartbeat.Service.{
  HeartbeatService, enqueue_trigger, global_stream, trigger_id_of,
}
use agentcompany.Json.{Json}
use agentcompany.Engine.Heartbeat.{to_redis_dict, TriggerMessage}
use agentcompany.Exec.{ok, ◌>>=◌, Result, total, pure, lift, bind_of_ok, Exec, ◌>>◌}
use agentcompany.Exec.Hoare.{
  Triple, keeps_bind, triple_total, triple_bind, keeps_pure, triple_ok, triple_known,
}
use agentcompany.Prelude.Int.{pos}

module _ {W : Type 0} (service : HeartbeatService W) where
  open service use {py, xadd, new_uuid, now}

  -- A Redis that answers: `entries` is the trigger stream, and the clock and uuid4 do not touch it.
  pub record KeepsStream : Type 0 where
    pub entries : W → List (Dict String)
    pub xadd_ok : (entry : Dict String) (w : W) → (xadd global_stream entry w).0 ≡ ok tt
    pub xadd_entries :
        (entry : Dict String) (w : W)
        → entries (xadd global_stream entry w).1 ≡ entries w ++ entry ∷ []
    pub uuid_entries : (w : W) → entries (new_uuid w).1 ≡ entries w
    pub now_entries : (w : W) → entries (now w).1 ≡ entries w

  -- Whom the entries are for.
  abbrev pub receivers : List (Dict String) → List (Option String)
  receivers entries = map (lookup "agent_id") entries

  module _ (lawful : KeepsStream) where
    open lawful use {entries}

    -- The stream's receivers.
    abbrev pub Sent : List (Option String) → W → Type 0
    Sent rs w = receivers (entries w) ≡ rs

    written :
        (m : TriggerMessage) {payload : String}
        → py.dumps m.payload ≡ ok payload
        → (entry : Dict String) × (to_redis_dict py m ≡ ok entry)
          × (lookup "agent_id" entry ≡ some m.agent_id)
    unfolding to_redis_dict
    written m e = rw (e, to_redis_dict) (_, refl, refl)

    xadd-Sent :
        {rs : List (Option String)} {agent_id : String} {X : W → Type 0} (entry : Dict String)
        → lookup "agent_id" entry ≡ some agent_id
        → Triple (Sent rs) (xadd global_stream entry) (λ _. Sent (rs ++ some agent_id ∷ [])) X
    xadd-Sent entry e = triple_ok _ (λ w h. (
      tt,
      lawful.xadd_ok entry w,
      ap receivers (lawful.xadd_entries entry w)
          ∙ map-append (lookup "agent_id") (entries w) (entry ∷ [])
          ∙ rw (h, e) refl,
    ))

    -- A trigger whose payload can be written adds one entry, for its agent.
    pub enqueue_trigger-Sent :
        {rs : List (Option String)} {X : W → Type 0} {payload : Json} {written_payload : String}
        → py.dumps payload ≡ ok written_payload
        → (agent_id trigger_type source : String)
        → Triple
            (Sent rs)
            (enqueue_trigger service agent_id trigger_type source payload)
            (λ _. Sent (rs ++ some agent_id ∷ []))
            X
    unfolding enqueue_trigger
    enqueue_trigger-Sent {payload = payload} payload_ok agent_id trigger_type source =
        keeps_bind _ _ (triple_total _ (λ w h. ap receivers (lawful.uuid_entries w) ∙ h)) (λ uuid.
          keeps_bind _ _ (triple_total _ (λ w h. ap receivers (lawful.now_entries w) ∙ h)) (λ at.
            let made =
              written
                (record {
                  trigger_id = trigger_id_of uuid;
                  agent_id = agent_id;
                  trigger_type = trigger_type;
                  source = source;
                  payload = payload;
                  enqueued_at = at;
                  attempt = pos 1;
                })
                payload_ok in
            triple_known _ made.1 (triple_bind _ _ (xadd-Sent _ made.2) (λ _. keeps_pure _))))

    -- The message that a call of enqueue_trigger writes.
    abbrev message_of : String → String → String → Json → W → TriggerMessage
    message_of agent_id trigger_type source payload w =
        let (uuid, w') = new_uuid w in
        record {
          trigger_id = trigger_id_of uuid;
          agent_id = agent_id;
          trigger_type = trigger_type;
          source = source;
          payload = payload;
          enqueued_at = (now w').0;
          attempt = pos 1;
        }

    -- What one call adds: a message of the agent, with the payload that was given.
    pub record Enqueued (agent_id : String) (payload : Json) (before : W)
        (after : Result String × W) : Type 0 where
      pub message : TriggerMessage
      pub entry : Dict String
      pub written_as : to_redis_dict py message ≡ ok entry
      pub for_agent : message.agent_id ≡ agent_id
      pub with_payload : message.payload ≡ payload
      pub first_attempt : message.attempt ≡ pos 1
      pub returned : after.0 ≡ ok message.trigger_id
      pub added : entries after.1 ≡ entries before ++ entry ∷ []

    pub enqueue_trigger-Enqueued :
        {payload : Json} {written_payload : String}
        → py.dumps payload ≡ ok written_payload
        → (agent_id trigger_type source : String) (w : W)
        → Enqueued agent_id payload w
            (enqueue_trigger service agent_id trigger_type source payload w)
    unfolding enqueue_trigger total pure lift ◌>>=◌
    enqueue_trigger-Enqueued {payload} payload_ok agent_id trigger_type source w = record {
      message = m;
      entry = entry;
      written_as = made.1;
      for_agent = refl;
      with_payload = refl;
      first_attempt = refl;
      returned = ap (λ x. x.0) sent;
      added =
          ap (λ x. entries x.1) sent
          ∙ lawful.xadd_entries entry w'
          ∙ ap (λ l. l ++ entry ∷ []) (lawful.now_entries (new_uuid w).1 ∙ lawful.uuid_entries w);
    }
      where
        m : TriggerMessage
        m = message_of agent_id trigger_type source payload w

        made :
            (entry : Dict String) × (to_redis_dict py m ≡ ok entry)
            × (lookup "agent_id" entry ≡ some m.agent_id)
        made = written m payload_ok

        entry : Dict String
        entry = made.0

        w' : W
        w' = (now (new_uuid w).1).1

        send : Dict String → Exec W String
        send e = do xadd global_stream e; pure m.trigger_id

        sent :
            enqueue_trigger service agent_id trigger_type source payload w
            ≡ (ok m.trigger_id, (xadd global_stream entry w').1)
        sent =
            bind_of_ok (lift (to_redis_dict py m)) send (ap (λ r. (r, w')) made.1)
            ∙ bind_of_ok (xadd global_stream entry) (λ _. pure m.trigger_id)
                (ap (λ r. (r, (xadd global_stream entry w').1)) (lawful.xadd_ok entry w'))
