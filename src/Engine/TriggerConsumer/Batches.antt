-- ===== src/Engine/TriggerConsumer/Batches.antt =====
-- trigger_consumer.py: which messages of a batch are acknowledged.
use agentcompany.Prelude.{◌≡◌, refl, String, List, Dict, ◌∷◌, [], ◌∙◌, ap, sym}
use agentcompany.Exec.{
  Result, lift, ok, raise, key_error, value_error, otherwise, Error, bind_of_ok, bind_of_raise,
  pure,
}
use agentcompany.Engine.Heartbeat.{from_redis_dict, TriggerMessage, item}
use agentcompany.Engine.TriggerConsumer.{
  ConsumerServices, ack, dispatch, handle_batch, Raw, handle_message, decode_into, handle_entry,
  settle, consume,
}
use agentcompany.Json.{Builtins}
use mathlib.Core.List.{◌++◌, append-nil, append_assoc}
use agentcompany.Exec.Hoare.{
  Triple, Holds, Keeps, keeps_bind, triple_pure, triple_state, triple_otherwise, keeps_pure,
  triple_bind, returns, triple_known, triple_weaken,
}

-- The reading of an entry returns, or raises what the consumer catches.
abbrev pub Caught : {W : Type 0} → Result TriggerMessage × W → Type 0
Caught (ok _, w) = Unit
Caught (raise (key_error _), w) = Unit
Caught (raise (value_error _), w) = Unit
Caught (raise _, w) = ⊥

item-Keeps : {S : Type 0} (P : S → Type 0) (key : String) (d : Dict String) → Keeps P (item key d)
unfolding lift
item-Keeps P key d = triple_state _ (λ s h. h)

from_redis_dict-Keeps :
    {S : Type 0} (P : S → Type 0) (py : Builtins) (d : Dict String) → Keeps P (from_redis_dict py d)
unfolding from_redis_dict lift
from_redis_dict-Keeps P py d = keeps_bind _ _ (item-Keeps P _ d) (λ _.
    keeps_bind _ _ (item-Keeps P _ d) (λ _. keeps_bind _ _ (item-Keeps P _ d) (λ _.
      keeps_bind _ _ (item-Keeps P _ d) (λ _.
        keeps_bind _ _ (triple_state (lift _) (λ s h. h)) (λ _.
          keeps_bind _ _ (item-Keeps P _ d)
            (λ _. keeps_bind _ _ (triple_state (lift _) (λ s h. h)) (λ _. keeps_pure _)))))))

module _ {W : Type 0} (services : ConsumerServices W) where
  open services use {py}

  -- Redis keeps the acknowledged ids, and a dispatch leaves them alone.
  pub record KeepsAcks : Type 0 where
    pub acked : W → List String
    pub xack_acked : (id : String) (w : W) → acked (services.xack id w).1 ≡ acked w ++ id ∷ []
    pub dispatch_acked :
        (t : TriggerMessage) (w : W) → acked (services.dispatch_trigger t w).1 ≡ acked w

  -- The entry is a text throughout, and is read or refused.
  pub record Readable (raw : List (Raw × Raw)) : Type 0 where
    pub entry : Dict String
    pub decoded : decode_into services [] raw ≡ ok entry
    pub caught : (w : W) → Caught (from_redis_dict py entry w)

  abbrev pub AllReadable : List (String × List (Raw × Raw)) → Type 0
  AllReadable [] = Unit
  AllReadable ((id, raw) ∷ rest) = Readable raw × AllReadable rest

  abbrev pub ids : List (String × List (Raw × Raw)) → List String
  ids [] = []
  ids ((id, raw) ∷ rest) = id ∷ ids rest

  module _ (lawful : KeepsAcks) where
    open lawful use {acked}

    abbrev Acked : List String → W → Type 0
    Acked past w = acked w ≡ past

    ack-Acked :
        {past : List String} {X : W → Type 0} (id : String)
        → Triple (Acked past) (ack services id) (λ _. Acked (past ++ id ∷ [])) X
    unfolding ack
    ack-Acked id =
        triple_otherwise _ _
          (triple_state _ (λ w h. lawful.xack_acked id w ∙ ap (λ l. l ++ id ∷ []) h))

    dispatch-Acked :
        {past : List String} {X : W → Type 0} (id : String) (t : TriggerMessage)
        → Triple (Acked past) (dispatch services id t) (λ _. Acked (past ++ id ∷ [])) X
    unfolding dispatch
    dispatch-Acked id t =
        keeps_bind _ _
          (triple_otherwise _ _ (triple_state _ (λ w h. lawful.dispatch_acked t w ∙ h)))
          (λ _. ack-Acked id)

    settle-Acked :
        {past : List String} (X : W → Type 0) (id : String) (x : Result TriggerMessage × W)
        → Caught x
        → Acked past x.1
        → Holds (λ _. Acked (past ++ id ∷ [])) X (settle services id x)
    settle-Acked X id (ok t, w) c h = (dispatch-Acked id t).at w h
    settle-Acked X id (raise (key_error _), w) c h = (ack-Acked id).at w h
    settle-Acked X id (raise (value_error _), w) c h = (ack-Acked id).at w h
    settle-Acked X id (raise e, w) c h = elim c [ ]

    holds_at : (P : W → Type 0) {A : Type 0} (x : Result A × W) → Holds (λ _. P) P x → P x.1
    holds_at P (ok a, w) h = h
    holds_at P (raise e, w) h = h

    handle_entry-Acked :
        {past : List String} {X : W → Type 0} (id : String) (d : Dict String)
        → ((w : W) → Caught (from_redis_dict py d w))
        → Triple (Acked past) (handle_entry services id d) (λ _. Acked (past ++ id ∷ [])) X
    unfolding handle_entry
    handle_entry-Acked {past} {X} id d caught = record {
      at = λ w h. settle-Acked X id (from_redis_dict py d w) (caught w) (
          holds_at (Acked past) (from_redis_dict py d w)
            ((from_redis_dict-Keeps (Acked past) py d).at w h));
    }

    handle_batch-Acked :
        {X : W → Type 0} (batch : List (String × List (Raw × Raw))) {past : List String}
        → AllReadable batch
        → Triple (Acked past) (handle_batch services batch) (λ _. Acked (past ++ ids batch)) X
    unfolding handle_batch handle_message
    handle_batch-Acked [] {past} r = triple_pure tt (λ s h. h ∙ sym (append-nil past))
    handle_batch-Acked ((id, raw) ∷ rest) {past} (r, rs) =
        triple_bind _ _ (triple_known _ r.decoded (handle_entry-Acked id r.entry r.caught)) (λ _.
          triple_weaken (λ s h. h) (λ a s h. h ∙ append_assoc past (id ∷ []) (ids rest)) (λ s h. h)
            (handle_batch-Acked rest rs))

    -- A batch of entries that are texts, and are read or refused with a KeyError or a ValueError,
    -- is handled to its end: each message is acknowledged once, in order, also where its dispatch
    -- raises.
    pub handle_batch_acks :
        (batch : List (String × List (Raw × Raw))) (w : W)
        → AllReadable batch
        → ((handle_batch services batch w).0 ≡ ok tt)
          × (acked (handle_batch services batch w).1 ≡ acked w ++ ids batch)
    handle_batch_acks batch w r =
        let x = returns _ _ ((handle_batch-Acked {X = λ _. ⊥} batch r).at w refl) in (x.1, x.2)

    -- A batch from one of its messages on, once those before it have been handled.
    abbrev and_then :
        List (String × List (Raw × Raw)) → Result (Unit {0}) × W → Result (Unit {0}) × W
    and_then batch (ok _, w) = handle_batch services batch w
    and_then batch (raise e, w) = (raise e, w)

    handle_batch-append :
        (before batch : List (String × List (Raw × Raw))) (w : W)
        → handle_batch services (before ++ batch) w
          ≡ and_then batch (handle_batch services before w)
    unfolding handle_batch pure
    handle_batch-append [] batch w = refl
    handle_batch-append ((id, raw) ∷ before) batch w =
        go (handle_message services id raw w) refl (handle_batch-append before batch)
      where
        go :
            (x : Result (Unit {0}) × W)
            → handle_message services id raw w ≡ x
            → ((v : W)
                → handle_batch services (before ++ batch) v
                  ≡ and_then batch (handle_batch services before v))
            → handle_batch services ((id, raw) ∷ before ++ batch) w
              ≡ and_then batch (handle_batch services ((id, raw) ∷ before) w)
        go (ok u, w') e rest =
            bind_of_ok _ _ e
            ∙ rest w'
            ∙ ap (and_then batch) (sym (bind_of_ok _ (λ _. handle_batch services before) e))
        go (raise y, w') e rest =
            bind_of_raise _ _ e
            ∙ ap (and_then batch) (sym (bind_of_raise _ (λ _. handle_batch services before) e))

    handle_batch_undecodable :
        (id : String) (raw : List (Raw × Raw)) (rest : List (String × List (Raw × Raw))) (e : Error)
        (x : Result (Unit {0}) × W)
        → decode_into services [] raw ≡ raise e
        → x.0 ≡ ok tt
        → and_then ((id, raw) ∷ rest) x ≡ (raise e, x.1)
    unfolding handle_batch handle_message lift
    handle_batch_undecodable id raw rest e (ok u, w) bad done =
        bind_of_raise (handle_message services id raw) (λ _. handle_batch services rest)
          (bind_of_raise (lift _) (λ d. handle_entry services id d) (ap (λ r. (r, w)) bad))
    handle_batch_undecodable id raw rest e (raise y, w) bad done = cc

    -- A message that cannot be decoded ends the pass, which returns: the messages before it, where
    -- they are texts and are read or refused, are handled and acknowledged in order, and neither it
    -- nor a message after it is dispatched or acknowledged; the state is the one that those before it
    -- leave.
    pub undecodable_ends_pass :
        (before : List (String × List (Raw × Raw))) (id : String) (raw : List (Raw × Raw))
        (rest : List (String × List (Raw × Raw))) (e : Error) (w w' : W)
        → services.xreadgroup w ≡ (ok (before ++ (id, raw) ∷ rest), w')
        → AllReadable before
        → decode_into services [] raw ≡ raise e
        → (consume services w ≡ (ok tt, (handle_batch services before w').1))
          × (acked (handle_batch services before w').1 ≡ acked w' ++ ids before)
    unfolding consume otherwise
    undecodable_ends_pass before id raw rest e w w' read readable bad =
        let (done, kept) = handle_batch_acks before w' readable in
        (
          ap
              (λ (x : Result (Unit {0}) × W). elim x.0 as (λ _. Result (Unit {0}) × W) [
                | ok b ↦ (ok b, x.1)
                | raise y ↦ (ok tt, x.1)
              ])
              (bind_of_ok services.xreadgroup (λ ms. handle_batch services ms) read
                ∙ handle_batch-append before ((id, raw) ∷ rest) w'
                ∙ handle_batch_undecodable id raw rest e (handle_batch services before w') bad
                    done),
          kept,
        )
