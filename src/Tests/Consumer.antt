-- ===== src/Tests/Consumer.antt =====
-- Batches of the trigger stream.
use agentcompany.Prelude.{◌≡◌, refl, List, Dict, ◌∷◌, String, [], lookup, or_else, ap}
use agentcompany.Engine.Heartbeat.{from_redis_dict}
use agentcompany.Tests.Fixtures.{World, new_world, python, answers}
use agentcompany.Exec.{ok, raise, ◌>>=◌, unicode_error, engine_error}
use mathlib.Core.List.{◌++◌}
use agentcompany.Engine.TriggerConsumer.{ConsumerServices, handle_batch, consume, bytes_value}
use agentcompany.Engine.TriggerConsumer.Batches.{
  KeepsAcks, Readable, handle_batch_acks, undecodable_ends_pass,
}

-- Bytes are not decoded here, and every message fails to be dispatched.
abbrev pub consumer : ConsumerServices World
consumer = record {
  py = python;
  decode = λ b. raise unicode_error;
  xgroup_create = answers tt;
  xreadgroup = answers (("1-0", []) ∷ ("1-1", (bytes_value [], bytes_value []) ∷ []) ∷ []);
  xack = λ id w. (ok tt, record w { stream = w.stream ++ (("acked", id) ∷ []) ∷ [] });
  dispatch_trigger = λ t w. (raise (engine_error "no agent"), w);
}

abbrev acked_ids : List (Dict String) → List String
acked_ids [] = []
acked_ids (d ∷ ds) = or_else (lookup "acked" d) "" ∷ acked_ids ds

acked_ids-append :
    (xs : List (Dict String)) (id : String)
    → acked_ids (xs ++ (("acked", id) ∷ []) ∷ []) ≡ acked_ids xs ++ id ∷ []
acked_ids-append [] id = refl
acked_ids-append (x ∷ xs) id = ap (λ l. or_else (lookup "acked" x) "" ∷ l) (acked_ids-append xs id)

consumer-KeepsAcks : KeepsAcks consumer
consumer-KeepsAcks = record {
  acked = λ w. acked_ids w.stream;
  xack_acked = λ id w. acked_ids-append w.stream id;
  dispatch_acked = λ t w. refl;
}

-- An entry without a single key is refused with a KeyError.
empty-Readable : Readable consumer []
unfolding from_redis_dict ◌>>=◌
empty-Readable = record { entry = []; decoded = refl; caught = λ w. tt }

handle_batch_acks_example :
    ((handle_batch consumer (("1-1", []) ∷ ("1-2", []) ∷ []) new_world).0 ≡ ok tt)
    × (consumer-KeepsAcks.acked (handle_batch consumer (("1-1", []) ∷ ("1-2", []) ∷ []) new_world).1
        ≡ consumer-KeepsAcks.acked new_world ++ "1-1" ∷ "1-2" ∷ [])
handle_batch_acks_example =
    handle_batch_acks consumer consumer-KeepsAcks (("1-1", []) ∷ ("1-2", []) ∷ []) new_world
      (empty-Readable, (empty-Readable, tt))

-- A message without keys stands before the one that is not decoded.
undecodable_ends_pass_example :
    (consume consumer new_world ≡ (ok tt, (handle_batch consumer (("1-0", []) ∷ []) new_world).1))
    × (consumer-KeepsAcks.acked (handle_batch consumer (("1-0", []) ∷ []) new_world).1
        ≡ consumer-KeepsAcks.acked new_world ++ "1-0" ∷ [])
undecodable_ends_pass_example =
    undecodable_ends_pass consumer consumer-KeepsAcks (("1-0", []) ∷ []) "1-1"
      ((bytes_value [], bytes_value []) ∷ []) [] unicode_error new_world new_world refl
      (empty-Readable, tt) refl
