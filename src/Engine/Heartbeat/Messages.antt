-- ===== src/Engine/Heartbeat/Messages.antt =====
-- heartbeat.py: the entries of the trigger stream.
use agentcompany.Prelude.{◌≡◌, refl, String, Dict}
use agentcompany.Json.{Builtins, Json}
use agentcompany.Engine.Heartbeat.{to_redis_dict, from_redis_dict, TriggerMessage, entry_of}
use agentcompany.Prelude.Int.{ℤ}
use agentcompany.Exec.{◌>>=◌, ok, Result, raise, ok_inj}

-- What the documentation of `json` and of `str` and `int` says of a payload and a number that were
-- written.
pub record ReadsBack (py : Builtins) (payload : Json) (attempt : ℤ) : Type 0 where
  pub loads_dumps : (s : String) → py.dumps payload ≡ ok s → py.loads s ≡ ok payload
  pub parse_int_text : py.parse_int (py.int_text attempt) ≡ ok attempt

-- A message that is written has a payload that is written.
pub to_redis_dict_inversion :
    (py : Builtins) (m : TriggerMessage) (entry : Dict String)
    → to_redis_dict py m ≡ ok entry
    → (payload : String) × (py.dumps m.payload ≡ ok payload) × (entry_of py m payload ≡ entry)
unfolding to_redis_dict
to_redis_dict_inversion py m entry e = go (py.dumps m.payload) refl e
  where
    go :
        (r : Result String)
        → py.dumps m.payload ≡ r
        → (elim r as (λ _. Result (Dict String)) [
          | raise x ↦ raise x
          | ok payload ↦ ok (entry_of py m payload)
        ])
          ≡ ok entry
        → (payload : String) × (py.dumps m.payload ≡ ok payload) × (entry_of py m payload ≡ entry)
    go (raise x) d k = cc
    go (ok payload) d k = (payload, d, ok_inj k)

-- A message that is written to the stream is read back.
pub from_redis_dict-to_redis_dict :
    {S : Type 0} (py : Builtins) (m : TriggerMessage) (entry : Dict String) (s : S)
    → ReadsBack py m.payload m.attempt
    → to_redis_dict py m ≡ ok entry
    → from_redis_dict py entry s ≡ (ok m, s)
unfolding from_redis_dict ◌>>=◌
from_redis_dict-to_redis_dict py m entry s back e =
    let (payload, d, same) = to_redis_dict_inversion py m entry e in
    rw⁻¹ same (rw (back.loads_dumps payload d, back.parse_int_text) refl)
