-- ===== src/Core.antt =====
-- services/agent-runtime/app/core/events.py: the event bus.
pub mod Security
use Prim.Native.String.{◌++◌}
use agentcompany.Prelude.{String}
use agentcompany.Exec.{Exec, Result, lift, otherwise, ◌>>=◌}
use agentcompany.Json.{Fields}

-- Redis, and `json.dumps(event, default=str)`.
pub record EventBus (W : Type 0) : Type 0 where
  pub redis_publish : String → String → Exec W Unit
  pub dumps : Fields → Result String

-- `_channel_for`
abbrev pub channel_for : String → String
channel_for company_id = "events:" ++ company_id

unfoldable pub publish : {W : Type 0} → EventBus W → String → Fields → Exec W Unit
publish bus company_id event =
    otherwise
      (do written ← lift (bus.dumps event); bus.redis_publish (channel_for company_id) written) tt
