-- ===== src/Engine/CostTracker/Counters.antt =====
-- The Redis commands that the cost tracker sends, and what the Redis documentation says of them.
use agentcompany.Prelude.{◌≡◌, String, Option, some, List, [], ◌∷◌, ◌==◌, or_else, if◌then◌else◌}
use agentcompany.Prelude.Int.{ℤ, pos}
use agentcompany.Exec.{ok, Exec}
use agentcompany.Engine.CostTracker.Floats.{FloatOps}

pub data Command (F : Type 0) : Type 0 where
  incr_by_float : String → F → Command F
  expire : String → ℤ → Command F

-- `get` has its reply read as a float already; `pipeline` is `pipe.execute()` after the listed
-- commands. Both reach the network and may raise.
pub record Redis (F W : Type 0) : Type 0 where
  pub get : String → Exec W (Option F)
  pub pipeline : List (Command F) → Exec W Unit

module _ {F : Type 0} (ops : FloatOps F) where
  -- The value at a key after a command: INCRBYFLOAT takes a missing key for 0; EXPIRE changes no
  -- value before the time is over.
  abbrev pub after_command : Command F → (String → Option F) → String → Option F
  after_command (incr_by_float k x) cells j =
      if k == j then some (ops.add (or_else (cells j) (ops.of_int (pos 0))) x) else cells j
  after_command (expire k t) cells j = cells j

  abbrev pub after_commands : List (Command F) → (String → Option F) → String → Option F
  after_commands [] cells = cells
  after_commands (c ∷ cs) cells = after_commands cs (after_command c cells)

  -- A Redis that answers, with no key expiring in the meantime: `cell` is its key space.
  pub record IsLawful {W : Type 0} (redis : Redis F W) : Type 0 where
    pub cell : W → String → Option F
    pub get_lem : (k : String) (w : W) → redis.get k w ≡ (ok (cell w k), w)
    pub pipeline_ok : (cs : List (Command F)) (w : W) → (redis.pipeline cs w).0 ≡ ok tt
    pub pipeline_cell :
        (cs : List (Command F)) (w : W) (k : String)
        → cell (redis.pipeline cs w).1 k ≡ after_commands cs (cell w) k
