-- ===== src/Engine/CostTracker.antt =====
-- services/agent-runtime/app/engine/cost_tracker.py: token budgets and usage records of one agent.
-- Floating-point numbers, Redis and the database are parameters.
pub mod Floats
pub mod Counters
mod Keys
pub mod Budget
use Prim.Native.String.{◌++◌}
use agentcompany.Prelude.{
  ◌||◌, String, Option, some, none, List, [], ◌∷◌, is_empty, is_some, or_else, if◌then◌else◌, Bool,
  true, false,
}
use agentcompany.Prelude.Int.{ℤ, pos, ltb_ℤ, ◌+ℤ◌}
use agentcompany.Exec.{
  Result, ok, raise, value_error, Exec, pure, throw, otherwise, ◌>>=◌, ◌>>◌, raise_if,
}
use Floats.{FloatOps, max_float}
use Counters.{Command, incr_by_float, expire, Redis}

-- `reason` is one of the texts below.
pub record BudgetStatus (F : Type 0) : Type 0 where
  pub allowed : Bool
  pub reason : String
  pub remaining_daily_tokens : F
  pub remaining_monthly_tokens : F
  pub remaining_daily_usd : F
  pub remaining_monthly_usd : F

-- `recorded_at` is left out.
pub record UsageRecord (F : Type 0) : Type 0 where
  pub agent_id : String
  pub company_id : String
  pub run_id : Option String
  pub model : String
  pub provider : String
  pub input_tokens : ℤ
  pub output_tokens : ℤ
  pub total_tokens : ℤ
  pub cost_usd : F

-- The fields of a `CostTracker` but its two clients.
pub record CostTracker (F : Type 0) : Type 0 where
  pub agent_id : String
  pub company_id : String
  pub daily_token_budget : ℤ
  pub monthly_token_budget : ℤ
  pub daily_usd_budget : F
  pub monthly_usd_budget : F

abbrev pub daily_key_ttl_seconds : ℤ
daily_key_ttl_seconds = pos 172800

abbrev pub monthly_key_ttl_seconds : ℤ
monthly_key_ttl_seconds = pos 3024000

-- `_today_key()` and `_month_key()`: the clock is read at each call.
pub record Clock (W : Type 0) : Type 0 where
  pub today_key : W → String
  pub month_key : W → String

unfoldable pub daily_tokens_key : String → String → String
daily_tokens_key id day = "budget:agent:" ++ (id ++ (":daily_tokens:" ++ day))

unfoldable pub monthly_tokens_key : String → String → String
monthly_tokens_key id month = "budget:agent:" ++ (id ++ (":monthly_tokens:" ++ month))

unfoldable pub daily_usd_key : String → String → String
daily_usd_key id day = "budget:agent:" ++ (id ++ (":daily_usd:" ++ day))

unfoldable pub monthly_usd_key : String → String → String
monthly_usd_key id month = "budget:agent:" ++ (id ++ (":monthly_usd:" ++ month))

module _ {F : Type 0} where
  -- The constructor, after its clients.
  unfoldable pub cost_tracker : String → String → ℤ → ℤ → F → F → Result (CostTracker F)
  cost_tracker agent company daily monthly daily_usd monthly_usd =
      if is_empty agent
      then raise (value_error "agent_id must not be empty")
      else if is_empty company
      then raise (value_error "company_id must not be empty")
      else if ltb_ℤ daily (pos 0)
      then raise (value_error "daily_token_budget must be >= 0")
      else if ltb_ℤ monthly (pos 0)
      then raise (value_error "monthly_token_budget must be >= 0")
      else ok (record {
        agent_id = agent;
        company_id = company;
        daily_token_budget = daily;
        monthly_token_budget = monthly;
        daily_usd_budget = daily_usd;
        monthly_usd_budget = monthly_usd;
      })

  -- The commands of the pipeline, in order.
  unfoldable pub usage_commands : CostTracker F → F → F → String → String → List (Command F)
  usage_commands ct tokens cost today month =
      let id = ct.agent_id in
      incr_by_float (daily_tokens_key id today) tokens
      ∷ incr_by_float (monthly_tokens_key id month) tokens
      ∷ incr_by_float (daily_usd_key id today) cost
      ∷ incr_by_float (monthly_usd_key id month) cost
      ∷ expire (daily_tokens_key id today) daily_key_ttl_seconds
      ∷ expire (monthly_tokens_key id month) monthly_key_ttl_seconds
      ∷ expire (daily_usd_key id today) daily_key_ttl_seconds
      ∷ expire (monthly_usd_key id month) monthly_key_ttl_seconds
      ∷ []

module _ {F W : Type 0} (ops : FloatOps F) (redis : Redis F W) (clock : Clock W) where
  -- `float(val or 0)`
  abbrev read : String → Exec W F
  read key = do val ← redis.get key; pure (or_else val (ops.of_int (pos 0)))

  unfoldable pub get_daily_tokens : CostTracker F → Exec W F
  get_daily_tokens ct w = read (daily_tokens_key ct.agent_id (clock.today_key w)) w

  unfoldable pub get_monthly_tokens : CostTracker F → Exec W F
  get_monthly_tokens ct w = read (monthly_tokens_key ct.agent_id (clock.month_key w)) w

  unfoldable pub get_daily_usd : CostTracker F → Exec W F
  get_daily_usd ct w = read (daily_usd_key ct.agent_id (clock.today_key w)) w

  unfoldable pub get_monthly_usd : CostTracker F → Exec W F
  get_monthly_usd ct w = read (monthly_usd_key ct.agent_id (clock.month_key w)) w

  -- The last part of `check`, on the four values read.
  unfoldable pub budget_status : CostTracker F → ℤ → F → F → F → F → BudgetStatus F
  budget_status ct estimated today_tokens month_tokens today_usd month_usd =
      if ops.lt (ops.of_int ct.daily_token_budget) (ops.add today_tokens (ops.of_int estimated))
      then record status { allowed = false; reason = "daily_budget_exceeded" }
      else if ops.lt (ops.of_int ct.monthly_token_budget)
          (ops.add month_tokens (ops.of_int estimated))
      then record status { allowed = false; reason = "monthly_budget_exceeded" }
      else status
    where
      status : BudgetStatus F
      status = record {
        allowed = true;
        reason = "ok";
        remaining_daily_tokens =
            max_float ops (ops.of_int (pos 0))
              (ops.sub (ops.of_int ct.daily_token_budget) today_tokens);
        remaining_monthly_tokens =
            max_float ops (ops.of_int (pos 0))
              (ops.sub (ops.of_int ct.monthly_token_budget) month_tokens);
        remaining_daily_usd =
            max_float ops (ops.of_int (pos 0)) (ops.sub ct.daily_usd_budget today_usd);
        remaining_monthly_usd =
            max_float ops (ops.of_int (pos 0)) (ops.sub ct.monthly_usd_budget month_usd);
      }

  unfoldable pub check : ℤ → CostTracker F → Exec W (BudgetStatus F)
  check estimated ct = do
    raise_if (ltb_ℤ estimated (pos 0)) (value_error "estimated_tokens must be >= 0")
    today_tokens ← get_daily_tokens ct
    month_tokens ← get_monthly_tokens ct
    today_usd ← get_daily_usd ct
    month_usd ← get_monthly_usd ct
    pure (budget_status ct estimated today_tokens month_tokens today_usd month_usd)

  module _ (insert_usage : UsageRecord F → Exec W Unit) where
    -- `_persist_usage`: the INSERT, whose failure is logged and dropped.
    unfoldable pub persist_usage : UsageRecord F → Exec W Unit
    persist_usage usage = otherwise (insert_usage usage) tt

    unfoldable pub record_usage :
        ℤ → ℤ → F → String → String → Option String → CostTracker F → Exec W Unit
    record_usage input output cost model provider run_id ct w =
        (do
          raise_if (ltb_ℤ input (pos 0) || ltb_ℤ output (pos 0))
              (value_error "Token counts must be >= 0")
          raise_if (ops.lt cost (ops.of_int (pos 0))) (value_error "cost_usd must be >= 0")
          redis.pipeline (
              usage_commands ct (ops.of_int (input +ℤ output)) cost (clock.today_key w)
                (clock.month_key w))
          persist_usage (record {
            agent_id = ct.agent_id;
            company_id = ct.company_id;
            run_id = run_id;
            model = model;
            provider = provider;
            input_tokens = input;
            output_tokens = output;
            total_tokens = input +ℤ output;
            cost_usd = cost;
          }))
          w
