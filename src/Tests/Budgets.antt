-- ===== src/Tests/Budgets.antt =====
-- Usage and budgets of one agent.
use agentcompany.Prelude.{
  ◌≡◌, refl, ◌≢◌, String, ℕ, none, leb, ◌+◌, ◌&&◌, if◌then◌else◌, arith, some,
}
use agentcompany.Engine.CostTracker.{
  record_usage, BudgetStatus, check, daily_tokens_key, monthly_tokens_key, daily_usd_key,
  monthly_usd_key,
}
use agentcompany.Tests.Fixtures.{
  units, redis, clock, insert_usage, tracker, new_world, lawful_redis, units-IsExact,
}
use agentcompany.Prelude.Int.{pos}
use agentcompany.Exec.{ok}
use agentcompany.Engine.CostTracker.Budget.{record_usage_counts, check_decides}

record_usage_counts_example :
    let (r, w') =
      record_usage units redis clock insert_usage
        (pos 10)
        (pos 20)
        1
        "small"
        "local"
        none
        tracker
        new_world in
    let after = w'.cells in
    (r ≡ ok tt)
    × (after (daily_tokens_key "agt_1" "2026-01-02") ≡ some (0 + 30))
    × (after (monthly_tokens_key "agt_1" "2026-01") ≡ some (0 + 30))
    × (after (daily_usd_key "agt_1" "2026-01-02") ≡ some (0 + 1))
    × (after (monthly_usd_key "agt_1" "2026-01") ≡ some (0 + 1))
    × ((k : String)
        → k ≢ daily_tokens_key "agt_1" "2026-01-02"
        → k ≢ monthly_tokens_key "agt_1" "2026-01"
        → k ≢ daily_usd_key "agt_1" "2026-01-02"
        → k ≢ monthly_usd_key "agt_1" "2026-01"
        → after k ≡ none)
record_usage_counts_example =
    record_usage_counts units redis clock lawful_redis insert_usage (λ u w k. refl) tracker 10 20 1
      "small" "local" none new_world refl

check_decides_example :
    (s : BudgetStatus ℕ) × (check units redis clock (pos 500) tracker new_world ≡ (ok s, new_world))
    × (s.allowed ≡ leb (0 + 500) 1000 && leb (0 + 500) 5000)
    × (s.reason ≡ (
        if leb (0 + 500) 1000
        then if leb (0 + 500) 5000 then "ok" else "monthly_budget_exceeded"
        else "daily_budget_exceeded"))
check_decides_example =
    check_decides units redis clock lawful_redis tracker new_world units-IsExact 500 0 0 refl refl
      refl refl (omega arith) (omega arith) (omega arith) (omega arith)
