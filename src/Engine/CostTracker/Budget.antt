-- ===== src/Engine/CostTracker/Budget.antt =====
-- What `check` answers, what `record_usage` writes, and how the second shows in the first.
use agentcompany.Prelude.{
  ◌≡◌, Option, or_else, String, some, ◌≢◌, ne→==_false, sym, eq_refl, ℕ, false, ◌+◌, ◌∙◌, arith,
  refl, ◌≤◌, leb, ◌&&◌, if◌then◌else◌,
}
use agentcompany.Engine.CostTracker.Keys.{keys_ne}
use agentcompany.Engine.CostTracker.Floats.{FloatOps, IsExact, exact_limit}
use agentcompany.Engine.CostTracker.{
  usage_commands, or_else, CostTracker, pos, String, daily_tokens_key, some, monthly_tokens_key,
  daily_usd_key, monthly_usd_key, Redis, Clock, UsageRecord, Exec, persist_usage, record_usage, ok,
  false, ltb_ℤ, ◌>>=◌, check, get_daily_tokens, get_monthly_tokens, get_daily_usd, get_monthly_usd,
  budget_status, read, BudgetStatus,
}
use agentcompany.Prelude.Int.{pos, ltb_ℤ, +ℤ-pos}
use agentcompany.Engine.CostTracker.Counters.{after_commands, Redis, IsLawful}
use agentcompany.Exec.{Exec, ok, otherwise_tt, otherwise_state, ◌>>=◌}

module _ {F : Type 0} (ops : FloatOps F) where
  -- `float(val or 0)` of a reply.
  abbrev pub amount : Option F → F
  amount v = or_else v (ops.of_int (pos 0))

  -- The cells after the commands of one call of `record_usage`.
  cells_after :
      (ct : CostTracker F) (tokens cost : F) (today month : String) (cells : String → Option F)
      → let after = after_commands ops (usage_commands ct tokens cost today month) cells in
        let id = ct.agent_id in
        (after (daily_tokens_key id today)
          ≡ some (ops.add (amount (cells (daily_tokens_key id today))) tokens))
        × (after (monthly_tokens_key id month)
            ≡ some (ops.add (amount (cells (monthly_tokens_key id month))) tokens))
        × (after (daily_usd_key id today)
            ≡ some (ops.add (amount (cells (daily_usd_key id today))) cost))
        × (after (monthly_usd_key id month)
            ≡ some (ops.add (amount (cells (monthly_usd_key id month))) cost))
        × ((k : String)
            → k ≢ daily_tokens_key id today
            → k ≢ monthly_tokens_key id month
            → k ≢ daily_usd_key id today
            → k ≢ monthly_usd_key id month
            → after k ≡ cells k)
  unfolding usage_commands
  cells_after ct tokens cost today month cells =
      let (dm, du, dx, mu, mx, ux) = keys_ne ct.agent_id today month in
      let flip = λ (s t : String) (h : s ≢ t). ne→==_false {s = t} {t = s} (λ e. h (sym e)) in
      (
        simp (eq_refl, flip _ _ dm, flip _ _ du, flip _ _ dx),
        simp (eq_refl, ne→==_false dm, flip _ _ mu, flip _ _ mx),
        simp (eq_refl, ne→==_false du, ne→==_false mu, flip _ _ ux),
        simp (eq_refl, ne→==_false dx, ne→==_false mx, ne→==_false ux),
        (λ k d m u x. simp (flip k _ d, flip k _ m, flip k _ u, flip k _ x)),
      )

nonneg : (n : ℕ) → ltb_ℤ (pos n) (pos 0) ≡ false
nonneg n = ground arith

module _ {F W : Type 0} (ops : FloatOps F) (redis : Redis F W) (clock : Clock W)
    (law : IsLawful ops redis) (insert_usage : UsageRecord F → Exec W Unit) where
  persist_lem :
      (u : UsageRecord F) (w : W)
      → persist_usage ops redis clock insert_usage u w ≡ (ok tt, (insert_usage u w).1)
  unfolding persist_usage ◌>>=◌
  persist_lem u w =
      λ i. (otherwise_tt (insert_usage u) w i, otherwise_state (insert_usage u) tt w i)

  -- What a call that is not refused does: the pipeline, then the INSERT.
  record_usage_lem :
      (ct : CostTracker F) (a b : ℕ) (cost : F) (model provider : String) (run_id : Option String)
      (w : W)
      → ops.lt cost (ops.of_int (pos 0)) ≡ false
      → let commands =
          usage_commands ct
            (ops.of_int (pos (a + b)))
            cost
            (clock.today_key w)
            (clock.month_key w) in
        (u : UsageRecord F) × (record_usage ops redis clock insert_usage
            (pos a)
            (pos b)
            cost
            model
            provider
            run_id
            ct
            w
          ≡ (ok tt, (insert_usage u (redis.pipeline commands w).1).1))
  unfolding record_usage ◌>>=◌
  record_usage_lem ct a b cost model provider run_id w h = (
    record {
      agent_id = ct.agent_id;
      company_id = ct.company_id;
      run_id = run_id;
      model = model;
      provider = provider;
      input_tokens = pos a;
      output_tokens = pos b;
      total_tokens = pos (a + b);
      cost_usd = cost;
    },
    simp (nonneg a, nonneg b, h, +ℤ-pos) (rw (law.pipeline_ok _ w, ◌>>=◌) (persist_lem _ _)),
  )

  -- With an answering Redis, and an INSERT that leaves Redis alone, recording a call of a + b tokens
  -- at a cost that is not negative returns, adds a + b to the daily and to the monthly token counter
  -- and the cost to both USD counters, and changes no other key. So it does when the INSERT fails.
  pub record_usage_counts :
      ((u : UsageRecord F) (w : W) (k : String) → law.cell (insert_usage u w).1 k ≡ law.cell w k)
      → (ct : CostTracker F) (a b : ℕ) (cost : F) (model provider : String) (run_id : Option String)
        (w : W)
      → ops.lt cost (ops.of_int (pos 0)) ≡ false
      → let (r, w') =
          record_usage ops redis clock insert_usage
            (pos a)
            (pos b)
            cost
            model
            provider
            run_id
            ct
            w in
        let id = ct.agent_id in
        let today = clock.today_key w in
        let month = clock.month_key w in
        let tokens = ops.of_int (pos (a + b)) in
        let before = law.cell w in
        let after = law.cell w' in
        (r ≡ ok tt)
        × (after (daily_tokens_key id today)
            ≡ some (ops.add (amount ops (before (daily_tokens_key id today))) tokens))
        × (after (monthly_tokens_key id month)
            ≡ some (ops.add (amount ops (before (monthly_tokens_key id month))) tokens))
        × (after (daily_usd_key id today)
            ≡ some (ops.add (amount ops (before (daily_usd_key id today))) cost))
        × (after (monthly_usd_key id month)
            ≡ some (ops.add (amount ops (before (monthly_usd_key id month))) cost))
        × ((k : String)
            → k ≢ daily_tokens_key id today
            → k ≢ monthly_tokens_key id month
            → k ≢ daily_usd_key id today
            → k ≢ monthly_usd_key id month
            → after k ≡ before k)
  record_usage_counts frame ct a b cost model provider run_id w h =
      let (u, e) = record_usage_lem ct a b cost model provider run_id w h in
      let (d, m, du, mu, other) =
        cells_after ops ct (ops.of_int (pos (a + b))) cost (clock.today_key w) (clock.month_key w)
          (law.cell w) in
      let at = λ (k : String). frame u _ k ∙ law.pipeline_cell _ w k in
      rw e (
        refl,
        at _ ∙ d,
        at _ ∙ m,
        at _ ∙ du,
        at _ ∙ mu,
        (λ k h₁ h₂ h₃ h₄. at k ∙ other k h₁ h₂ h₃ h₄),
      )

module _ {F W : Type 0} (ops : FloatOps F) (redis : Redis F W) (clock : Clock W)
    (law : IsLawful ops redis) (ct : CostTracker F) (w : W) where
  abbrev pub used_today : F
  used_today = amount ops (law.cell w (daily_tokens_key ct.agent_id (clock.today_key w)))

  abbrev pub used_month : F
  used_month = amount ops (law.cell w (monthly_tokens_key ct.agent_id (clock.month_key w)))

  read_lem : (k : String) → read ops redis clock k w ≡ (ok (amount ops (law.cell w k)), w)
  unfolding ◌>>=◌
  read_lem k = ground (arith, law.get_lem k w)

  -- `check` reads the four counters and changes nothing.
  check_lem :
      (e : ℕ)
      → check ops redis clock (pos e) ct w ≡ (
        ok (
            budget_status ops redis clock ct
              (pos e)
              used_today
              used_month
              (amount ops (law.cell w (daily_usd_key ct.agent_id (clock.today_key w))))
              (amount ops (law.cell w (monthly_usd_key ct.agent_id (clock.month_key w))))),
        w,
      )
  unfolding check get_daily_tokens get_monthly_tokens get_daily_usd get_monthly_usd ◌>>=◌
  check_lem e = ground (
    arith,
    nonneg e,
    read_lem (daily_tokens_key ct.agent_id (clock.today_key w)),
    read_lem (monthly_tokens_key ct.agent_id (clock.month_key w)),
    read_lem (daily_usd_key ct.agent_id (clock.today_key w)),
    read_lem (monthly_usd_key ct.agent_id (clock.month_key w)),
  )

  status_decides :
      IsExact ops
      → (e d m daily monthly : ℕ) (day_usd month_usd : F) → used_today ≡ ops.of_int (pos d)
      → used_month ≡ ops.of_int (pos m)
      → ct.daily_token_budget ≡ pos daily
      → ct.monthly_token_budget ≡ pos monthly
      → d + e ≤ exact_limit
      → m + e ≤ exact_limit
      → daily ≤ exact_limit
      → monthly ≤ exact_limit
      → let s = budget_status ops redis clock ct (pos e) used_today used_month day_usd month_usd in
        (s.allowed ≡ leb (d + e) daily && leb (m + e) monthly)
        × (s.reason ≡ (
            if leb (d + e) daily
            then if leb (m + e) monthly then "ok" else "monthly_budget_exceeded"
            else "daily_budget_exceeded"))
  unfolding budget_status
  status_decides exact e d m daily monthly _ _ hd hm bd bm ld lm ldb lmb =
      rw
        (
          hd,
          hm,
          bd,
          bm,
          exact.add_exact d e ld,
          exact.add_exact m e lm,
          exact.lt_exact daily (d + e) ldb ld,
          exact.lt_exact monthly (m + e) lmb lm,
        )
        (ground arith, ground arith)

  -- With counters and budgets in the range where doubles are exact, `check` changes nothing, and it
  -- allows e more tokens exactly when both the day's and the month's count with e stay within their
  -- budgets; the reason is "ok" or the first budget that is passed, the day's before the month's.
  -- What was spent in USD has no part in it.
  pub check_decides :
      IsExact ops
      → (e d m : ℕ) {daily monthly : ℕ} → used_today ≡ ops.of_int (pos d)
      → used_month ≡ ops.of_int (pos m)
      → ct.daily_token_budget ≡ pos daily
      → ct.monthly_token_budget ≡ pos monthly
      → d + e ≤ exact_limit
      → m + e ≤ exact_limit
      → daily ≤ exact_limit
      → monthly ≤ exact_limit
      → (s : BudgetStatus F) × (check ops redis clock (pos e) ct w ≡ (ok s, w))
        × (s.allowed ≡ leb (d + e) daily && leb (m + e) monthly)
        × (s.reason ≡ (
            if leb (d + e) daily
            then if leb (m + e) monthly then "ok" else "monthly_budget_exceeded"
            else "daily_budget_exceeded"))
  check_decides exact e d m hd hm bd bm ld lm ldb lmb =
      let (allows, says) = status_decides exact e d m _ _ _ _ hd hm bd bm ld lm ldb lmb in
      (_, check_lem e, allows, says)
