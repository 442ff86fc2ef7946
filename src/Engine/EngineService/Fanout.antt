-- ===== src/Engine/EngineService/Fanout.antt =====
-- engine_service.py: which agents an event of a company wakes.
use agentcompany.Prelude.{
  ◌≡◌, refl, String, List, Bool, [], ◌∷◌, map, some, ℕ, ◌≤◌, arith, length, is_empty, if◌then◌else◌,
  false, ◌+◌, true, Option, Bool-cases, inl, sym, inr, ◌∙◌, ap,
}
use mathlib.Core.List.{◌++◌, append-nil, append_assoc}
use agentcompany.Engine.EngineService.{Database, AgentRow, EngineService}
use agentcompany.Engine.EngineService.Triggers.{
  listens, trigger_row, trigger_rows, source_of_event, found_agents, trigger_by_event,
}
use agentcompany.Engine.Heartbeat.Service.{HeartbeatService, enqueue_manual_trigger}
use agentcompany.Exec.{
  ok, raise, otherwise, pure, ◌>>=◌, Result, bind_of_ok, raise_if_passes, otherwise_of_ok,
}
use agentcompany.Json.{Fields, obj, merge, field, str, end, put}
use agentcompany.Engine.Heartbeat.Stream.{KeepsStream, Sent, enqueue_trigger-Sent, receivers}
use agentcompany.Exec.Hoare.{
  Triple, triple_pure, triple_known, Holds, triple_bind, triple_weaken, triple_fact,
  triple_otherwise_ok, triple_guard, returns,
}

module _ {W : Type 0} (db : Database W) where
  open db use {is_within}

  -- The configuration of every agent can be read.
  abbrev pub Shaped : String → List AgentRow → Type 0
  Shaped event_type [] = Unit
  Shaped event_type (row ∷ rows) =
      ((b : Bool) × (listens is_within event_type row ≡ ok b)) × Shaped event_type rows

  abbrev pub is_listener : String → AgentRow → Bool
  is_listener event_type row = elim (listens is_within event_type row) [
    | ok b ↦ b
    | raise _ ↦ false
  ]

  -- The agents that listen to an event, in order.
  abbrev pub listeners : String → List AgentRow → List String
  listeners event_type [] = []
  listeners event_type (row ∷ rows) =
      let rest = listeners event_type rows in
      if is_listener event_type row then row.id ∷ rest else rest

  -- How many triggers a row can add.
  abbrev listening : String → AgentRow → ℕ
  listening event_type row = if is_listener event_type row then 1 else 0

  at_most_first :
      (event_type : String) (row : AgentRow) (rows : List AgentRow) {n m : ℕ}
      → n ≤ listening event_type row
      → m ≤ length (listeners event_type rows)
      → n + m ≤ length (listeners event_type (row ∷ rows))
  at_most_first event_type row rows n_le m_le = ground arith

  abbrev pub AllNamed : List AgentRow → Type 0
  AllNamed [] = Unit
  AllNamed (row ∷ rows) = (is_empty row.id ≡ false) × AllNamed rows

  found_agents_ok :
      {company_id : String} (rows : List AgentRow) (w w' : W)
      → db.select_agents company_id w ≡ (ok rows, w')
      → found_agents db company_id w ≡ (ok (some rows), w')
  unfolding pure
  found_agents_ok rows w w' e = otherwise_of_ok _ _ (bind_of_ok _ _ e)

  module _ (service : EngineService W) (h : HeartbeatService W) (company_id event_type : String)
      (event_data : Fields) where
    -- One row: what it does where it listens, and where it does not.
    row-Holds :
        {P X : W → Type 0} {Q : ℕ → W → Type 0} (row : AgentRow) {b : Bool}
        → listens is_within event_type row ≡ ok b
        → (is_listener event_type row ≡ true
            → Triple P (trigger_row db h company_id event_type event_data row) Q X)
        → (is_listener event_type row ≡ false → (w : W) → P w → Q 0 w)
        → Triple P (if b then trigger_row db h company_id event_type event_data row else pure 0) Q X
    row-Holds row {b = true} e wake skip = wake (rw (e, is_listener) refl)
    row-Holds row {b = false} e wake skip =
        triple_pure 0 (λ w p. skip (rw (e, is_listener) refl) w p)

    -- One trigger counts at most one.
    trigger_row_at_most :
        {X : W → Type 0} (row : AgentRow)
        → Triple
            (λ _. Unit)
            (trigger_row db h company_id event_type event_data row)
            (λ n _. n ≤ 1)
            X
    unfolding trigger_row otherwise ◌>>=◌
    trigger_row_at_most {X} row = record { at = λ s p. go (enqueue_manual_trigger h row.id _ _ s) }
      where
        go :
            (x : Result String × W)
            → Holds
                (λ n _. n ≤ 1)
                X
                (let y = elim x.0 as (λ _. Result ℕ × W) [
                  | ok _ ↦ (ok 1, x.1)
                  | raise e ↦ (raise e, x.1)
                ] in
                  elim y.0 as (λ _. Result ℕ × W) [ ok n ↦ (ok n, y.1) | raise e ↦ (ok 0, y.1) ])
        go (ok _, s') = omega arith
        go (raise e, s') = omega arith

    rows_at_most :
        {X : W → Type 0} (rows : List AgentRow)
        → Shaped event_type rows
        → Triple
            (λ _. Unit)
            (trigger_rows db h company_id event_type event_data rows)
            (λ n _. n ≤ length (listeners event_type rows))
            X
    unfolding trigger_rows
    rows_at_most [] shaped = triple_pure 0 (λ w p. omega arith)
    rows_at_most (row ∷ rows) ((b, e), shaped) = triple_known _ e (
        triple_bind _ _
          (row-Holds {Q = λ n _. n ≤ listening event_type row} row e
            (λ t. rw t (trigger_row_at_most row)) (λ t w p. rw t (omega arith)))
          (λ n.
            triple_weaken (λ w k. (k, tt)) (λ a w k. k) (λ w k. k)
              (triple_fact (λ n_le. triple_bind _ _ (rows_at_most rows shaped) (λ m.
                triple_pure (n + m) (λ w m_le. at_most_first event_type row rows n_le m_le))))))

    trigger_by_event_rows :
        (rows : List AgentRow) (w w' : W)
        → service.heartbeat ≡ some h
        → is_empty company_id ≡ false
        → is_empty event_type ≡ false
        → db.select_agents company_id w ≡ (ok rows, w')
        → trigger_by_event db service company_id event_type event_data w
          ≡ trigger_rows db h company_id event_type event_data rows w'
    unfolding trigger_by_event
    trigger_by_event_rows rows w w' there company typed listed =
        bind_of_ok _ _ (raise_if_passes _ _ w company)
        ∙ bind_of_ok _ _ (raise_if_passes _ _ w typed)
        ∙ rw there (bind_of_ok _ _ (found_agents_ok rows w w' listed))

    -- An event of a company whose agents are well configured never raises, and counts at most the
    -- agents that listen to it, also where Redis refuses some or all of the triggers.
    trigger_by_event_at_most :
        (rows : List AgentRow) (w w' : W)
        → service.heartbeat ≡ some h
        → is_empty company_id ≡ false
        → is_empty event_type ≡ false
        → db.select_agents company_id w ≡ (ok rows, w')
        → Shaped event_type rows
        → (n : ℕ) × ((trigger_by_event db service company_id event_type event_data w).0 ≡ ok n)
          × (n ≤ length (listeners event_type rows))
    trigger_by_event_at_most rows w w' there company typed listed shaped =
        rw (trigger_by_event_rows rows w w' there company typed listed)
          (returns _ _ ((rows_at_most {X = λ _. ⊥} rows shaped).at w' tt))

    module _ (lawful : KeepsStream h) {payload : String}
        (payload_ok : h.py.dumps (
            obj (
              merge
                (field "triggered_by" (str (source_of_event event_type)) end)
                (put "company_id" (str company_id) event_data)))
          ≡ ok payload) where
      open lawful use {entries}

      trigger_row-Sent :
          {rs : List (Option String)} {X : W → Type 0} (row : AgentRow)
          → is_empty row.id ≡ false
          → Triple
              (Sent h lawful rs)
              (trigger_row db h company_id event_type event_data row)
              (λ n w. (n ≡ 1) × Sent h lawful (rs ++ some row.id ∷ []) w)
              X
      unfolding trigger_row enqueue_manual_trigger
      trigger_row-Sent row named = triple_otherwise_ok _ _ (
          triple_bind _ _
            (triple_bind _ _ (triple_guard _ _ named)
              (λ _. enqueue_trigger-Sent h lawful payload_ok row.id _ _))
            (λ _. triple_pure 1 (λ w s. (refl, s))))

      -- What a row adds.
      abbrev called : AgentRow → List (Option String)
      called row = if is_listener event_type row then some row.id ∷ [] else []

      called_first :
          (row : AgentRow) (rows : List AgentRow) (rs : List (Option String))
          → (length (called row) + length (listeners event_type rows)
              ≡ length (listeners event_type (row ∷ rows)))
            × ((rs ++ called row) ++ map some (listeners event_type rows)
                ≡ rs ++ map some (listeners event_type (row ∷ rows)))
      called_first row rows rs = elim (Bool-cases (is_listener event_type row)) [
        | inl t ↦ rw t (omega arith, append_assoc rs _ _)
        | inr t ↦ rw t (omega arith, append_assoc rs _ _)
      ]

      rows-Sent :
          {X : W → Type 0} (rows : List AgentRow) {rs : List (Option String)}
          → Shaped event_type rows
          → AllNamed rows
          → Triple
              (Sent h lawful rs)
              (trigger_rows db h company_id event_type event_data rows)
              (λ n w.
                (n ≡ length (listeners event_type rows))
                × Sent h lawful (rs ++ map some (listeners event_type rows)) w)
              X
      unfolding trigger_rows
      rows-Sent [] {rs} shaped named = triple_pure 0 (λ w s. (refl, rw s (sym (append-nil rs))))
      rows-Sent (row ∷ rows) {rs} ((b, e), shaped) (n, named) = triple_known _ e (
          triple_bind _ _
            (row-Holds {Q = λ n w. (n ≡ length (called row)) × Sent h lawful (rs ++ called row) w}
              row e (λ t. rw t (trigger_row-Sent row n))
              (λ t w s. rw t (refl, rw s (sym (append-nil rs)))))
            (λ n. triple_fact (λ one. triple_bind _ _ (rows-Sent rows shaped named) (λ m.
              triple_pure (n + m) (λ w k.
                let both = called_first row rows rs in (rw (one, k.0) both.0, k.1 ∙ both.1))))))

      -- Where there is a heartbeat service, the query, Redis and JSON answer, the company, the type
      -- and the ids of the agents are not empty, and the stored configuration of every agent of the
      -- company can be read, an event of a company adds one trigger to the stream for each of these
      -- agents that listens to it, in the order of the rows, and none else, and returns their number.
      pub trigger_by_event_lem :
          (rows : List AgentRow) (w w' : W)
          → service.heartbeat ≡ some h
          → is_empty company_id ≡ false
          → is_empty event_type ≡ false
          → db.select_agents company_id w ≡ (ok rows, w')
          → Shaped event_type rows
          → AllNamed rows
          → ((trigger_by_event db service company_id event_type event_data w).0
              ≡ ok (length (listeners event_type rows)))
            × (receivers h
                  (entries (trigger_by_event db service company_id event_type event_data w).1)
                ≡ receivers h (entries w') ++ map some (listeners event_type rows))
      trigger_by_event_lem rows w w' there company typed listed shaped named =
          rw (trigger_by_event_rows rows w w' there company typed listed) (
            let x = returns _ _ ((rows-Sent {X = λ _. ⊥} rows shaped named).at w' refl) in
            (x.1 ∙ ap ok x.2.0, x.2.1))
