-- ===== src/Engine/Heartbeat/Routing.antt =====
-- heartbeat.py: the entries that a platform event adds to the trigger stream.
use agentcompany.Prelude.{
  ◌≡◌, refl, List, String, Option, or_else, Bool, ◌∷◌, map, if◌then◌else◌, [], false, some, ap, ◌∙◌,
  length, sym, Bool-cases, inl, inr, ◌+◌, arith, true, subst, Member, not,
}
use mathlib.Core.List.{◌++◌, append-nil, append_assoc}
use agentcompany.Engine.Heartbeat.Events.{given, StoredAgent, StoredFilter}
use agentcompany.Engine.Heartbeat.Service.{
  HeartbeatService, route, route_all, handle_platform_event, selects,
}
use agentcompany.Json.{Fields, get, str, obj, truthy}
use agentcompany.Exec.{ok, raise, Error, bind_of_raise, lift, bind_of_ok, raise_if_passes}
use agentcompany.Exec.Hoare.{
  Triple, triple_bind, triple_weaken, triple_ok, triple_known, triple_pure, triple_fact, returns,
  triple_guard, triple_raise, triple_absurd, raises,
}
use agentcompany.Engine.Heartbeat.Stream.{KeepsStream, receivers, Sent, enqueue_trigger-Sent}
use agentcompany.Engine.Heartbeat.Filters.{selects_invalid}

module _ {W : Type 0} (service : HeartbeatService W) where
  open service use {py, re, encode}

  -- The event can be written: its type and source as texts, and the whole of it as JSON.
  pub record Writable (event : Fields) : Type 0 where
    pub trigger_type : String
    pub source : String
    pub payload : String
    pub type_ok : encode (or_else (get "type" event) (str "platform_event")) ≡ ok trigger_type
    pub source_ok : encode (or_else (get "source" event) (str "unknown")) ≡ ok source
    pub payload_ok : py.dumps (obj event) ≡ ok payload

  -- The agent's stored filter accepts the event.
  unfoldable pub wakes : Fields → StoredAgent → Bool
  wakes event agent = elim (selects service event agent) [ ok b ↦ b | raise _ ↦ false ]

  -- The agents that an event wakes, in order.
  abbrev pub woken : Fields → List StoredAgent → List String
  woken event [] = []
  woken event (agent ∷ agents) =
      let rest = woken event agents in if wakes event agent then agent.agent_id ∷ rest else rest

  -- Every stored filter can be read and compared with the event.
  abbrev pub AllAnswer : Fields → List StoredAgent → Type 0
  AllAnswer event [] = Unit
  AllAnswer event (agent ∷ agents) =
      ((b : Bool) × (selects service event agent ≡ ok b)) × AllAnswer event agents

  module _ (lawful : KeepsStream service) (event : Fields) (writable : Writable event) where
    open lawful use {entries}

    -- What an agent adds.
    abbrev called : StoredAgent → List (Option String)
    called agent = if wakes event agent then some agent.agent_id ∷ [] else []

    wakes-selects :
        (agent : StoredAgent) {b : Bool}
        → selects service event agent ≡ ok b
        → wakes event agent ≡ b
    unfolding wakes
    wakes-selects agent e = rw (e, wakes) refl

    route-Sent :
        {rs : List (Option String)} {X : W → Type 0} (agent : StoredAgent) (b : Bool)
        → selects service event agent ≡ ok b
        → Triple
            (Sent service lawful rs)
            (route service event agent)
            (λ n w. (n ≡ length (called agent)) × Sent service lawful (rs ++ called agent) w)
            X
    unfolding route
    route-Sent {rs} agent true e = rw (wakes-selects agent e) (
        triple_known _ e (
          triple_known _ writable.type_ok (
            triple_known _ writable.source_ok (
              triple_bind _ _
                (enqueue_trigger-Sent service lawful writable.payload_ok agent.agent_id _ _)
                (λ _. triple_pure 1 (λ s h. (refl, h)))))))
    route-Sent {rs} agent false e =
        rw (wakes-selects agent e)
          (triple_known _ e (triple_pure 0 (λ s h. (refl, rw h (sym (append-nil rs))))))

    -- The first agent's entry and those of the others.
    called_first :
        (agent : StoredAgent) (agents : List StoredAgent) (rs : List (Option String))
        → (length (called agent) + length (woken event agents)
            ≡ length (woken event (agent ∷ agents)))
          × ((rs ++ called agent) ++ map some (woken event agents)
              ≡ rs ++ map some (woken event (agent ∷ agents)))
    called_first agent agents rs = elim (Bool-cases (wakes event agent)) [
      | inl t ↦ rw t (omega arith, append_assoc rs _ _)
      | inr t ↦ rw t (omega arith, append_assoc rs _ _)
    ]

    route_all-Sent :
        {X : W → Type 0} (agents : List StoredAgent) {rs : List (Option String)}
        → AllAnswer event agents
        → Triple
            (Sent service lawful rs)
            (route_all service event agents)
            (λ n w.
              (n ≡ length (woken event agents))
              × Sent service lawful (rs ++ map some (woken event agents)) w)
            X
    unfolding route_all
    route_all-Sent [] {rs} c = triple_pure 0 (λ s h. (refl, rw h (sym (append-nil rs))))
    route_all-Sent (agent ∷ agents) {rs} ((b, c), cs) = triple_bind _ _ (route-Sent agent b c) (λ n.
        triple_fact (λ e. triple_bind _ _ (route_all-Sent agents cs) (λ m.
          triple_pure (n + m) (λ s h.
            let both = called_first agent agents rs in (rw (e, h.0) both.0, h.1 ∙ both.1)))))

    handle-Sent :
        (agents : List StoredAgent) (w : W)
        → truthy (obj event) ≡ true
        → service.list_active_event_triggered w ≡ (ok agents, w)
        → AllAnswer event agents
        → Triple
            (λ s. s ≡ w)
            (handle_platform_event service event)
            (λ n s.
              (n ≡ length (woken event agents))
              × Sent service lawful
                  (receivers service (entries w) ++ map some (woken event agents))
                  s)
            (λ _. ⊥)
    unfolding handle_platform_event
    handle-Sent agents w some_event listed c =
        triple_bind _ _ (triple_guard _ _ (rw some_event refl)) (λ _.
          triple_bind _ _ (triple_ok {Q = λ a s. (a ≡ agents) × (s ≡ w)} _ (λ s h. at_start s h))
            (λ a. triple_fact (λ e.
              subst
                (λ l.
                  Triple (λ s. s ≡ w) (route_all service event l)
                    (λ n s.
                      (n ≡ length (woken event agents))
                      × Sent service lawful
                          (receivers service (entries w) ++ map some (woken event agents)) s)
                    (λ _. ⊥))
                (sym e)
                (triple_weaken (λ s h. ap (λ v. receivers service (entries v)) h) (λ n s h. h)
                  (λ s h. h) (route_all-Sent agents c)))))
      where
        at_start :
            (s : W)
            → s ≡ w
            → (a : List StoredAgent) × ((service.list_active_event_triggered s).0 ≡ ok a)
              × ((a ≡ agents) × ((service.list_active_event_triggered s).1 ≡ w))
        at_start s h = rw (h, listed) (agents, refl, (refl, refl))

    -- Where every agent's stored filter can be read and compared with the event, and the event is not
    -- empty and can be written, it adds one entry to the trigger stream for each agent whose filter
    -- accepts it, in the order of the agents, and none else, and the call returns their number;
    -- Redis and the repository answer.
    pub handle_platform_event_lem :
        (agents : List StoredAgent) (w : W)
        → truthy (obj event) ≡ true
        → service.list_active_event_triggered w ≡ (ok agents, w)
        → AllAnswer event agents
        → ((handle_platform_event service event w).0 ≡ ok (length (woken event agents)))
          × (receivers service (entries (handle_platform_event service event w).1)
              ≡ receivers service (entries w) ++ map some (woken event agents))
    handle_platform_event_lem agents w some_event listed c =
        let x = returns _ _ ((handle-Sent agents w some_event listed c).at w refl) in
        (x.1 ∙ ap ok x.2.0, x.2.1)

    -- An agent whose filter cannot be read, after others.
    route_all_stops :
        (before after : List StoredAgent) (agent : StoredAgent) (e : Error)
        {rs : List (Option String)}
        → AllAnswer event before
        → selects service event agent ≡ raise e
        → Triple
            (Sent service lawful rs)
            (route_all service event (before ++ agent ∷ after))
            (λ _ _. ⊥)
            (Sent service lawful (rs ++ map some (woken event before)))
    unfolding route_all route lift
    route_all_stops [] after agent e {rs} c bad =
        triple_raise _ _ (λ s h.
          (e, s, bind_of_raise (lift _) _ (ap (λ r. (r, s)) bad), rw h (sym (append-nil rs))))
    route_all_stops (first ∷ before) after agent e {rs} ((b, c), cs) bad =
        triple_bind _ _ (route-Sent first b c) (λ n. triple_fact (λ _.
          triple_bind _ _
            (triple_weaken (λ s h. h) (λ m s h. h) (λ s h. h ∙ (called_first first before rs).1)
              (route_all_stops before after agent e cs bad))
            (λ m. triple_absurd (λ s h. h))))

    -- A stored filter with a pattern that does not compile ends the routing of an event, which is not
    -- empty and can be written: the agents before it are woken as their filters say, the call raises,
    -- and no agent after it is woken. Redis and the repository answer.
    pub invalid_filter_stops :
        (before after : List StoredAgent) (agent : StoredAgent) (stored : StoredFilter)
        (patterns : List String) (pattern why : String) (w : W)
        → truthy (obj event) ≡ true
        → service.list_active_event_triggered w ≡ (ok (before ++ agent ∷ after), w)
        → AllAnswer event before
        → agent.filter ≡ some stored
        → stored.content_patterns ≡ given patterns
        → Member pattern patterns
        → re.compile_error pattern ≡ some why
        → (e : Error) × ((handle_platform_event service event w).0 ≡ raise e)
          × (receivers service (entries (handle_platform_event service event w).1)
              ≡ receivers service (entries w) ++ map some (woken event before))
    unfolding handle_platform_event
    invalid_filter_stops before after agent stored patterns pattern why w some_event listed answers
          filtered has_patterns found broken =
        let (e, bad) = selects_invalid service event agent filtered has_patterns found broken in
        let stops = route_all_stops before after agent e answers bad in
        rw path (raises _ _ (stops.at w refl))
      where
        not_empty : not (truthy (obj event)) ≡ false
        not_empty = rw some_event refl

        path :
            handle_platform_event service event w
            ≡ route_all service event (before ++ agent ∷ after) w
        path =
            bind_of_ok _ _ (raise_if_passes _ _ w not_empty)
            ∙ bind_of_ok _ (route_all service event) listed
