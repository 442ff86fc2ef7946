-- ===== src/Engine/ToolRegistry/Access.antt =====
-- Which tools a role is offered, and which calls are executed.
use agentcompany.Prelude.{
  ◌∷◌, [], ◌≡◌, List, String, ◌↔◌, true, if◌then◌else◌, some, Bool-cases, ◌⊎◌, inl, arith, inr,
  Option-cases, refl, Member, ap, ◌∙◌, sym, subst, Bool, eq_iff, is_empty, ◌==◌,
}
use agentcompany.Engine.ToolRegistry.{
  AgentTool, ToolRegistry, ToolExecutionResult, get_tool, accessible, accessible_tools, execute,
  finish_call, failed_call, output_text, among_images, get_tools_for_role,
}
use agentcompany.Json.{Builtins, Json, Fields, str}
use agentcompany.Exec.{ok, Error, ◌>>=◌, raise, type_error, value_error, Result, lift, ok_inj}
use Prim.Native.String.{◌++◌}

module _ (py : Builtins) (role : String) where
  among_images→ :
      (roles : List String)
      → among_images py.lower roles (py.lower role) ≡ true
      → (r : String) × Member r roles × (py.lower r ≡ py.lower role)
  among_images→ [] h = cc
  among_images→ (r ∷ rs) h = elim (Bool-cases (py.lower r == py.lower role)) [
    | inl e ↦ (r, inl refl, (eq_iff (py.lower r) (py.lower role)).0 e)
    | inr e ↦ let (q, found, same) = among_images→ rs (rw e at h) in (q, inr found, same)
  ]

  among_images← :
      (roles : List String) (r : String)
      → Member r roles
      → py.lower r ≡ py.lower role
      → among_images py.lower roles (py.lower role) ≡ true
  among_images← [] r m e = absurd m
  among_images← (q ∷ rs) r (inl p) e =
      rw ((eq_iff (py.lower q) (py.lower role)).1 (ap py.lower (sym p) ∙ e)) refl
  among_images← (q ∷ rs) r (inr m) e = rw (among_images← rs r m e) (ground arith)

module _ {W : Type 0} (py : Builtins) (role : String) where
  offered→ :
      (tool : AgentTool W) (registry : ToolRegistry W)
      → Member tool (accessible_tools py role registry)
      → (name : String) × Member (name, tool) registry × (accessible py role tool ≡ true)
  unfolding accessible_tools
  offered→ tool [] m = absurd m
  offered→ tool ((name, t) ∷ rest) m =
      let ih = offered→ tool rest in
      elim (Bool-cases (accessible py role t)) [
        | inl granted ↦
            first granted (subst (λ b. Member tool (if b then t ∷ others else others)) granted m) ih
        | inr denied ↦
            later (ih (subst (λ b. Member tool (if b then t ∷ others else others)) denied m))
      ]
    where
      others : List (AgentTool W)
      others = accessible_tools py role rest

      Offered : ToolRegistry W → Type 0
      Offered r = (n : String) × Member (n, tool) r × (accessible py role tool ≡ true)

      later : Offered rest → Offered ((name, t) ∷ rest)
      later (n, found, granted) = (n, inr found, granted)

      first :
          accessible py role t ≡ true
          → Member tool (t ∷ others)
          → (Member tool others → Offered rest)
          → Offered ((name, t) ∷ rest)
      first granted (inl p) ih =
          (name, inl (ap (λ x. (name, x)) p), ap (accessible py role) p ∙ granted)
      first granted (inr m') ih = later (ih m')

  offered← :
      (tool : AgentTool W) (registry : ToolRegistry W) (name : String)
      → Member (name, tool) registry
      → accessible py role tool ≡ true
      → Member tool (accessible_tools py role registry)
  unfolding accessible_tools
  offered← tool [] name m granted = absurd m
  offered← tool ((n, t) ∷ rest) name (inl p) granted =
      let e : tool ≡ t = ap (λ (x : String × AgentTool W). x.1) p in
      rw (sym (ap (accessible py role) e) ∙ granted) (inl e)
  offered← tool ((n, t) ∷ rest) name (inr m) granted = elim (Bool-cases (accessible py role t)) [
    | inl yes_too ↦ rw yes_too (inr (offered← tool rest name m granted))
    | inr denied ↦ rw denied (offered← tool rest name m granted)
  ]

  -- What the documentation of the registry says of a tool and a role.
  abbrev pub IsOffered : AgentTool W → Type 0
  IsOffered tool =
      (tool.required_roles ≡ [])
      ⊎ ((r : String) × Member r tool.required_roles × (py.lower r ≡ py.lower role))

  accessible→ : (tool : AgentTool W) → accessible py role tool ≡ true → IsOffered tool
  unfolding accessible
  accessible→ tool h = go tool.required_roles h
    where
      go :
          (roles : List String)
          → (elim roles as (λ _. Bool) [
            | [] ↦ true
            | r ∷ rs ↦ among_images py.lower (r ∷ rs) (py.lower role)
          ])
            ≡ true
          → (roles ≡ []) ⊎ ((r : String) × Member r roles × (py.lower r ≡ py.lower role))
      go [] h = inl refl
      go (r ∷ rs) h = inr (among_images→ py role (r ∷ rs) h)

  accessible← : (tool : AgentTool W) → IsOffered tool → accessible py role tool ≡ true
  unfolding accessible
  accessible← tool h = go tool.required_roles h
    where
      go :
          (roles : List String)
          → (roles ≡ []) ⊎ ((r : String) × Member r roles × (py.lower r ≡ py.lower role))
          → (elim roles as (λ _. Bool) [
            | [] ↦ true
            | r ∷ rs ↦ among_images py.lower (r ∷ rs) (py.lower role)
          ])
            ≡ true
      go [] h = refl
      go (r ∷ rs) (inl e) = cc
      go (r ∷ rs) (inr (q, m, e)) = among_images← py role (r ∷ rs) q m e

  -- The tools that a role gets are exactly the registered ones that require no role or, letter case
  -- aside, that one among others.
  pub get_tools_for_role_iff :
      (tool : AgentTool W) (registry : ToolRegistry W) (tools : List (AgentTool W))
      → get_tools_for_role py role registry ≡ ok tools
      → Member tool tools ↔ ((name : String) × Member (name, tool) registry × IsOffered tool)
  unfolding get_tools_for_role
  get_tools_for_role_iff tool registry tools h = elim (Bool-cases (is_empty role)) [
    | inl e ↦ cc (rw e at h)
    | inr e ↦
        let same : accessible_tools py role registry ≡ tools = ok_inj (rw e at h) in
        (
          (λ m.
              let (name, found, granted) =
                offered→ tool registry (subst (λ l. Member tool l) (sym same) m) in
              (name, found, accessible→ tool granted)),
          (λ (name, found, granted).
              subst (λ l. Member tool l) same
                (offered← tool registry name found (accessible← tool granted))),
        )
  ]

module _ {W : Type 0} (py : Builtins) (describe : Error → String) (registry : ToolRegistry W) where
  -- Serialising an output ends in a text, under the same condition on `json.dumps`.
  output_total :
      ((v : Json) (e : Error)
        → py.dumps v ≡ raise e
        → (e ≡ type_error) ⊎ ((s : String) × (e ≡ value_error s)))
      → (v : Json) → (s : String) × (output_text py v ≡ ok s)
  unfolding output_text
  output_total dumps (str s) = (s, refl)
  output_total dumps v = go (py.dumps v) refl
    where
      go :
          (r : Result String)
          → py.dumps v ≡ r
          → (s : String) × ((elim (py.dumps v) [
            | ok s ↦ ok s
            | raise type_error ↦ ok (py.text_of v)
            | raise (value_error _) ↦ ok (py.text_of v)
            | raise e ↦ raise e
          ])
              ≡ ok s)
      go (ok s) h = (s, rw h refl)
      go (raise e) h = elim (dumps v e h) [
        | inl p ↦ (py.text_of v, rw (h, p) refl)
        | inr (t, p) ↦ (py.text_of v, rw (h, p) refl)
      ]

  finish_answers :
      ((v : Json) (e : Error)
        → py.dumps v ≡ raise e
        → (e ≡ type_error) ⊎ ((s : String) × (e ≡ value_error s)))
      → (name id : String) (r : Result Json) (w : W)
      → (x : ToolExecutionResult) × ((finish_call py describe name id r w).0 ≡ ok x)
        × (x.tool_name ≡ name)
        × (x.call_id ≡ id)
        × ((x.success ≡ true) ↔ ((v : Json) × (r ≡ ok v)))
  unfolding finish_call ◌>>=◌
  finish_answers dumps name id (raise e) w = (_, refl, refl, refl, ((λ h. cc), (λ (v, h). cc)))
  finish_answers dumps name id (ok v) w =
      let (output, e) = output_total dumps v in
      (
        record { tool_name = name; call_id = id; output = output; success = true },
        rw (e, lift) refl,
        refl,
        refl,
        ((λ _. (v, refl)), (λ _. refl)),
      )

  -- If `json.dumps` raises nothing but a TypeError or a ValueError, a call always returns a result,
  -- also for an unknown tool and for a handler that raises; it carries the call's tool name and id,
  -- and it is a success exactly when the tool is registered and its handler returned.
  pub execute_answers :
      ((v : Json) (e : Error)
        → py.dumps v ≡ raise e
        → (e ≡ type_error) ⊎ ((s : String) × (e ≡ value_error s)))
      → (name id : String) (arguments : Fields) (w : W)
      → (r : ToolExecutionResult) × ((execute py describe registry name arguments id w).0 ≡ ok r)
        × (r.tool_name ≡ name)
        × (r.call_id ≡ id)
        × ((r.success ≡ true) ↔ (
            (tool : AgentTool W) × (v : Json) × (get_tool name registry ≡ some tool)
            × ((tool.handler arguments w).0 ≡ ok v)))
  unfolding execute ◌>>=◌
  execute_answers dumps name id arguments w = elim (Option-cases (get_tool name registry)) [
    | inl unknown ↦ (
      failed_call name id ("Error: tool '" ++ (name ++ "' is not available.")),
      rw (unknown, execute) refl,
      refl,
      refl,
      ((λ e. cc), (λ (tool, v, e, _). cc (unknown, e))),
    )
    | inr (tool, known) ↦
        let (r, w') = tool.handler arguments w in
        let (x, done, named, numbered, back) = finish_answers dumps name id r w' in
        (
          x,
          rw (known, execute) done,
          named,
          numbered,
          (
            (λ h. let (v, e) = back.0 h in (tool, v, known, e)),
            (λ (t, v, e, h).
                let same : tool ≡ t = cc (known, e) in
                back.1 (v, ap (λ (u : AgentTool W). (u.handler arguments w).0) same ∙ h)),
          ),
        )
  ]
