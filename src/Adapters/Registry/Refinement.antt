-- ===== src/Adapters/Registry/Refinement.antt =====
-- adapters/registry.py: the registry as a map from companies and tool names to adapters.
use mathlib.Core.Path.{fun_ext}
use agentcompany.Prelude.{
  ◌≡◌, refl, String, Option, none, some, List, [], ◌∷◌, if◌then◌else◌, arith, eq_iff, Bool, ap, ◌∙◌,
  subst, sym,
}
use agentcompany.Adapters.Registry.{
  AdapterClasses, AdapterRegistry, Adapters, find, assign, remove, same_key, get_optional, register,
  deregister, shutdown_all, put_adapter, in_world, register_class, health_check_all,
}
use agentcompany.Exec.{ok, raise, Error, Result, Exec, raise_if, throw}
use agentcompany.Exec.Hoare.{
  Triple, Keeps, triple_bind, triple_weaken, keeps_bind, triple_state, triple_pure, Holds,
}
use agentcompany.Json.{Fields}

-- What the registry means: the adapter of a company and a tool.
abbrev pub View : Type 0 → Type 0
View A = String → String → Option A

-- What an operation does to the view.
pub data Change (A : Type 0) : Type 0 where
  assigned : String → String → A → Change A
  removed : String → String → Change A
  cleared : Change A
  unchanged : Change A

unfoldable pub apply : {A : Type 0} → Change A → View A → View A
apply (assigned c t a) v d u = if same_key (c, t) (d, u) then some a else v d u
apply (removed c t) v d u = if same_key (c, t) (d, u) then none else v d u
apply cleared v d u = none
apply unchanged v d u = v d u

module _ {A : Type 0} where
  find-assign :
      (c t d u : String) (a : A) (adapters : Adapters A)
      → find (d, u) (assign (c, t) a adapters)
        ≡ (if same_key (c, t) (d, u) then some a else find (d, u) adapters)
  find-assign c t d u a [] = refl
  find-assign c t d u a (((i, j), b) ∷ rest) = ground (
    arith,
    eq_iff i c,
    eq_iff j t,
    eq_iff i d,
    eq_iff j u,
    eq_iff c d,
    eq_iff t u,
    find-assign c t d u a rest,
  )

  find-remove :
      (c t d u : String) (adapters : Adapters A)
      → find (d, u) (remove (c, t) adapters)
        ≡ (if same_key (c, t) (d, u) then none else find (d, u) adapters)
  find-remove c t d u [] = ground arith
  find-remove c t d u (((i, j), b) ∷ rest) = ground (
    arith,
    eq_iff i c,
    eq_iff j t,
    eq_iff i d,
    eq_iff j u,
    eq_iff c d,
    eq_iff t u,
    find-remove c t d u rest,
  )

module _ {A W : Type 0} (classes : AdapterClasses A W) where
  -- The adapters, whatever the world.
  abbrev Holding : Adapters A → AdapterRegistry A W → Type 0
  Holding adapters r = r.adapters ≡ adapters

  in_world-Keeps :
      {B : Type 0} (adapters : Adapters A) (m : Exec W B)
      → Keeps (Holding adapters) (λ r. in_world classes m r)
  in_world-Keeps adapters m = triple_state _ (λ r h. h)

  put_adapter-Holding :
      {X : AdapterRegistry A W → Type 0} (c t : String) (a : A) (adapters : Adapters A)
      → ((r : AdapterRegistry A W) → Holding adapters r → X r)
      → Triple
          (Holding adapters)
          (put_adapter classes c t a)
          (λ _. Holding (assign (c, t) a adapters))
          X
  unfolding put_adapter
  put_adapter-Holding c t a adapters x =
      triple_bind {R = λ _. Holding adapters} _ _
        (triple_weaken (λ r h. h) (λ a r h. h) x (triple_state _ (λ r h. h)))
        (λ _. record { at = λ r h. ap (assign (c, t) a) h })

  register_class-Holding :
      (c t : String) (config : Fields) (adapters : Adapters A) (o : Option (Fields → Exec W A))
      → Triple
          (Holding adapters)
          (register_class classes c t config o)
          (λ a. Holding (assign (c, t) a adapters))
          (Holding adapters)
  unfolding register_class throw
  register_class-Holding c t config adapters none = record { at = λ r h. h }
  register_class-Holding c t config adapters (some initialize) =
      keeps_bind _ _ (in_world-Keeps adapters (initialize config)) (λ a.
        triple_bind _ _ (put_adapter-Holding c t a adapters (λ r h. h))
          (λ _. triple_pure a (λ r h. h)))

  register-Holding :
      (c t : String) (config : Fields) (adapters : Adapters A)
      → Triple
          (Holding adapters)
          (register classes c t config)
          (λ a. Holding (assign (c, t) a adapters))
          (Holding adapters)
  unfolding register raise_if
  register-Holding c t config adapters = keeps_bind _ _ (triple_state _ (λ r h. h)) (λ _.
      keeps_bind _ _ (triple_state _ (λ r h. h))
        (λ _. register_class-Holding c t config adapters (classes.construct t)))

  -- The operations on a registry, with what each does to the view; they may return or raise.
  pub data Step : AdapterRegistry A W → Change A → AdapterRegistry A W → Type 0 where
    registers :
        {r s : AdapterRegistry A W} {c t : String} {a : A} (config : Fields)
        → register classes c t config r ≡ (ok a, s)
        → Step r (assigned c t a) s
    refuses :
        {r s : AdapterRegistry A W} {e : Error} (c t : String) (config : Fields)
        → register classes c t config r ≡ (raise e, s)
        → Step r unchanged s
    deregisters :
        {r s : AdapterRegistry A W} {c t : String} {x : Result (Unit {0})}
        → deregister classes c t r ≡ (x, s)
        → Step r (removed c t) s
    checks :
        {r s : AdapterRegistry A W} {x : Result (List (String × Bool))}
        → health_check_all classes r ≡ (x, s)
        → Step r unchanged s
    shuts :
        {r s : AdapterRegistry A W} {x : Result (Unit {0})}
        → shutdown_all classes r ≡ (x, s)
        → Step r cleared s

  pub data Steps : AdapterRegistry A W → List (Change A) → AdapterRegistry A W → Type 0 where
    done : {r : AdapterRegistry A W} → Steps r [] r
    and_then :
        {r s q : AdapterRegistry A W} {change : Change A} {changes : List (Change A)}
        → Step r change s
        → Steps s changes q
        → Steps r (change ∷ changes) q

  abbrev pub view : AdapterRegistry A W → View A
  view r c t = get_optional c t r.adapters

  -- What an operation leaves.
  abbrev left_by : Change A → Adapters A → Adapters A
  left_by (assigned c t a) adapters = assign (c, t) a adapters
  left_by (removed c t) adapters = remove (c, t) adapters
  left_by cleared adapters = []
  left_by unchanged adapters = adapters

  Step-left_by :
      {r s : AdapterRegistry A W} {change : Change A}
      → Step r change s
      → s.adapters ≡ left_by change r.adapters
  unfolding deregister health_check_all shutdown_all
  Step-left_by {r} (registers {c = c} {t = t} config e) =
      subst (Holds (λ a. Holding (assign (c, t) a r.adapters)) (Holding r.adapters)) e
        ((register-Holding c t config r.adapters).at r refl)
  Step-left_by {r} (refuses c t config e) =
      subst (Holds (λ a. Holding (assign (c, t) a r.adapters)) (Holding r.adapters)) e
        ((register-Holding c t config r.adapters).at r refl)
  Step-left_by (deregisters e) = sym (ap (λ x. x.1.adapters) e)
  Step-left_by (checks e) = sym (ap (λ x. x.1.adapters) e)
  Step-left_by (shuts e) = sym (ap (λ x. x.1.adapters) e)

  step_view :
      (change : Change A) (adapters : Adapters A) (d u : String)
      → get_optional d u (left_by change adapters)
        ≡ apply change (λ c t. get_optional c t adapters) d u
  unfolding apply get_optional
  step_view (assigned c t a) adapters d u = find-assign c t d u a adapters
  step_view (removed c t) adapters d u = find-remove c t d u adapters
  step_view cleared adapters d u = refl
  step_view unchanged adapters d u = refl

  abbrev pub apply_all : List (Change A) → View A → View A
  apply_all [] v = v
  apply_all (change ∷ changes) v = apply_all changes (apply change v)

  -- The registry implements a map from companies and tool names to adapters: after any sequence of
  -- its operations, an adapter is found exactly where the changes in order leave it. A registration
  -- that raises leaves the adapter that was there, and no operation touches other companies.
  pub registry_refines :
      {r s : AdapterRegistry A W} {changes : List (Change A)}
      → Steps r changes s
      → (company_id tool : String)
      → view s company_id tool ≡ apply_all changes (view r) company_id tool
  registry_refines done c t = refl
  registry_refines {r} (and_then {change = change} {changes = changes} step steps) c t =
      registry_refines steps c t
      ∙ ap (λ v. apply_all changes v c t)
          (fun_ext (λ d.
            fun_ext
              (λ u. ap (get_optional d u) (Step-left_by step) ∙ step_view change r.adapters d u)))
