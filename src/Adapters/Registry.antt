-- ===== src/Adapters/Registry.antt =====
-- services/agent-runtime/app/adapters/registry.py: the live adapters of all companies. The classes
-- of the adapters are given; the lock makes each change one step.
pub mod Refinement
use Prim.Native.String.{◌++◌}
use agentcompany.Prelude.{
  String, Option, Bool, List, none, some, [], ◌∷◌, if◌then◌else◌, ◌==◌, ◌&&◌, is_empty, is_some,
  false,
}
use agentcompany.Exec.{
  Exec, raise_if, value_error, otherwise, pure, throw, foreign, Result, ok, ◌>>=◌, ◌>>◌, raise,
}
use agentcompany.Json.{Fields}

-- `construct` is the class of a tool name with its `initialize`; none for an unknown name.
pub record AdapterClasses (A W : Type 0) : Type 0 where
  pub construct : String → Option (Fields → Exec W A)
  pub shutdown : A → Exec W Unit
  pub health_check : A → Exec W Bool
  pub known : String

-- The registry, in insertion order, beside the world.
abbrev pub Adapters : Type 0 → Type 0
Adapters A = List ((String × String) × A)

pub record AdapterRegistry (A W : Type 0) : Type 0 where
  pub adapters : Adapters A
  pub world : W

-- `==` of keys.
abbrev pub same_key : String × String → String × String → Bool
same_key (a, b) (c, d) = a == c && b == d

module _ {A : Type 0} where
  abbrev pub find : String × String → Adapters A → Option A
  find k [] = none
  find k ((j, a) ∷ rest) = if same_key j k then some a else find k rest

  abbrev pub assign : String × String → A → Adapters A → Adapters A
  assign k a [] = (k, a) ∷ []
  assign k a ((j, b) ∷ rest) = if same_key j k then (k, a) ∷ rest else (j, b) ∷ assign k a rest

  abbrev pub remove : String × String → Adapters A → Adapters A
  remove k [] = []
  remove k ((j, b) ∷ rest) =
      let others = remove k rest in if same_key j k then others else (j, b) ∷ others

  unfoldable pub get_optional : String → String → Adapters A → Option A
  get_optional company_id tool adapters = find (company_id, tool) adapters

  unfoldable pub is_registered : String → String → Adapters A → Bool
  is_registered company_id tool adapters = is_some (find (company_id, tool) adapters)

  unfoldable pub registered_tools : String → Adapters A → List String
  registered_tools company_id [] = []
  registered_tools company_id (((c, t), a) ∷ rest) =
      let others = registered_tools company_id rest in
      if c == company_id then t ∷ others else others

  -- `get`: an AdapterError where there is none.
  unfoldable pub get : String → String → Adapters A → Result A
  get company_id tool adapters = elim (find (company_id, tool) adapters) [
    | some a ↦ ok a
    | none ↦ raise (foreign "AdapterError")
  ]

module _ {A W : Type 0} (classes : AdapterClasses A W) where
  open classes use {construct, shutdown, health_check, known}

  abbrev in_world : {B : Type 0} → Exec W B → Exec (AdapterRegistry A W) B
  in_world m r = let (x, w) = m r.world in (x, record r { world = w })

  -- `_safe_shutdown`
  unfoldable pub safe_shutdown : A → Exec W Unit
  safe_shutdown a = otherwise (shutdown a) tt

  abbrev replaced : Option A → Exec W Unit
  replaced none = pure tt
  replaced (some a) = safe_shutdown a

  -- What happens under the lock.
  unfoldable pub put_adapter : String → String → A → Exec (AdapterRegistry A W) Unit
  put_adapter company_id tool a = do
    λ r. in_world (replaced (find (company_id, tool) r.adapters)) r
    λ r. (ok tt, record r { adapters = assign (company_id, tool) a r.adapters })

  -- `register` of a tool's class.
  unfoldable pub register_class :
      String → String → Fields → Option (Fields → Exec W A) → Exec (AdapterRegistry A W) A
  register_class company_id tool config none =
      throw
        (value_error ("Unknown adapter type: '" ++ (tool ++ ("'. Registered adapters: " ++ known))))
  register_class company_id tool config (some initialize) = do
    adapter ← in_world (initialize config)
    put_adapter company_id tool adapter
    pure adapter

  unfoldable pub register : String → String → Fields → Exec (AdapterRegistry A W) A
  register company_id tool config = do
    raise_if (is_empty company_id) (value_error "company_id must not be empty")
    raise_if (is_empty tool) (value_error "tool name must not be empty")
    register_class company_id tool config (construct tool)

  unfoldable pub deregister : String → String → Exec (AdapterRegistry A W) Unit
  deregister company_id tool r =
      let (x, w) = replaced (find (company_id, tool) r.adapters) r.world in
      (x, record { adapters = remove (company_id, tool) r.adapters; world = w })

  -- The labels and the answers: an adapter whose check raises is not healthy.
  abbrev check_all : Adapters A → Exec W (List (String × Bool))
  check_all [] = pure []
  check_all (((c, t), a) ∷ rest) = do
    healthy ← otherwise (health_check a) false
    others ← check_all rest
    pure ((c ++ ("/" ++ t), healthy) ∷ others)

  -- The checks are concurrent; here they follow each other.
  unfoldable pub health_check_all : Exec (AdapterRegistry A W) (List (String × Bool))
  health_check_all r = in_world (check_all r.adapters) r

  abbrev shut_all : Adapters A → Exec W Unit
  shut_all [] = pure tt
  shut_all ((k, a) ∷ rest) = do safe_shutdown a; shut_all rest

  unfoldable pub shutdown_all : Exec (AdapterRegistry A W) Unit
  shutdown_all r =
      let (x, w) = shut_all r.adapters r.world in (x, record { adapters = []; world = w })
