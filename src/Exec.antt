-- ===== src/Exec.antt =====
-- Calls that change a world and may raise: Python's `async def` methods, with the exceptions of
-- app/engine and of the libraries as values. What was done before a raise stays done.
use agentcompany.Prelude.{ℕ, ◌≡◌, refl, Bool, String, if◌then◌else◌, ap, false, true}
pub mod States
pub mod Hoare
use States.{AgentState}

-- `foreign` is any exception that comes from a library or a service; `http_exception` is an answer of
-- the API, by its status code and its detail.
pub data Error : Type 0 where
  value_error : String → Error
  key_error : String → Error
  type_error : Error
  unicode_error : Error
  invalid_transition : String → AgentState → AgentState → Error
  engine_error : String → Error
  foreign : String → Error
  http_exception : ℕ → String → Error
  auth_error : String → Error

pub data Result {ℓ} (A : Type ℓ) : Type ℓ where
  ok : A → Result A
  raise : Error → Result A

abbrev pub Exec {ℓ} : Type ℓ → Type ℓ → Type ℓ
Exec S A = S → Result A × S

module _ {ℓ} {S A : Type ℓ} where
  unfoldable pub pure : A → Exec S A
  pure a s = (ok a, s)

  unfoldable pub throw : Error → Exec S A
  throw e s = (raise e, s)

  unfoldable pub lift : Result A → Exec S A
  lift r s = (r, s)

  -- A call that cannot raise.
  unfoldable pub total : (S → A × S) → Exec S A
  total m s = let (a, s') = m s in (ok a, s')

  -- `try: m` with `except Exception: return a`.
  unfoldable pub otherwise : Exec S A → A → Exec S A
  otherwise m a s = let (r, s') = m s in elim r [ ok b ↦ (ok b, s') | raise e ↦ (ok a, s') ]

-- `if test: raise e`.
unfoldable pub raise_if {ℓ} : {S : Type ℓ} → Bool → Error → Exec S Unit
raise_if b e s = (if b then raise e else ok tt, s)

module _ {ℓ} {S A B : Type ℓ} where
  infixl 5 ◌>>=◌ ◌>>◌
  -- Opening this opens what a block is built of.
  unfoldable pub ◌>>=◌ : Exec S A → (A → Exec S B) → Exec S B
  unfolding pure throw lift total otherwise raise_if
  ◌>>=◌ m f s = let (r, s') = m s in elim r [ ok a ↦ f a s' | raise e ↦ (raise e, s') ]

  abbrev pub ◌>>◌ : Exec S A → Exec S B → Exec S B
  m >> k = m >>= λ _. k

-- `otherwise` never raises, and keeps what was done.
pub otherwise_state {ℓ} :
    {S A : Type ℓ} (m : Exec S A) (a : A) (s : S) → (otherwise m a s).1 ≡ (m s).1
unfolding otherwise
otherwise_state {S = S} {A = A} m a s = go (m s)
  where
    go :
        (x : Result A × S)
        → (elim x.0 as (λ _. Result A × S) [ ok b ↦ (ok b, x.1) | raise e ↦ (ok a, x.1) ]).1 ≡ x.1
    go (ok b, s') = refl
    go (raise e, s') = refl

pub otherwise_tt : {S : Type 0} (m : Exec S Unit) (s : S) → (otherwise m tt s).0 ≡ ok tt
unfolding otherwise
otherwise_tt {S = S} m s = go (m s)
  where
    go :
        (x : Result (Unit {0}) × S)
        → (elim x.0 as (λ _. Result (Unit {0}) × S) [
          | ok b ↦ (ok b, x.1)
          | raise e ↦ (ok tt, x.1)
        ]).0
          ≡ ok tt
    go (ok b, s') = refl
    go (raise e, s') = refl

-- Both together.
pub otherwise_unit : {S : Type 0} (m : Exec S Unit) (s : S) → otherwise m tt s ≡ (ok tt, (m s).1)
unfolding otherwise
otherwise_unit {S = S} m s = go (m s)
  where
    go :
        (x : Result (Unit {0}) × S)
        → (elim x.0 as (λ _. Result (Unit {0}) × S) [ ok b ↦ (ok b, x.1) | raise e ↦ (ok tt, x.1) ])
          ≡ (ok tt, x.1)
    go (ok b, s') = refl
    go (raise e, s') = refl

pub otherwise_of_ok :
    {S A : Type 0} (m : Exec S A) (b : A) {s s' : S} {a : A}
    → m s ≡ (ok a, s')
    → otherwise m b s ≡ (ok a, s')
unfolding otherwise
otherwise_of_ok {S} {A} m b e =
    ap
      (λ (x : Result A × S). elim x.0 as (λ _. Result A × S) [
        | ok c ↦ (ok c, x.1)
        | raise y ↦ (ok b, x.1)
      ])
      e

module _ {ℓ} {S A B : Type ℓ} where
  -- A call that returns goes on, and one that raises ends the block.
  pub bind_of_ok :
      (m : Exec S A) (f : A → Exec S B) {s s' : S} {a : A} → m s ≡ (ok a, s') → (m >>= f) s ≡ f a s'
  unfolding ◌>>=◌
  bind_of_ok m f {a = a} e = rw (e, ◌>>=◌) (ap (λ (x : Result A × S). f a x.1) e)

  pub bind_of_raise :
      (m : Exec S A) (f : A → Exec S B) {s s' : S} {x : Error}
      → m s ≡ (raise x, s')
      → (m >>= f) s ≡ (raise x, s')
  unfolding ◌>>=◌
  bind_of_raise m f {x = x} e = rw (e, ◌>>=◌) (ap (λ (y : Result A × S). (raise x, y.1)) e)

  -- A block that returns has had its first call return.
  pub bind_inversion :
      (m : Exec S A) (f : A → Exec S B) (s : S) {b : B}
      → ((m >>= f) s).0 ≡ ok b
      → (a : A) × ((m s).0 ≡ ok a) × ((f a (m s).1).0 ≡ ok b)
  unfolding ◌>>=◌
  bind_inversion m f s {b} h = go (m s) h
    where
      go :
          (x : Result A × S)
          → (elim x.0 as (λ _. Result B × S) [ ok a ↦ f a x.1 | raise e ↦ (raise e, x.1) ]).0 ≡ ok b
          → (a : A) × (x.0 ≡ ok a) × ((f a x.1).0 ≡ ok b)
      go (ok a, s') h = (a, refl, h)
      go (raise e, s') h = cc

-- `raise_if` returns only where the test fails, and changes nothing.
pub raise_if_inversion :
    {S : Type 0} (t : Bool) (e : Error) (s : S) {u : Unit} → (raise_if t e s).0 ≡ ok u → t ≡ false
unfolding raise_if
raise_if_inversion true e s h = cc
raise_if_inversion false e s h = refl

pub lift_inversion {ℓ} :
    {S A : Type ℓ} (r : Result A) (s : S) {a : A} → (lift r s).0 ≡ ok a → r ≡ ok a
unfolding lift
lift_inversion r s h = h

pub pure_inversion {ℓ} : {S A : Type ℓ} (a : A) (s : S) {b : A} → (pure a s).0 ≡ ok b → a ≡ b
unfolding pure
pure_inversion a s h = cc

pub ok_inj {ℓ} : {A : Type ℓ} {a b : A} → ok a ≡ ok b → a ≡ b
ok_inj h = cc

pub raise_if_passes :
    {S : Type 0} (t : Bool) (e : Error) (s : S) → t ≡ false → raise_if t e s ≡ (ok tt, s)
unfolding raise_if
raise_if_passes t e s h = rw h refl

pub raise_if_stops :
    {S : Type 0} (t : Bool) (e : Error) (s : S) → t ≡ true → raise_if t e s ≡ (raise e, s)
unfolding raise_if
raise_if_stops t e s h = rw h refl
