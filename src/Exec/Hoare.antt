-- ===== src/Exec/Hoare.antt =====
-- Rules for what a call that starts in `P` ends in: `Q` where it returns, `X` where it raises.
use agentcompany.Prelude.{◌≡◌, Bool, if◌then◌else◌, true, false, refl, ap}
use agentcompany.Exec.{
  Exec, Result, pure, otherwise, ◌>>=◌, ok, raise, raise_if, Error, lift, total, bind_of_ok, ok_inj,
  bind_of_raise,
}

abbrev pub Holds : {S A : Type 0} → (A → S → Type 0) → (S → Type 0) → Result A × S → Type 0
Holds Q X (ok a, s) = Q a s
Holds Q X (raise e, s) = X s

pub record Triple {S A : Type 0} (P : S → Type 0) (m : Exec S A) (Q : A → S → Type 0)
    (X : S → Type 0) : Type 0 where
  pub at : (s : S) → P s → Holds Q X (m s)

-- The call keeps `P`, whether it returns or raises.
abbrev pub Keeps : {S A : Type 0} → (S → Type 0) → Exec S A → Type 0
Keeps P m = Triple P m (λ _. P) P

module _ {S A : Type 0} {P : S → Type 0} {X : S → Type 0} where
  pub triple_pure : {Q : A → S → Type 0} (a : A) → ((s : S) → P s → Q a s) → Triple P (pure a) Q X
  unfolding pure
  triple_pure a h = record { at = h }

  pub keeps_pure : (a : A) → Triple P (pure a) (λ _. P) X
  unfolding pure
  keeps_pure a = record { at = λ s h. h }

  -- Nothing that is caught is left to raise.
  pub triple_otherwise :
      {Q : S → Type 0} (m : Exec S A) (a : A)
      → Triple P m (λ _. Q) Q
      → Triple P (otherwise m a) (λ _. Q) X
  unfolding otherwise
  triple_otherwise {Q} m a t = record { at = λ s h. go (m s) (t.at s h) }
    where
      go :
          (x : Result A × S)
          → Holds (λ _. Q) Q x
          → Holds
              (λ _. Q)
              X
              (elim x.0 as (λ _. Result A × S) [ ok b ↦ (ok b, x.1) | raise e ↦ (ok a, x.1) ])
      go (ok b, s') q = q
      go (raise e, s') q = q

  -- A call that does not raise is not replaced.
  pub triple_otherwise_ok :
      {Q : A → S → Type 0} (m : Exec S A) (a : A)
      → Triple P m Q (λ _. ⊥)
      → Triple P (otherwise m a) Q X
  unfolding otherwise
  triple_otherwise_ok {Q} m a t = record { at = λ s h. go (m s) (t.at s h) }
    where
      go :
          (x : Result A × S)
          → Holds Q (λ _. ⊥) x
          → Holds Q X
              (elim x.0 as (λ _. Result A × S) [ ok b ↦ (ok b, x.1) | raise e ↦ (ok a, x.1) ])
      go (ok b, s') q = q
      go (raise e, s') q = elim q [ ]

  -- One of two calls.
  pub triple_if :
      {Q : A → S → Type 0} {m k : Exec S A} (b : Bool)
      → Triple P m Q X
      → Triple P k Q X
      → Triple P (if b then m else k) Q X
  triple_if true t u = t
  triple_if false t u = u

module _ {S A B : Type 0} {P : S → Type 0} {X : S → Type 0} where
  pub triple_bind :
      {R : A → S → Type 0} {Q : B → S → Type 0} (m : Exec S A) (f : A → Exec S B)
      → Triple P m R X
      → ((a : A) → Triple (R a) (f a) Q X)
      → Triple P (m >>= f) Q X
  unfolding ◌>>=◌
  triple_bind {R} {Q} m f t u = record { at = λ s h. go (m s) (t.at s h) }
    where
      go :
          (x : Result A × S)
          → Holds R X x
          → Holds Q X
              (elim x.0 as (λ _. Result B × S) [ ok a ↦ f a x.1 | raise e ↦ (raise e, x.1) ])
      go (ok a, s') r = (u a).at s' r
      go (raise e, s') r = r

  -- A first part that keeps `P`.
  pub keeps_bind :
      {Q : B → S → Type 0} (m : Exec S A) (f : A → Exec S B)
      → Triple P m (λ _. P) X
      → ((a : A) → Triple P (f a) Q X)
      → Triple P (m >>= f) Q X
  keeps_bind m f t u = triple_bind m f t u

module _ {S A : Type 0} where
  pub triple_weaken :
      {P P' : S → Type 0} {Q Q' : A → S → Type 0} {X X' : S → Type 0} {m : Exec S A}
      → ((s : S) → P' s → P s)
      → ((a : A) (s : S) → Q a s → Q' a s)
      → ((s : S) → X s → X' s)
      → Triple P m Q X
      → Triple P' m Q' X'
  triple_weaken {Q} {Q'} {X} {X'} {m} p q x t = record { at = λ s h. go (m s) (t.at s (p s h)) }
    where
      go : (y : Result A × S) → Holds Q X y → Holds Q' X' y
      go (ok a, s') h = q a s' h
      go (raise e, s') h = x s' h

-- What holds of the state alone, however the call ends.
pub triple_state :
    {S A : Type 0} {P Q : S → Type 0} (m : Exec S A)
    → ((s : S) → P s → Q (m s).1)
    → Triple P m (λ _. Q) Q
triple_state {S} {A} {P} {Q} m h = record { at = λ s p. go (m s) (h s p) }
  where
    go : (x : Result A × S) → Q x.1 → Holds (λ _. Q) Q x
    go (ok a, s) q = q
    go (raise e, s) q = q

-- A call that does not raise has a result.
pub returns :
    {S A : Type 0} (Q : A → S → Type 0) (x : Result A × S)
    → Holds Q (λ _. ⊥) x
    → (a : A) × (x.0 ≡ ok a) × Q a x.1
returns Q (ok a, s) h = (a, refl, h)
returns Q (raise e, s) h = elim h [ ]

-- A guard that lets pass.
pub triple_guard :
    {S : Type 0} {P X : S → Type 0} (b : Bool) (e : Error)
    → b ≡ false
    → Triple P (raise_if b e) (λ _. P) X
unfolding raise_if
triple_guard b e passed = record { at = λ s h. rw passed h }

-- A result that is known.
pub triple_lift :
    {S A : Type 0} {P X : S → Type 0} {r : Result A} {a : A}
    → r ≡ ok a
    → Triple P (lift r) (λ b s. (b ≡ a) × P s) X
unfolding lift
triple_lift e = record { at = λ s h. rw e (refl, h) }

pub triple_known :
    {S A B : Type 0} {P X : S → Type 0} {Q : B → S → Type 0} {r : Result A} {a : A}
    (f : A → Exec S B)
    → r ≡ ok a
    → Triple P (f a) Q X
    → Triple P (lift r >>= f) Q X
unfolding lift
triple_known {r = r} f e t = record {
  at = λ s h. rw (bind_of_ok (lift r) f (ap (λ q. (q, s)) e)) (t.at s h);
}

-- A call that returns.
pub triple_ok :
    {S A : Type 0} {P X : S → Type 0} {Q : A → S → Type 0} (m : Exec S A)
    → ((s : S) → P s → (a : A) × ((m s).0 ≡ ok a) × Q a (m s).1)
    → Triple P m Q X
triple_ok {S} {A} {P} {X} {Q} m h = record { at = λ s p. go (m s) (h s p) }
  where
    go : (x : Result A × S) → (a : A) × (x.0 ≡ ok a) × Q a x.1 → Holds Q X x
    go (ok b, s') (a, e, q) = rw (ok_inj e) q
    go (raise x, s') (a, e, q) = cc

-- A first call whose answer is known.
pub triple_answer :
    {S A B : Type 0} {P R : S → Type 0} {Q : B → S → Type 0} {X : S → Type 0} (m : Exec S A)
    (f : A → Exec S B) (a : A)
    → ((s : S) → P s → ((m s).0 ≡ ok a) × R (m s).1)
    → Triple R (f a) Q X
    → Triple P (m >>= f) Q X
triple_answer {P = P} {R = R} {Q = Q} {X = X} m f a h t = record {
  at = λ s p. let (e, r) = h s p in rw (bind_of_ok m f (ap (λ x. (x, (m s).1)) e)) (t.at (m s).1 r);
}

-- A fact that does not depend on the state.
pub triple_fact :
    {S A : Type 0} {C : Type 0} {P X : S → Type 0} {Q : A → S → Type 0} {m : Exec S A}
    → (C → Triple P m Q X)
    → Triple (λ s. C × P s) m Q X
triple_fact t = record { at = λ s h. (t h.0).at s h.1 }

pub triple_total :
    {S A : Type 0} {P X : S → Type 0} (m : S → A × S)
    → ((s : S) → P s → P (m s).1)
    → Triple P (total m) (λ _. P) X
unfolding total
triple_total m h = record { at = h }

pub ruleset keeps_rules = (keeps_pure, keeps_bind, triple_otherwise)

-- What a call keeps holds of the state after it.
pub state_of :
    {S A : Type 0} {P Q : S → Type 0} {m : Exec S A}
    → Triple P m (λ _. Q) Q
    → (s : S) → P s
    → Q (m s).1
state_of {S} {A} {P} {Q} {m} t s p = go (m s) (t.at s p)
  where
    go : (x : Result A × S) → Holds (λ _. Q) Q x → Q x.1
    go (ok a, s') h = h
    go (raise e, s') h = h

-- A first call that raises.
pub triple_raise :
    {S A B : Type 0} {P X : S → Type 0} {Q : B → S → Type 0} (m : Exec S A) (f : A → Exec S B)
    → ((s : S) → P s → (e : Error) × (t : S) × (m s ≡ (raise e, t)) × X t)
    → Triple P (m >>= f) Q X
triple_raise {P = P} {X = X} {Q = Q} m f h = record {
  at = λ s p. let (e, t, raised, x) = h s p in rw (bind_of_raise m f raised) x;
}

-- What cannot be reached.
pub triple_absurd :
    {S A : Type 0} {P X : S → Type 0} {Q : A → S → Type 0} {m : Exec S A}
    → ((s : S) → P s → ⊥)
    → Triple P m Q X
triple_absurd h = record { at = λ s p. elim (h s p) [ ] }

-- A call that does not return has an exception.
pub raises :
    {S A : Type 0} (X : S → Type 0) (x : Result A × S)
    → Holds (λ _ _. ⊥) X x
    → (e : Error) × (x.0 ≡ raise e) × X x.1
raises X (ok a, s) h = elim h [ ]
raises X (raise e, s) h = (e, refl, h)
