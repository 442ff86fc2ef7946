-- ===== src/Engine/CostTracker/Floats.antt =====
-- Python's `float`, as the operations that the code calls; and what IEEE doubles promise of them.
use agentcompany.Prelude.{ℕ, ◌+◌, ◌≤◌, ◌≡◌, Bool, ltb, if◌then◌else◌}
use agentcompany.Prelude.Int.{ℤ, pos}

-- `of_int` is the conversion of an `int`, which mixed arithmetic makes.
pub record FloatOps (F : Type 0) : Type 0 where
  pub of_int : ℤ → F
  pub add : F → F → F
  pub sub : F → F → F
  pub lt : F → F → Bool

-- Python's `max(a, b)`, which keeps `a` unless `b` is greater.
abbrev pub max_float : {F : Type 0} → FloatOps F → F → F → F
max_float ops a b = if ops.lt a b then b else a

-- Doubles hold every integer up to 2 ^ 53 exactly.
abbrev pub exact_limit : ℕ
exact_limit = 9007199254740992

-- On integers in that range, addition and comparison of doubles are those of the integers.
pub record IsExact {F : Type 0} (ops : FloatOps F) : Type 0 where
  pub add_exact :
      (a b : ℕ)
      → a + b ≤ exact_limit
      → ops.add (ops.of_int (pos a)) (ops.of_int (pos b)) ≡ ops.of_int (pos (a + b))
  pub lt_exact :
      (a b : ℕ)
      → a ≤ exact_limit
      → b ≤ exact_limit
      → ops.lt (ops.of_int (pos a)) (ops.of_int (pos b)) ≡ ltb a b
