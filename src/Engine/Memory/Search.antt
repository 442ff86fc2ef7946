-- ===== src/Engine/Memory/Search.antt =====
-- What a memory search returns, and what a refused call leaves alone.
use agentcompany.Prelude.{◌≡◌, String, List, ℕ, arith, length, Option, ◌≤◌, [], min, false}
use agentcompany.Engine.Memory.{
  MemoryEntry, Row, MemoryServices, String, memory_entry, entries, List, ok, ℕ, ◌∷◌, Option, search,
  ℤ, pos, ltb_ℤ, min, pos_part,
}
use agentcompany.Exec.{ok, bind_inversion, raise_if_inversion, lift_inversion}
use agentcompany.Prelude.Int.{ℤ, pos, ◌≤ℤ◌, ltb_ℤ, pos_part}

module _ {F E : Type 0} where
  -- Every entry belongs to the agent that asked.
  abbrev pub Owned : String → List (MemoryEntry F E) → Type 0
  Owned agent [] = Unit
  Owned agent (m ∷ ms) = (m.agent_id ≡ agent) × Owned agent ms

  entry_lem : (m : MemoryEntry F E) {n : MemoryEntry F E} → memory_entry m ≡ ok n → n ≡ m
  unfolding memory_entry
  entry_lem m h = ground arith

  entries_lem :
      {W : Type 0} (services : MemoryServices F E W) (agent : String) (rows : List (Row F E))
      (ms : List (MemoryEntry F E))
      → entries services agent rows ≡ ok ms
      → Owned agent ms × (length ms ≡ length rows)
  unfolding entries memory_entry
  entries_lem services agent [] [] h = (tt, omega arith)
  entries_lem services agent [] (m ∷ ms) h = cc
  entries_lem services agent (row ∷ rows) [] h = ground (arith, entries_lem services agent rows)
  entries_lem services agent (row ∷ rows) (m ∷ ms) h =
      ground (arith, entries_lem services agent rows ms)

module _ {F E W : Type 0} (services : MemoryServices F E W) where
  -- The vector store keeps to the limit that it is given.
  abbrev pub KeepsLimit : Type 0
  KeepsLimit =
      (agent : String) (e : E) (k : ℕ) (cs : Option (List String)) (w : W) (rows : List (Row F E))
      → (services.vector_search agent e k cs w).0 ≡ ok rows
      → length rows ≤ k

  -- A search that returns, over a vector store that keeps to its limit, returns at most top_k
  -- memories and never more than 20, all with the agent's own id.
  pub search_bounded :
      KeepsLimit
      → (agent query : String) (top_k : ℤ) (categories : Option (List String)) (w : W)
        (ms : List (MemoryEntry F E))
      → (search services agent query top_k categories w).0 ≡ ok ms
      → Owned agent ms × (length ms ≤ 20) × (pos (length ms) ≤ℤ top_k)
  unfolding search
  search_bounded limit agent query top_k categories w ms h =
      let (_, _, h₁) = bind_inversion _ _ _ h in
      let (_, positive, h₂) = bind_inversion _ _ _ h₁ in
      let (_, _, h₃) = bind_inversion _ _ _ h₂ in
      let (e, _, h₄) = bind_inversion _ _ _ h₃ in
      let (rows, found, h₅) = bind_inversion _ _ _ h₄ in
      bounds rows (limit agent e _ categories _ rows found) (lift_inversion _ _ h₅)
        (raise_if_inversion _ _ _ positive)
    where
      bounds :
          (rows : List (Row F E))
          → length rows ≤ min (pos_part top_k) 20
          → entries services agent rows ≡ ok ms
          → ltb_ℤ top_k (pos 1) ≡ false
          → Owned agent ms × (length ms ≤ 20) × (pos (length ms) ≤ℤ top_k)
      bounds rows few found low =
          let (owned, size) = entries_lem services agent rows ms found in
          (owned, omega (arith, few, size), ground (arith, few, size, low))
