-- ===== src/Api.antt =====
-- services/agent-runtime/app/api: the handlers of the REST API that change a stored row. A table is
-- the list of its rows, in the order of a query; routing and JSON of the requests are the framework's.
pub mod Tables
pub mod Approvals
pub mod Tasks
pub mod Agents
pub mod Webhooks
pub mod Companies
pub mod Roles
pub mod Search
use agentcompany.Prelude.{
  String, Option, Bool, List, ℕ, none, some, [], ◌∷◌, if◌then◌else◌, ◌+◌, ◌/◌, take, drop, ltb,
  length,
}
use agentcompany.Exec.{Result, ok, raise, foreign}

-- What the handlers read of the caller's token.
pub record Claims : Type 0 where
  pub sub : String
  pub org_id : String

module _ {R : Type 0} where
  -- `db.scalar(select(...).where(...))`
  abbrev pub find_row : (R → Bool) → List R → Option R
  find_row wanted [] = none
  find_row wanted (r ∷ rs) = if wanted r then some r else find_row wanted rs

  -- A change of the object that `find_row` gives, once it is flushed.
  abbrev pub update_row : (R → Bool) → (R → R) → List R → List R
  update_row wanted f [] = []
  update_row wanted f (r ∷ rs) = if wanted r then f r ∷ rs else r ∷ update_row wanted f rs

  -- The rows of a query.
  abbrev pub select_rows : (R → Bool) → List R → List R
  select_rows wanted [] = []
  select_rows wanted (r ∷ rs) =
      let others = select_rows wanted rs in if wanted r then r ∷ others else others

-- An `INSERT` under a unique constraint, by which the row may agree with no other, deleted or not.
unfoldable pub insert_row : {R : Type 0} → (R → Bool) → R → List R → Result R × List R
insert_row taken r rows = elim (find_row taken rows) [
  | some _ ↦ (raise (foreign "IntegrityError"), rows)
  | none ↦ (ok r, r ∷ rows)
]

-- The dict of schemas/common.py.
pub record ListResponse (A : Type 0) : Type 0 where
  pub items : List A
  pub total : ℕ
  pub page : ℕ
  pub page_size : ℕ
  pub has_next : Bool

unfoldable pub make_list_response : {A : Type 0} → List A → ℕ → ℕ → ℕ → ListResponse A
make_list_response items total limit offset = record {
  items = items;
  total = total;
  page = if ltb 0 limit then offset / limit + 1 else 1;
  page_size = limit;
  has_next = ltb (offset + limit) total;
}

-- The page of a query: `limit`, `offset` and the count of all its rows.
unfoldable pub list_page : {R : Type 0} → ℕ → ℕ → List R → ListResponse R
list_page limit offset rows =
    make_list_response (take limit (drop offset rows)) (length rows) limit offset
