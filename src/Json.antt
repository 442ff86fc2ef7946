-- ===== src/Json.antt =====
-- JSON values as Python holds them after `json.loads`, and Python's built-in functions on texts.
-- Numbers with a fraction are left out.
use Prim.Native.String.{◌++◌}
use agentcompany.Prelude.{
  ℕ, zero, suc, Bool, true, false, not, String, ◌==◌, is_empty, Option, none, some, List, [], ◌∷◌,
  if◌then◌else◌, ◌||◌,
}
use agentcompany.Prelude.Int.{ℤ, pos}
use agentcompany.Exec.{Result, ok, raise, type_error}

mutual
  pub data Json : Type 0 where
    null : Json
    bool : Bool → Json
    num : ℤ → Json
    str : String → Json
    arr : Items → Json
    obj : Fields → Json

  pub data Items : Type 0 where
    nil : Items
    cons : Json → Items → Items

  pub data Fields : Type 0 where
    end : Fields
    field : String → Json → Fields → Fields

-- `d.get(key)`
unfoldable pub get : String → Fields → Option Json
get k end = none
get k (field j v rest) = if j == k then some v else get k rest

-- `{**d, key: v}`
unfoldable pub put : String → Json → Fields → Fields
put k v end = field k v end
put k v (field j w rest) = if j == k then field k v rest else field j w (put k v rest)

-- `{**d, **e}`
unfoldable pub merge : Fields → Fields → Fields
unfolding put
merge d end = d
merge d (field k v e) = merge (put k v d) e

-- Python's truth of a value.
unfoldable pub truthy : Json → Bool
truthy null = false
truthy (bool b) = b
truthy (num (pos zero)) = false
truthy (num _) = true
truthy (str s) = not (is_empty s)
truthy (arr nil) = false
truthy (arr _) = true
truthy (obj end) = false
truthy (obj _) = true

-- `v == "text"`, for a value that may be missing (`None`).
unfoldable pub equals : Option Json → String → Bool
equals (some (str s)) t = s == t
equals _ t = false

abbrev pub has_item : String → Items → Bool
has_item s nil = false
has_item s (cons v vs) = equals (some v) s || has_item s vs

abbrev pub has_key : String → Fields → Bool
has_key s end = false
has_key s (field k v rest) = k == s || has_key s rest

-- `s in v`
abbrev pub occurs_in : (String → String → Bool) → String → Json → Result Bool
occurs_in is_within s (arr vs) = ok (has_item s vs)
occurs_in is_within s (obj d) = ok (has_key s d)
occurs_in is_within s (str t) = ok (is_within s t)
occurs_in is_within s _ = raise type_error

-- What the code uses of Python's library on texts: `s.upper()`, `s.lower()`, `s.strip()`,
-- `s.split()`, `str(n)`, `int(s)`, `str(v)`, `json.dumps` and `json.loads`.
pub record Builtins : Type 0 where
  pub upper : String → String
  pub lower : String → String
  pub strip : String → String
  pub split : String → List String
  pub int_text : ℤ → String
  pub parse_int : String → Result ℤ
  pub text_of : Json → String
  pub dumps : Json → Result String
  pub loads : String → Result Json

-- `sep.join(parts)`
unfoldable pub join : String → List String → String
join sep [] = ""
join sep (s ∷ []) = s
join sep (s ∷ t ∷ rest) = s ++ (sep ++ join sep (t ∷ rest))

-- `s[:n]`
unfoldable pub take_chars : ℕ → String → String
take_chars zero s = ""
take_chars (suc n) String.[] = ""
take_chars (suc n) (String.◌∷◌ c s) = String.◌∷◌ c (take_chars n s)

-- `len(s)`
unfoldable pub text_length : String → ℕ
text_length String.[] = 0
text_length (String.◌∷◌ c s) = suc (text_length s)
