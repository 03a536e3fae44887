-- ===== src/Data.antt =====
-- What `json.loads` and `yaml.safe_load` return, as far as the program looks into it: a number, a date, or
-- a collection in a list is `other` with the text that `str` prints for it and its truth.
use legal_system.Prelude.{
  String, Bool, true, false, not, Option, none, some, List, [], ◌∷◌, ◌==◌, if◌then◌else◌,
}
use legal_system.Prelude.Text.{truthy, strip}
use legal_system.Prelude.Dict.{Dict, lookup}

pub data Scalar : Type 0 where
  null : Scalar
  bool : Bool → Scalar
  text : String → Scalar
  other : String → Bool → Scalar

-- A value of a metadata mapping: a scalar, or a list, or the keys of a mapping, with the text that `str`
-- prints for it.
pub data Value : Type 0 where
  one : Scalar → Value
  items : List Scalar → String → Value
  mapping : (keys : List Scalar) → String → Value

-- `v == w` on scalars.
unfoldable pub scalar_eq : Scalar → Scalar → Bool
scalar_eq null null = true
scalar_eq (bool true) (bool b) = b
scalar_eq (bool false) (bool b) = not b
scalar_eq (text s) (text t) = s == t
scalar_eq (other s a) (other t b) = s == t
scalar_eq _ _ = false

-- `str(v)`
unfoldable pub str : Scalar → String
str null = "None"
str (bool true) = "True"
str (bool false) = "False"
str (text s) = s
str (other s b) = s

-- The truth of a value, as in `if v`.
unfoldable pub is_truthy : Scalar → Bool
is_truthy null = false
is_truthy (bool b) = b
is_truthy (text s) = truthy s
is_truthy (other s b) = b

-- `d.get(k)`, where a missing key reads as `None`.
unfoldable pub get : String → Dict Scalar → Scalar
get k d = elim (lookup k d) [ none ↦ null | some v ↦ v ]

-- `str(v or default)`
unfoldable pub str_or : String → Scalar → String
str_or default v = if is_truthy v then str v else default

unfoldable pub str_value : Value → String
str_value (one v) = str v
str_value (items vs printed) = printed
str_value (mapping keys printed) = printed

unfoldable pub is_truthy_value : Value → Bool
is_truthy_value (one v) = is_truthy v
is_truthy_value (items [] printed) = false
is_truthy_value (items (v ∷ vs) printed) = true
is_truthy_value (mapping [] printed) = false
is_truthy_value (mapping (k ∷ keys) printed) = true

-- `_opt_str(v)`: the trimmed text, if it is not empty.
unfoldable pub opt_str : Option Value → Option String
opt_str none = none
opt_str (some (one null)) = none
opt_str (some v) = let t = strip (str_value v) in if truthy t then some t else none

-- The truth of an optional text.
unfoldable pub opt_truthy : Option String → Bool
opt_truthy none = false
opt_truthy (some s) = truthy s

-- `o or default`
unfoldable pub opt_or : String → Option String → String
opt_or default none = default
opt_or default (some s) = if truthy s then s else default

-- An optional text as a JSON value.
unfoldable pub of_opt : Option String → Scalar
of_opt none = null
of_opt (some s) = text s
