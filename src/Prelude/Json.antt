-- ===== src/Prelude/Json.antt =====
-- The values that `json` and `tomllib` give back, as far as the program looks into them. Numbers
-- are natural: the program stores no negative and no fractional one.
use Prim.Native.Nat.{ℕ}
use Prim.Native.String.{String}
use mathlib.Core.Bool.{Bool}
use mathlib.Core.Option.{Option, none, some}
use mathlib.Core.List.{List, [], ◌∷◌}
use tv_safety_cleaner.Prelude.Dict.{Dict}

mutual
  pub data Json : Type 0 where
    null : Json
    bool : Bool → Json
    num : ℕ → Json
    str : String → Json
    arr : Items → Json
    obj : Fields → Json

  pub data Items : Type 0 where
    no_items : Items
    item : Json → Items → Items

  pub data Fields : Type 0 where
    no_fields : Fields
    field : String → Json → Fields → Fields

abbrev pub items : Items → List Json
items no_items = []
items (item v vs) = v ∷ items vs

abbrev pub fields : Fields → Dict Json
fields no_fields = []
fields (field k v fs) = (k, v) ∷ fields fs

-- The text that a value is, if it is a text.
abbrev pub as_text : Json → Option String
as_text (str s) = some s
as_text _ = none

abbrev pub as_texts : List Json → Option (List String)
as_texts [] = some []
as_texts (str s ∷ vs) = elim (as_texts vs) [ none ↦ none | some rest ↦ some (s ∷ rest) ]
as_texts (_ ∷ vs) = none

-- A Python list and a Python dict as values.
abbrev pub array : List Json → Items
array [] = no_items
array (v ∷ vs) = item v (array vs)

abbrev pub object : Dict Json → Fields
object [] = no_fields
object ((k, v) ∷ d) = field k v (object d)
