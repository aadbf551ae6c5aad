-- ===== src/Json.antt =====
-- The values that `json.loads` gives: submission manifests, lab definitions, run records and
-- reports hold them. A float is kept as its text, since the modelled code computes with none.
use csoj_judger.Prelude.{
  ℕ, suc, Bool, true, false, not, ◌&&◌, ◌||◌, ◌==◌, Option, none, some, List, [], ◌∷◌,
  if◌then◌else◌,
}
use csoj_judger.Prelude.Int.{ℤ, int_ord}
use csoj_judger.Prelude.Order.{Text, ◌===◌, list_ord, nat_ord}

mutual
  pub data Json : Type 0 where
    null : Json
    bool : Bool → Json
    int : ℤ → Json
    real : Text → Json
    str : Text → Json
    arr : Items → Json
    obj : Fields → Json

  pub data Items : Type 0 where
    nil : Items
    cons : Json → Items → Items

  pub data Fields : Type 0 where
    end : Fields
    field : Text → Json → Fields → Fields

-- `d.get(key)`.
unfoldable pub get : Fields → Text → Option Json
get end k = none
get (field j v d) k = if j === k then some v else get d k

abbrev pub elements : Items → List Json
elements nil = []
elements (cons x xs) = x ∷ elements xs

-- `isinstance(value, Mapping)`, with the mapping.
abbrev pub mapping? : Option Json → Option Fields
mapping? (some (obj d)) = some d
mapping? _ = none

abbrev pub list? : Option Json → Option (List Json)
list? (some (arr xs)) = some (elements xs)
list? _ = none

abbrev pub str? : Option Json → Option Text
str? (some (str s)) = some s
str? _ = none

abbrev pub field_count : Fields → ℕ
field_count end = 0
field_count (field k v d) = suc (field_count d)

-- `==` of values, of lists and of dictionaries, whose order does not count. (Python also equates a
-- number with a float or a `bool` of its value; no modelled comparison meets such a pair.)
abbrev mutual
  pub json_eq : Json → Json → Bool
  json_eq null w = elim w [ null ↦ true | _ ↦ false ]
  json_eq (bool a) w = elim w [ bool b ↦ (a && b) || (not a && not b) | _ ↦ false ]
  json_eq (int a) w = elim w [ int b ↦ a === b | _ ↦ false ]
  json_eq (real a) w = elim w [ real b ↦ a === b | _ ↦ false ]
  json_eq (str a) w = elim w [ str b ↦ a === b | _ ↦ false ]
  json_eq (arr xs) w = elim w [ arr ys ↦ items_eq xs ys | _ ↦ false ]
  json_eq (obj d) w = elim w [ obj e ↦ field_count d == field_count e && within d e | _ ↦ false ]

  pub items_eq : Items → Items → Bool
  items_eq nil ys = elim ys [ nil ↦ true | cons y r ↦ false ]
  items_eq (cons x xs) ys = elim ys [ nil ↦ false | cons y r ↦ json_eq x y && items_eq xs r ]

  -- Each entry of the first stands in the second.
  pub within : Fields → Fields → Bool
  within end e = true
  within (field k v d) e = elim (get e k) [ none ↦ false | some w ↦ json_eq v w ] && within d e

-- A dictionary display.
abbrev pub fields : List (Text × Json) → Fields
fields [] = end
fields ((k, v) ∷ rest) = field k v (fields rest)

abbrev pub items : List Json → Items
items [] = nil
items (x ∷ xs) = cons x (items xs)
