-- ===== src/Json.antt =====
-- Values of Python's `json` module, and the dict and `int` operations that the program applies to
-- them. An object is a dict: its fields in insertion order, each key once.
use pix_tools.Base.{
  ℕ, suc, ◌/◌, String, Bool, true, false, Option, none, some, ◌≡◌, refl, List, [], ◌∷◌, arith, ◌==◌,
  eq_iff, if◌then◌else◌, Result, ok, err, type_error, value_error, overflow_error,
}
use pix_tools.Base.Int.{ℤ, pos, negsuc}

-- A float: a fraction with the denominator `d + 1`, or one of the values that `int` refuses.
pub data Float : Type 0 where
  ratio : (numerator : ℤ) (d : ℕ) → Float
  infinity : (negative : Bool) → Float
  nan : Float

mutual
  pub data Json : Type 0 where
    null : Json
    bool : Bool → Json
    int : ℤ → Json
    float : Float → Json
    str : String → Json
    arr : Items → Json
    obj : Fields → Json

  pub data Items : Type 0 where
    nil : Items
    cons : Json → Items → Items

  pub data Fields : Type 0 where
    end : Fields
    field : String → Json → Fields → Fields

abbrev pub items : Items → List Json
items nil = []
items (cons v vs) = v ∷ items vs

-- The keys of a dict, which is what iterating it gives.
abbrev pub field_names : Fields → List Json
field_names end = []
field_names (field k _ fs) = str k ∷ field_names fs

-- `fs[k]`, where `k in fs`
abbrev pub find : String → Fields → Option Json
find k end = none
find k (field j v fs) = if j == k then some v else find k fs

abbrev pub or_null : Option Json → Json
or_null none = null
or_null (some v) = v

-- `fs.get(k)`
abbrev pub get : String → Fields → Json
get k fs = or_null (find k fs)

-- `fs[k] = v`
abbrev pub put : String → Json → Fields → Fields
put k v end = field k v end
put k v (field j w fs) = if j == k then field j v fs else field j w (put k v fs)

pub find-put :
    (k j : String) (v : Json) (fs : Fields)
    → find j (put k v fs) ≡ (if k == j then some v else find j fs)
find-put k j v end = refl
find-put k j v (field i w fs) =
    ground (arith, eq_iff k j, eq_iff i k, eq_iff i j, find-put k j v fs)

-- `v is None`
abbrev pub is_null : Json → Bool
is_null null = true
is_null _ = false

-- `v` if `isinstance(v, dict)`
abbrev pub as_dict : Json → Option Fields
as_dict (obj fs) = some fs
as_dict _ = none

abbrev pub is_end : Fields → Bool
is_end end = true
is_end (field _ _ _) = false

-- Division of an integer by `d + 1`, rounded towards zero, as `int` of a float rounds.
abbrev pub truncate : ℤ → ℕ → ℤ
truncate (pos n) d = pos (n / suc d)
truncate (negsuc n) d = elim (suc n / suc d) [ ℕ.zero ↦ pos 0 | ℕ.suc q ↦ negsuc q ]

-- `int(v)`. The text case is Python's own parser of integers, `int_of_str`.
unfoldable pub to_int : (String → Option ℤ) → Json → Result ℤ
to_int int_of_str null = err type_error
to_int int_of_str (bool true) = ok (pos 1)
to_int int_of_str (bool false) = ok (pos 0)
to_int int_of_str (int z) = ok z
to_int int_of_str (float (ratio n d)) = ok (truncate n d)
to_int int_of_str (float (infinity _)) = err overflow_error
to_int int_of_str (float nan) = err value_error
to_int int_of_str (str s) = elim (int_of_str s) [ none ↦ err value_error | some z ↦ ok z ]
to_int int_of_str (arr _) = err type_error
to_int int_of_str (obj _) = err type_error
