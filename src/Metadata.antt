-- ===== src/Metadata.antt =====
-- The helpers of app/tasks/metadata.py that read EXIF values.
pub mod Values
pub mod Extract
pub mod Rationals
pub mod Shape
use Prim.Native.String.{◌++◌}
use pix_tools.Base.{
  ℕ, String, Bool, true, false, not, ◌&&◌, ◌||◌, Option, none, some, List, [], ◌∷◌, ◌==◌, is_empty,
  eqb, length, if◌then◌else◌, lookup, insert, Exn, Result, ok, err, ◌>>=◌, ◌>>◌, type_error,
  key_error,
}
use pix_tools.Base.Int.{ℤ, is_zero}
use pix_tools.Json.{Json, str, int, obj, null, Fields, end, field, put}
use pix_tools.Pillow.{Pillow}
use pix_tools.Metadata.Values.{
  Value, Items, Entries, nil, cons, finish, entry, absent, rational, real, text, tuple, list, ifd,
  bytes, other, Exif, items_of, entries_of, find_entry, is_hashable, chars, codes,
}

-- a coordinate in degrees, minutes and seconds
abbrev pub Triple : Type 0 → Type 0
Triple Real = Value Real × Value Real × Value Real

module _ {Real : Type 0} where
  abbrev pub is_absent : Value Real → Bool
  is_absent absent = true
  is_absent _ = false

  -- `d.get(name)`
  abbrev pub value_at : String → List (String × Value Real) → Value Real
  value_at name tags = elim (lookup name tags) [ none ↦ absent | some v ↦ v ]

  -- `{names.get(k, k): v for k, v in entries}`: an entry whose tag has no name keeps its number as
  -- key, which the code never looks up, and is left out here.
  unfoldable pub named :
      (ℕ → Option String)
      → List (ℕ × Value Real)
      → List (String × Value Real)
      → List (String × Value Real)
  named names [] tags = tags
  named names ((k, v) ∷ es) tags =
      named names es (elim (names k) [ none ↦ tags | some name ↦ insert name v tags ])

  -- `len(coord) != 3`, and the three elements
  abbrev pub exactly_three : List (Value Real) → Option (Triple Real)
  exactly_three (a ∷ b ∷ c ∷ []) = some (a, b, c)
  exactly_three _ = none

  abbrev pub entry_at : ℕ → Entries Real → Result (Value Real)
  entry_at k es = elim (find_entry k es) [ none ↦ err key_error | some v ↦ ok v ]

  unfoldable pub elements : Value Real → Result (Option (Triple Real))
  elements (tuple vs) = ok (exactly_three (items_of vs))
  elements (list vs) = ok (exactly_three (items_of vs))
  elements (text s) = ok (exactly_three (chars s))
  elements (bytes ns) = ok (exactly_three (codes ns))
  elements (ifd es) =
      if not (eqb (length (entries_of es)) 3)
      then ok none
      else do a ← entry_at 0 es; b ← entry_at 1 es; c ← entry_at 2 es; ok (some (a, b, c))
  elements absent = err type_error
  elements (rational _ _) = err type_error
  elements (real _) = err type_error
  elements (other _) = err type_error

  -- `ref in {"S", "W"}`
  unfoldable pub is_negative_ref : Value Real → Result Bool
  is_negative_ref ref =
      if not (is_hashable ref)
      then err type_error
      else elim ref [ text s ↦ ok (s == "S" || s == "W") | _ ↦ ok false ]

module _ {pil : Pillow} (x : Exif pil) where
  open x use {Real}

  -- `if v:`
  abbrev pub truthy : Value Real → Bool
  truthy absent = false
  truthy v = x.bool_of v

  abbrev pub quotient : Option Real → Option Real → Option Real
  quotient (some a) (some b) = some (x.div a b)
  quotient _ _ = none

  unfoldable pub to_float : Value Real → Option Real
  to_float absent = none
  to_float (rational numerator denominator) =
      if is_zero denominator
      then none
      else quotient (x.float_of_int numerator) (x.float_of_int denominator)
  to_float (tuple (cons num (cons den nil))) = elim (x.float_of den) [
    | none ↦ none
    | some den_f ↦ if x.is_zero den_f then none else quotient (x.float_of num) (some den_f)
  ]
  to_float value = x.float_of value

  -- `f"{float(value):.4f}s"`
  abbrev pub decimal_exposure : Value Real → Option String
  decimal_exposure value = elim (x.float_of value) [
    | none ↦ none
    | some f ↦ some (x.fixed4 f ++ "s")
  ]

  unfoldable pub format_exposure : Value Real → Option String
  format_exposure absent = none
  format_exposure (rational numerator denominator) =
      if is_zero denominator
      then decimal_exposure (rational numerator denominator)
      else some (x.str_of_int numerator ++ ("/" ++ (x.str_of_int denominator ++ "s")))
  format_exposure (tuple (cons num (cons den nil))) =
      if truthy den
      then some (x.str_of num ++ ("/" ++ (x.str_of den ++ "s")))
      else decimal_exposure (tuple (cons num (cons den nil)))
  format_exposure value = decimal_exposure value

  -- `d + (m / 60.0) + (s / 3600.0)`
  abbrev pub degrees : (d m s : Real) → Real
  degrees d m s = x.add (x.add d (x.div m (x.literal 60))) (x.div s (x.literal 3600))

  abbrev pub floats : Triple Real → Option (Real × Real × Real)
  floats (a, b, c) = elim (to_float a) [
    | none ↦ none
    | some d ↦ elim (to_float b) [
      | none ↦ none
      | some m ↦ elim (to_float c) [ none ↦ none | some s ↦ some (d, m, s) ]
    ]
  ]

  -- `convert` in `_gps_to_decimal`
  unfoldable pub convert : (coord ref : Value Real) → Result (Option Real)
  convert coord ref = if not (truthy coord) || is_absent ref then ok none else do
    three ← elements coord
    elim three [
      | none ↦ ok none
      | some triple ↦ elim (floats triple) [
        | none ↦ ok none
        | some (d, m, s) ↦ do
          negative ← is_negative_ref ref
          let decimal = degrees d m s
          ok (some (x.round (if negative then x.negate decimal else decimal) 6))
      ]
    ]

  -- `{"latitude": lat, "longitude": lon}`, `None` if both are `None`
  abbrev pub position : Option Real → Option Real → Option (Option Real × Option Real)
  position none none = none
  position lat lon = some (lat, lon)

  unfoldable pub gps_to_decimal : Value Real → Result (Option (Option Real × Option Real))
  gps_to_decimal (ifd es) = if is_empty (entries_of es) then ok none else do
    let gps_tags = named x.gps_tag_name (entries_of es) []
    lat ← convert (value_at "GPSLatitude" gps_tags) (value_at "GPSLatitudeRef" gps_tags)
    lon ← convert (value_at "GPSLongitude" gps_tags) (value_at "GPSLongitudeRef" gps_tags)
    ok (position lat lon)
  gps_to_decimal _ = ok none
