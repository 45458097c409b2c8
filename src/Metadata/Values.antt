-- ===== src/Metadata/Values.antt =====
-- EXIF values as Pillow gives them to app/tasks/metadata.py, and what the code asks of Python and of
-- Pillow about them.
use pix_tools.Base.{
  ℕ, String, Bool, true, false, ◌&&◌, Option, none, some, List, [], ◌∷◌, eqb, if◌then◌else◌, Result,
}
use pix_tools.Base.Int.{ℤ, pos}
use pix_tools.Json.{Json}
use pix_tools.Pillow.{Pillow}

mutual
  -- `rational` has a numerator and a denominator, as Pillow's rationals and Python's integers do.
  -- `other` is any object without a length.
  pub data Value (Real : Type 0) : Type 0 where
    absent : Value Real
    rational : (numerator denominator : ℤ) → Value Real
    real : Real → Value Real
    text : String → Value Real
    tuple : Items Real → Value Real
    list : Items Real → Value Real
    ifd : Entries Real → Value Real
    bytes : List ℕ → Value Real
    other : String → Value Real

  pub data Items (Real : Type 0) : Type 0 where
    nil : Items Real
    cons : Value Real → Items Real → Items Real

  -- a dict from the numbers of tags
  pub data Entries (Real : Type 0) : Type 0 where
    finish : Entries Real
    entry : ℕ → Value Real → Entries Real → Entries Real

module _ {Real : Type 0} where
  abbrev pub items_of : Items Real → List (Value Real)
  items_of nil = []
  items_of (cons v vs) = v ∷ items_of vs

  abbrev pub entries_of : Entries Real → List (ℕ × Value Real)
  entries_of finish = []
  entries_of (entry k v es) = (k, v) ∷ entries_of es

  -- the characters of a text, as texts
  abbrev pub chars : String → List (Value Real)
  chars String.[] = []
  chars (String.◌∷◌ c s) = text (String.◌∷◌ c String.[]) ∷ chars s

  -- the numbers of a `bytes` object
  abbrev pub codes : List ℕ → List (Value Real)
  codes [] = []
  codes (n ∷ ns) = rational (pos n) (pos 1) ∷ codes ns

  abbrev pub find_entry : ℕ → Entries Real → Option (Value Real)
  find_entry k finish = none
  find_entry k (entry j v es) = if eqb j k then some v else find_entry k es

-- A value without a hash cannot be asked for in a set: lists, dicts, and tuples that hold one.
unfoldable mutual
  pub is_hashable : {Real : Type 0} → Value Real → Bool
  is_hashable (tuple vs) = are_hashable vs
  is_hashable (list _) = false
  is_hashable (ifd _) = false
  is_hashable absent = true
  is_hashable (rational _ _) = true
  is_hashable (real _) = true
  is_hashable (text _) = true
  is_hashable (bytes _) = true
  is_hashable (other _) = true

  pub are_hashable : {Real : Type 0} → Items Real → Bool
  are_hashable nil = true
  are_hashable (cons v vs) = is_hashable v && are_hashable vs

-- Floats, and what is done with values.
pub record Exif (pil : Pillow) : Type 1 where
  pub Real : Type 0
  -- `float(n)` of an integer, `none` for an `OverflowError`
  pub float_of_int : ℤ → Option Real
  -- `float(v)`, `int(v)` and `bool(v)`, `none` for an exception
  pub float_of : Value Real → Option Real
  pub int_of : Value Real → Option ℤ
  pub bool_of : Value Real → Bool
  -- `str(v)`, `str(n)`, `str(x)` and `f"{x:.4f}"`
  pub str_of : Value Real → String
  pub str_of_int : ℤ → String
  pub str_of_float : Real → String
  pub fixed4 : Real → String
  pub strip : String → String
  -- `x == 0`, `x / y` where `y` is not 0, `x + y`, `x * -1.0`, `round(x, n)` and the literal `n`
  pub is_zero : Real → Bool
  pub div : Real → Real → Real
  pub add : Real → Real → Real
  pub negate : Real → Real
  pub round : Real → ℕ → Real
  pub literal : ℕ → Real
  pub to_json : Real → Json
  -- `image.getexif()`, and `exif.get_ifd(ExifTags.IFD.GPSInfo)`: `none` if Pillow has no such
  -- method or it raises
  pub getexif : pil.Image → Result (List (ℕ × Value Real))
  pub get_gps_ifd : pil.Image → Option (Value Real)
  -- `ExifTags.TAGS` and `ExifTags.GPSTAGS`
  pub tag_name : ℕ → Option String
  pub gps_tag_name : ℕ → Option String
