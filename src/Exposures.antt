-- ===== src/Exposures.antt =====
-- EXIF data in memory, on which the examples run: floats are whole numbers, and every image carries
-- the same tags.
use pix_tools.Base.{
  ℕ, ◌/◌, ◌+◌, String, Bool, true, not, ◌≡◌, refl, Option, none, some, [], ◌∷◌, ok, eqb,
  if◌then◌else◌,
}
use pix_tools.Base.Int.{ℤ, pos, negsuc, is_zero, pos_part}
use pix_tools.Json.{int}
use pix_tools.Metadata.Values.{
  Value, Exif, Entries, finish, entry, rational, text, tuple, ifd, cons, nil,
}
use pix_tools.Metadata.Rationals.{ReadsIntegers}
use pix_tools.Raster.{raster}

abbrev pub whole : Value ℤ → Option ℤ
whole (rational n d) = some n
whole _ = none

abbrev pub is_true : Value ℤ → Bool
is_true (rational n d) = not (is_zero n)
is_true _ = true

abbrev pub name_int : ℤ → String
name_int (pos n) = if eqb n 1 then "1" else "n"
name_int (negsuc n) = "-n"

abbrev pub name_value : Value ℤ → String
name_value (rational n d) = name_int n
name_value (text s) = s
name_value _ = "value"

abbrev pub opposite : ℤ → ℤ
opposite (pos n) = negsuc n
opposite (negsuc n) = pos (n + 1)

abbrev pub divided : ℤ → ℤ → ℤ
divided a (pos d) = pos (pos_part a / d)
divided a (negsuc d) = negsuc (pos_part a / (d + 1))

abbrev pub three : (d m s : ℕ) → Value ℤ
three d m s = tuple (
    cons (rational (pos d) (pos 1))
      (cons (rational (pos m) (pos 1)) (cons (rational (pos s) (pos 1)) nil)))

-- 48 degrees south, with no longitude
abbrev pub southern : Entries ℤ
southern = entry 1 (text "S") (entry 2 (three 48 0 0) finish)

abbrev pub gps_names : ℕ → Option String
gps_names n =
    if eqb n 1 then some "GPSLatitudeRef" else if eqb n 2 then some "GPSLatitude" else none

abbrev pub names : ℕ → Option String
names n = if eqb n 271 then some "Make" else if eqb n 33437 then some "FNumber" else none

abbrev pub camera : Exif raster
camera = record {
  Real = ℤ;
  float_of_int = some;
  float_of = whole;
  int_of = whole;
  bool_of = is_true;
  str_of = name_value;
  str_of_int = name_int;
  str_of_float = name_int;
  fixed4 = name_int;
  strip = λ s. s;
  is_zero = is_zero;
  div = divided;
  add = λ a b. pos (pos_part a + pos_part b);
  negate = opposite;
  round = λ a n. a;
  literal = pos;
  to_json = int;
  getexif = λ image. ok ((271, text "Acme") ∷ (33437, rational (pos 8) (pos 1)) ∷ []);
  get_gps_ifd = λ image. some (ifd southern);
  tag_name = names;
  gps_tag_name = gps_names;
}

camera-ReadsIntegers : ReadsIntegers camera
camera-ReadsIntegers = record {
  float_of_lem = λ n. refl;
  str_of_lem = λ n. refl;
  bool_of_lem = λ n. refl;
  is_zero_lem = zero_same;
}
  where
    zero_same : (n f : ℤ) → ◌≡◌ {A = Option ℤ} (some n) (some f) → is_zero f ≡ is_zero n
    zero_same n f e = cc
