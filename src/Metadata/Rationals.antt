-- ===== src/Metadata/Rationals.antt =====
-- The two forms of a rational number in EXIF data.
use pix_tools.Base.{not, ◌≡◌, some, if◌then◌else◌, arith, Option-cases, inl, inr}
use pix_tools.Base.Int.{ℤ, pos, is_zero}
use pix_tools.Pillow.{Pillow}
use pix_tools.Metadata.Values.{Value, cons, nil, rational, tuple, Exif}
use pix_tools.Metadata.{to_float, format_exposure, decimal_exposure}

-- What Python promises of an integer: `float(n)`, `str(n)` and `bool(n)`, and that its float is zero
-- only if it is.
pub record ReadsIntegers {pil : Pillow} (x : Exif pil) : Type 0 where
  pub float_of_lem : (n : ℤ) → x.float_of (rational n (pos 1)) ≡ x.float_of_int n
  pub str_of_lem : (n : ℤ) → x.str_of (rational n (pos 1)) ≡ x.str_of_int n
  pub bool_of_lem : (n : ℤ) → x.bool_of (rational n (pos 1)) ≡ not (is_zero n)
  pub is_zero_lem : (n : ℤ) (f : x.Real) → x.float_of_int n ≡ some f → x.is_zero f ≡ is_zero n

module _ {pil : Pillow} (x : Exif pil) (reads : ReadsIntegers x) (n d : ℤ) where
  -- a pair of integers
  abbrev pair : Value x.Real
  pair = tuple (cons (rational n (pos 1)) (cons (rational d (pos 1)) nil))

  -- Pillow gives a rational as an object or as a pair of integers, by its version. The code reads
  -- the same float from both, and writes the same exposure time unless the denominator is zero,
  -- where it falls back on the float of what it was given.
  to_float-pair :
      (to_float x pair ≡ to_float x (rational n d))
      × (format_exposure x pair
          ≡ (if is_zero d then decimal_exposure x pair else format_exposure x (rational n d)))
  unfolding to_float format_exposure
  to_float-pair = (
    elim (Option-cases (x.float_of_int d)) [
      | inl over ↦ ground (arith, reads.float_of_lem d, reads.float_of_lem n, over)
      | inr (f, there) ↦
          ground
            (arith, reads.float_of_lem d, reads.float_of_lem n, reads.is_zero_lem d f there, there)
    ],
    ground (arith, reads.bool_of_lem d, reads.str_of_lem d, reads.str_of_lem n),
  )
