-- ===== src/Metadata/Shape.antt =====
-- What the dict of the EXIF metadata holds.
use pix_tools.Base.{
  String, Bool, true, false, ◌≡◌, refl, ◌⊎◌, inl, inr, Option, none, some, List, [], ◌∷◌, ◌==◌,
  eq_iff, is_in, if◌then◌else◌, Result, ok, >>=-eq-ok,
}
use mathlib.Core.Path.{subst, sym}
use pix_tools.Base.Int.{ℤ}
use pix_tools.Json.{Json, str, int, obj, Fields, end, field, put}
use pix_tools.Pillow.{Pillow}
use pix_tools.Metadata.Values.{Value, Exif}
use pix_tools.Metadata.{gps_to_decimal, truthy, value_at, format_exposure, to_float}
use pix_tools.Metadata.Extract.{
  or_null, put_some, stripped_tag, captured_at, exposure_time, aperture, iso, gps_info, gps,
  metadata_of,
}

abbrev pub text_names : List String
text_names =
    "camera_make" ∷ "camera_model" ∷ "lens_model" ∷ "captured_at" ∷ "exposure_time" ∷ "aperture"
    ∷ []

-- An entry that a client may rely on.
abbrev pub IsEntry : String → Json → Type 0
IsEntry name v =
    ((s : String) × (v ≡ str s) × (is_in name text_names ≡ true))
    ⊎ ((n : ℤ) × (v ≡ int n) × (name ≡ "iso"))
    ⊎ ((lat lon : Json) × (v ≡ obj (field "latitude" lat (field "longitude" lon end)))
        × (name ≡ "gps"))

abbrev pub AllFields : (String → Json → Type 0) → Fields → Type 0
AllFields P end = Unit
AllFields P (field k v fs) = P k v × AllFields P fs

AllFields-put :
    (P : String → Json → Type 0) (k : String) (v : Json) (fs : Fields)
    → P k v
    → AllFields P fs
    → AllFields P (put k v fs)
AllFields-put P k v end p _ = (p, tt)
AllFields-put P k v (field j w fs) p (q, h) =
    go (j == k) (eq_iff j k).0 (AllFields-put P k v fs p h)
  where
    go :
        (b : Bool)
        → (b ≡ true → j ≡ k)
        → AllFields P (put k v fs)
        → AllFields P (if b then field j v fs else field j w (put k v fs))
    go true e _ = (subst (λ i. P i v) (sym (e refl)) p, h)
    go false _ later = (q, later)

-- An optional entry, if it is there.
abbrev IsFit : String → Option Json → Type 0
IsFit name o = (v : Json) → o ≡ some v → IsEntry name v

put_some-AllFields :
    (name : String) (o : Option Json) (fs : Fields)
    → IsFit name o
    → AllFields IsEntry fs
    → AllFields IsEntry (put_some name o fs)
put_some-AllFields name none fs p h = h
put_some-AllFields name (some v) fs p h = AllFields-put IsEntry name v fs (p v refl) h

none-IsFit : (name : String) → IsFit name none
none-IsFit name v h = cc

str-IsFit : (name s : String) → is_in name text_names ≡ true → IsFit name (some (str s))
str-IsFit name s listed v h = inl (s, cc, listed)

if-IsFit :
    (b : Bool) (name : String) (o : Option Json) → IsFit name o → IsFit name (if b then o else none)
if-IsFit true name o fit = fit
if-IsFit false name o fit = none-IsFit name

bind-IsFit :
    {A : Type 0} (o : Option A) (name : String) (f : A → Option Json)
    → ((a : A) → IsFit name (f a))
    → IsFit name (elim o [ none ↦ none | some a ↦ f a ])
bind-IsFit none name f fit = none-IsFit name
bind-IsFit (some a) name f fit = fit a

ok_injective : {A : Type 0} {a b : A} → ◌≡◌ {A = Result A} (ok a) (ok b) → a ≡ b
ok_injective h = cc

module _ {pil : Pillow} (x : Exif pil) (m : List (String × Value x.Real)) where
  stripped_tag-IsFit :
      (name tag : String) → is_in name text_names ≡ true → IsFit name (stripped_tag x tag m)
  stripped_tag-IsFit name tag listed =
      if-IsFit (truthy x (value_at tag m)) name _ (str-IsFit name _ listed)

  exposure_time-IsFit : IsFit "exposure_time" (exposure_time x m)
  exposure_time-IsFit =
      bind-IsFit (format_exposure x (value_at "ExposureTime" m)) "exposure_time" _
        λ s v h. go (s == "") s v h
    where
      go : (b : Bool) (s : String) → IsFit "exposure_time" (if b then none else some (str s))
      go true s = none-IsFit "exposure_time"
      go false s = str-IsFit "exposure_time" s refl

  aperture-IsFit : IsFit "aperture" (aperture x m)
  aperture-IsFit =
      bind-IsFit (to_float x (value_at "FNumber" m)) "aperture" _ λ f. str-IsFit "aperture" _ refl

  iso-IsFit : IsFit "iso" (iso x m)
  iso-IsFit = go _ _
    where
      go :
          (b : Bool) (o : Option ℤ)
          → IsFit "iso" (if b then none else elim o [ none ↦ none | some n ↦ some (int n) ])
      go true o = none-IsFit "iso"
      go false none = none-IsFit "iso"
      go false (some n) = λ v h. inr (inl (n, cc, refl))

  gps-IsFit : (g : Option (Option x.Real × Option x.Real)) → IsFit "gps" (gps x g)
  gps-IsFit none = none-IsFit "gps"
  gps-IsFit (some (lat, lon)) = λ v h. inr (inr (or_null x lat, or_null x lon, cc, refl))

  -- Whatever the EXIF data of an image, each entry of the dict that is stored has a known name and the
  -- kind of value that goes with it: an integer for `iso`, an object with a latitude and a longitude
  -- for `gps`, and a text for the six others.
  pub metadata_of-AllFields :
      (ifd : Option (Value x.Real)) (metadata : Fields)
      → metadata_of x ifd m ≡ ok metadata
      → AllFields IsEntry metadata
  unfolding metadata_of
  metadata_of-AllFields ifd metadata h =
      let (g, g_ok, made) = >>=-eq-ok (gps_to_decimal x (gps_info x ifd m)) _ h in
      subst (AllFields IsEntry) (ok_injective made) (
        put_some-AllFields "gps" (gps x g) _ (gps-IsFit g) (
          put_some-AllFields "iso" (iso x m) _ iso-IsFit (
            put_some-AllFields "aperture" (aperture x m) _ aperture-IsFit (
              put_some-AllFields "exposure_time" (exposure_time x m) _ exposure_time-IsFit (
                put_some-AllFields "captured_at" (captured_at x m) _
                  (if-IsFit (truthy x (value_at "DateTimeOriginal" m)) "captured_at" _
                    (str-IsFit "captured_at" _ refl))
                  (put_some-AllFields "lens_model" (stripped_tag x "LensModel" m) _
                    (stripped_tag-IsFit "lens_model" "LensModel" refl)
                    (put_some-AllFields "camera_model" (stripped_tag x "Model" m) _
                      (stripped_tag-IsFit "camera_model" "Model" refl)
                      (put_some-AllFields "camera_make" (stripped_tag x "Make" m) _
                        (stripped_tag-IsFit "camera_make" "Make" refl) tt))))))))
