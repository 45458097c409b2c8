-- ===== src/Images/Bounds.antt =====
-- What the params that the API accepts come to in a worker.
use pix_tools.Base.{
  ℕ, ◌<◌, ◌≤◌, ◌≡◌, refl, ◌≢◌, ◌⊎◌, inl, inr, false, ◌&&◌, String, Option, none, some, List,
  if◌then◌else◌, ok, arith, All, All-mono,
}
use pix_tools.Base.Int.{ℤ, pos, ltb_ℤ, min_ℤ}
use pix_tools.Json.{Fields, end, field, find, get, is_null, to_int}
use pix_tools.Runtime.{Runtime, Settings}
use pix_tools.Params.{parse_operation_params}
use pix_tools.Params.Normal.{IsNormal, HasResize, IsQuality, parse_operation_params-IsNormal}
use pix_tools.Params.Parts.{IsSide, IsResize}
use pix_tools.Images.{Dims, parse_side, parse_resize, extract_quality, resize_of}

-- A number that is left out, or one from 1 to the limit.
abbrev pub IsBounded : ℕ → Option ℤ → Type 0
IsBounded limit d = (d ≡ none) ⊎ ((n : ℕ) × (d ≡ some (pos n)) × (1 ≤ n) × (n ≤ limit))

abbrev pub AreBounded : Settings → Option Dims → Type 0
AreBounded settings none = Unit
AreBounded settings (some (width, height)) =
    IsBounded settings.max_image_width width × IsBounded settings.max_image_height height

-- A worker reads the params without an exception, and what it reads is within the limits.
pub record IsReadable (rt : Runtime) (settings : Settings) (params : Fields) : Type 0 where
  pub dims : Option Dims
  pub resize_ok : parse_resize rt settings (some params) ≡ ok dims
  pub resize_bounded : AreBounded settings dims
  pub quality : Option ℤ
  pub quality_ok : extract_quality rt (some params) ≡ ok quality
  pub quality_bounded : IsBounded 100 quality

min_pos : (limit n : ℕ) → 0 < limit → 0 < n → IsBounded limit (some (min_ℤ (pos n) (pos limit)))
min_pos limit n h k =
    inr (if ltb_ℤ (pos limit) (pos n) then limit else n, ground arith, ground arith, ground arith)

given_side :
    (side : String) (r : Fields) → IsSide side r → find side r ≢ none → is_null (get side r) ≡ false
given_side side r (inl gone) k = absurd (k gone)
given_side side r (inr (n, there, _)) k = rw there refl

some_side :
    (r : Fields) → IsResize r → (is_null (get "width" r) && is_null (get "height" r)) ≡ false
some_side r n = elim n.given [
  | inl wide ↦ rw (given_side "width" r n.width wide) refl
  | inr high ↦ rw (given_side "height" r n.height high) (ground arith)
]

module _ (rt : Runtime) (settings : Settings) where
  side_read :
      (limit : ℕ) (side : String) (r : Fields)
      → 0 < limit
      → IsSide side r
      → (d : Option ℤ) × (parse_side rt limit (get side r) ≡ ok d) × IsBounded limit d
  unfolding parse_side to_int
  side_read limit side r h (inl gone) = (none, rw gone refl, inl refl)
  side_read limit side r h (inr (n, there, positive)) =
      (some (min_ℤ (pos n) (pos limit)), rw there (ground arith), min_pos limit n h positive)

  quality_read :
      (op : String) (out : Fields)
      → IsQuality op out
      → (q : Option ℤ) × (extract_quality rt (some out) ≡ ok q) × IsBounded 100 q
  unfolding extract_quality to_int
  quality_read op out (inl gone) = (none, rw (gone, extract_quality) refl, inl refl)
  quality_read op out (inr (q, there, low, high, _)) =
      (some (pos q), rw (there, extract_quality) (ground arith), inr (q, refl, low, high))

  sides_read :
      (r : Fields)
      → 0 < settings.max_image_width
      → 0 < settings.max_image_height
      → IsResize r
      → (params : Fields) → resize_of (some params) ≡ some r
      → (d : Option Dims) × (parse_resize rt settings (some params) ≡ ok d) × AreBounded settings d
  unfolding parse_resize
  sides_read r mw mh n params there =
      let (w, w_ok, w_bounded) = side_read settings.max_image_width "width" r mw n.width in
      let (h, h_ok, h_bounded) = side_read settings.max_image_height "height" r mh n.height in
      let asked = some_side r n in
      (some (w, h), rw (there, parse_resize) (rw (asked, w_ok, h_ok) refl), (w_bounded, h_bounded))

  resize_read :
      (op : String) (out : Fields)
      → 0 < settings.max_image_width
      → 0 < settings.max_image_height
      → out ≢ end
      → HasResize op out
      → (d : Option Dims) × (parse_resize rt settings (some out) ≡ ok d) × AreBounded settings d
  unfolding parse_resize
  resize_read op end mw mh full _ = absurd (full refl)
  resize_read op (field k v fs) mw mh full (inl gone) = (none, rw (gone, parse_resize) refl, tt)
  resize_read op (field k v fs) mw mh full (inr (r, there, sides, _)) =
      sides_read r mw mh sides (field k v fs) (rw there refl)

  IsReadable-of_normal :
      (op : String) (out : Fields)
      → 0 < settings.max_image_width
      → 0 < settings.max_image_height
      → IsNormal op out
      → IsReadable rt settings out
  IsReadable-of_normal op out mw mh n =
      let (q, q_ok, q_bounded) = quality_read op out n.quality in
      let (d, d_ok, d_bounded) = resize_read op out mw mh n.nonempty n.resize in
      record {
        dims = d;
        resize_ok = d_ok;
        resize_bounded = d_bounded;
        quality = q;
        quality_ok = q_ok;
        quality_bounded = q_bounded;
      }

  -- Whatever params the API accepts, no worker stumbles over them: for each operation of the
  -- result, `_parse_resize` and `_extract_quality` raise nothing, a requested side is from 1 to the
  -- configured maximum, and a quality from 1 to 100. The configured maxima are positive.
  pub parse_operation_params-IsReadable :
      (raw_params : Option String) (allowed : List String) (d : List (String × Fields))
      → 0 < settings.max_image_width
      → 0 < settings.max_image_height
      → parse_operation_params rt raw_params allowed ≡ ok d
      → All (λ e. IsReadable rt settings e.1) d
  parse_operation_params-IsReadable raw allowed d mw mh h =
      All-mono (λ e k. IsReadable-of_normal e.0 e.1 mw mh k.1) d
        (parse_operation_params-IsNormal rt raw allowed d h)
