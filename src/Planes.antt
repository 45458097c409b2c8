-- ===== src/Planes.antt =====
-- A torch in memory, on which the examples run: a tensor is its shape.
use pix_tools.Base.{
  ℕ, ◌+◌, ◌*◌, ◌-◌, ◌≤◌, ◌≡◌, refl, ◌&&◌, if◌then◌else◌, eqb, leb, Result, ok, err, value_error,
  arith,
}
use pix_tools.Raster.{raster}
use pix_tools.Denoise.Network.{Shape, Layer, conv2d, relu, Torch}

abbrev pub apply_layer : Layer → Shape → Result Shape
apply_layer relu t = ok t
apply_layer (conv2d c_in c_out k pad) (c, h, w) =
    if eqb c c_in && (leb k (h + 2 * pad) && leb k (w + 2 * pad))
    then ok (c_out, (h + 2 * pad + 1) - k, (w + 2 * pad + 1) - k)
    else err value_error

abbrev pub subtract : Shape → Shape → Result Shape
subtract (c, h, w) (c', h', w') =
    if eqb c c' && (eqb h h' && eqb w w') then ok (c, h, w) else err value_error

abbrev pub picture : Shape → Result (ℕ × ℕ)
picture (c, h, w) = if eqb c 3 then ok (w, h) else err value_error

pub conv2d_applied :
    (c_in c_out k pad h w : ℕ) (t : Shape)
    → t ≡ (c_in, h, w)
    → k ≤ h + 2 * pad
    → k ≤ w + 2 * pad
    → (t' : Shape) × (apply_layer (conv2d c_in c_out k pad) t ≡ ok t')
      × (t' ≡ (c_out, (h + 2 * pad + 1) - k, (w + 2 * pad + 1) - k))
conv2d_applied c_in c_out k pad h w t e hh ww = rw e (_, ground arith, refl)

pub subtracted : (s t : Shape) → s ≡ t → (t' : Shape) × (subtract s t ≡ ok t') × (t' ≡ s)
subtracted s t e = rw e (_, ground arith, refl)

abbrev pub planes : Torch raster
planes = record {
  Tensor = Shape;
  shape = λ t. t;
  apply = λ place. apply_layer;
  sub = subtract;
  tensor_of = λ image. (3, image.1, image.0);
  image_of = picture;
  conv2d_works = λ place. conv2d_applied;
  relu_works = λ place t. (t, refl, refl);
  sub_works = subtracted;
  shape-tensor_of = λ image. refl;
}
