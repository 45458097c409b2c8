-- ===== src/Denoise/Network.antt =====
-- app/ml/dncnn.py: the layers of the network, and its residual.
use pix_tools.Base.{ℕ, zero, suc, ◌+◌, ◌*◌, ◌-◌, ◌≤◌, ◌≡◌, List, [], ◌∷◌, ◌++◌, Result, ok, ◌>>=◌}
use pix_tools.Pillow.{Pillow}

-- `nn.Conv2d` of stride 1 with a square kernel, and `nn.ReLU`
pub data Layer : Type 0 where
  conv2d : (in_channels out_channels kernel_size padding : ℕ) → Layer
  relu : Layer

-- Channels, height and width.
abbrev pub Shape : Type 0
Shape = ℕ × ℕ × ℕ

-- What the code asks of torch and numpy, with the weights of the checkpoint: `apply` is a layer on a
-- tensor, `sub` is `-`, `tensor_of` and `image_of` are the conversions between images and tensors.
pub record Torch (pil : Pillow) : Type 1 where
  pub Tensor : Type 0
  pub shape : Tensor → Shape
  -- the layer at a place of the model
  pub apply : (place : ℕ) → Layer → Tensor → Result Tensor
  pub sub : Tensor → Tensor → Result Tensor
  pub tensor_of : pil.Image → Tensor
  pub image_of : Tensor → Result pil.Image
  -- The documented shapes.
  pub conv2d_works :
      (place c_in c_out k pad h w : ℕ) (t : Tensor)
      → shape t ≡ (c_in, h, w)
      → k ≤ h + 2 * pad
      → k ≤ w + 2 * pad
      → (t' : Tensor) × (apply place (conv2d c_in c_out k pad) t ≡ ok t')
        × (shape t' ≡ (c_out, (h + 2 * pad + 1) - k, (w + 2 * pad + 1) - k))
  pub relu_works :
      (place : ℕ) (t : Tensor) → (t' : Tensor) × (apply place relu t ≡ ok t') × (shape t' ≡ shape t)
  pub sub_works :
      (s t : Tensor) → shape s ≡ shape t → (t' : Tensor) × (sub s t ≡ ok t') × (shape t' ≡ shape s)
  pub shape-tensor_of :
      (image : pil.Image) → shape (tensor_of image) ≡ (3, (pil.size image).1, (pil.size image).0)

-- The rounds of the loop after the first, which all have `features` on both sides.
abbrev pub inner_layers : (rounds features : ℕ) → List Layer
inner_layers zero features = []
inner_layers (suc n) features = conv2d features features 3 1 ∷ relu ∷ inner_layers n features

-- `for i in range(num_layers - 1)`, where the first round starts from `channels`
abbrev pub hidden_layers : (channels rounds features : ℕ) → List Layer
hidden_layers channels zero features = []
hidden_layers channels (suc n) features =
    conv2d channels features 3 1 ∷ relu ∷ inner_layers n features

-- `DnCNN(channels, num_layers, features)`
abbrev pub dncnn : (channels num_layers features : ℕ) → List Layer
dncnn channels num_layers features =
    hidden_layers channels (num_layers - 1) features ++ conv2d features channels 3 1 ∷ []

module _ {pil : Pillow} (torch : Torch pil) where
  -- `nn.Sequential`, from a place on
  unfoldable pub sequential : ℕ → List Layer → torch.Tensor → Result torch.Tensor
  sequential place [] x = ok x
  sequential place (l ∷ ls) x = torch.apply place l x >>= sequential (suc place) ls

  unfoldable pub forward : List Layer → torch.Tensor → Result torch.Tensor
  forward layers x = do noise ← sequential 0 layers x; torch.sub x noise
