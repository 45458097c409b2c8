-- ===== src/Denoise/Shapes.antt =====
-- The shapes inside the network.
use mathlib.Core.Path.{subst}
use pix_tools.Base.{
  ℕ, zero, suc, ◌+◌, ◌-◌, ◌≤◌, ◌≡◌, refl, sym, ◌∙◌, List, [], ◌∷◌, ◌++◌, ok, arith,
}
use pix_tools.Pillow.{Pillow}
use pix_tools.Denoise.Network.{
  Layer, conv2d, relu, Shape, Torch, inner_layers, hidden_layers, dncnn, sequential, forward,
}

module _ {pil : Pillow} (torch : Torch pil) where
  -- The layers take the shape `s` to the shape `s'`, without an exception.
  record Takes (s s' : Shape) (ls : List Layer) : Type 0 where
    run :
        (place : ℕ) (t : torch.Tensor)
        → torch.shape t ≡ s
        → (t' : torch.Tensor) × (sequential torch place ls t ≡ ok t') × (torch.shape t' ≡ s')

  same_size :
      (place a b h w : ℕ) (t : torch.Tensor)
      → torch.shape t ≡ (a, h, w)
      → 1 ≤ h
      → 1 ≤ w
      → (t' : torch.Tensor) × (torch.apply place (conv2d a b 3 1) t ≡ ok t')
        × (torch.shape t' ≡ (b, h, w))
  same_size place a b h w t e hh ww =
      let (t', made, s) = torch.conv2d_works place a b 3 1 h w t e (omega arith) (omega arith) in
      (t', made, s ∙ ground arith)

  convolution-Takes :
      (a b h w : ℕ) (s' : Shape) (ls : List Layer)
      → 1 ≤ h
      → 1 ≤ w
      → Takes (b, h, w) s' ls
      → Takes (a, h, w) s' (conv2d a b 3 1 ∷ ls)
  unfolding sequential
  convolution-Takes a b h w s' ls hh ww k = record {
    run = λ place t e.
        let (t', made, e') = same_size place a b h w t e hh ww in
        let (t'', rest, e'') = k.run (suc place) t' e' in (t'', ground (arith, made, rest), e'');
  }

  relu-Takes : (s s' : Shape) (ls : List Layer) → Takes s s' ls → Takes s s' (relu ∷ ls)
  unfolding sequential
  relu-Takes s s' ls k = record {
    run = λ place t e.
        let (t', made, e') = torch.relu_works place t in
        let (t'', rest, e'') = k.run (suc place) t' (e' ∙ e) in
        (t'', ground (arith, made, rest), e'');
  }

  nothing-Takes : (s : Shape) → Takes s s []
  unfolding sequential
  nothing-Takes s = record { run = λ place t e. (t, refl, e) }

  inner_layers-Takes :
      (n f h w : ℕ) (s' : Shape) (ls : List Layer)
      → 1 ≤ h
      → 1 ≤ w
      → Takes (f, h, w) s' ls
      → Takes (f, h, w) s' (inner_layers n f ++ ls)
  inner_layers-Takes zero f h w s' ls hh ww k = k
  inner_layers-Takes (suc n) f h w s' ls hh ww k =
      convolution-Takes f f h w s' _ hh ww
        (relu-Takes _ _ _ (inner_layers-Takes n f h w s' ls hh ww k))

  dncnn-Takes : (c n f h w : ℕ) → 1 ≤ h → 1 ≤ w → Takes (c, h, w) (c, h, w) (dncnn c (2 + n) f)
  dncnn-Takes c n f h w hh ww =
      let rounds : (2 + n) - 1 ≡ suc n = omega arith in
      subst (λ m. Takes (c, h, w) (c, h, w) (hidden_layers c m f ++ conv2d f c 3 1 ∷ []))
        (sym rounds)
        (convolution-Takes c f h w _ _ hh ww (
          relu-Takes _ _ _ (
            inner_layers-Takes n f h w _ _ hh ww
              (convolution-Takes f c h w _ _ hh ww (nothing-Takes _)))))

  -- The network, with any number of layers from two on, any number of channels and any width inside,
  -- takes a tensor that is not empty without an exception: each layer gets the channels that it
  -- expects, and the result has the shape of the input.
  pub forward-shape :
      (channels n features h w : ℕ) (x : torch.Tensor)
      → torch.shape x ≡ (channels, h, w)
      → 1 ≤ h
      → 1 ≤ w
      → (out : torch.Tensor) × (forward torch (dncnn channels (2 + n) features) x ≡ ok out)
        × (torch.shape out ≡ torch.shape x)
  unfolding forward
  forward-shape c n f h w x e hh ww =
      let (noise, made, e') = (dncnn-Takes c n f h w hh ww).run 0 x e in
      let (out, subtracted, e'') = torch.sub_works x noise (e ∙ sym e') in
      (out, ground (arith, made, subtracted), e'')
