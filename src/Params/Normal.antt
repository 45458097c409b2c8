-- ===== src/Params/Normal.antt =====
-- What `_parse_operation_params` lets through.
use pix_tools.Base.{
  ℕ, ◌≤◌, String, true, ◌≡◌, refl, ◌∙◌, ◌≢◌, ◌⊎◌, inl, inr, Option, none, some, List, [], arith,
  ◌==◌, Bool-cases, Option-cases, if◌then◌else◌, is_in, All, All-insert, insert, ok, >>=-eq-ok,
}
use pix_tools.Base.Int.{pos}
use pix_tools.Json.{Json, int, obj, Fields, end, field, find, as_dict, is_end}
use pix_tools.Runtime.{Runtime, Loaded-cases}
use mathlib.Core.Path.{subst}
use pix_tools.Params.{
  quality_supported_ops, resize_supported_ops, parse_quality, parse_resize, parse_item, parse_items,
  parse_operation_params,
}
use pix_tools.Params.Parts.{IsResize, parse_quality_sound, parse_resize_sound}

abbrev pub IsQuality : String → Fields → Type 0
IsQuality op out =
    (find "quality" out ≡ none)
    ⊎ ((q : ℕ) × (find "quality" out ≡ some (int (pos q)))
        × (1 ≤ q)
        × (q ≤ 100)
        × (is_in op quality_supported_ops ≡ true))

abbrev pub HasResize : String → Fields → Type 0
HasResize op out =
    (find "resize" out ≡ none)
    ⊎ ((r : Fields) × (find "resize" out ≡ some (obj r))
        × IsResize r
        × (is_in op resize_supported_ops ≡ true))

-- The params that are kept for one operation.
pub record IsNormal (op : String) (out : Fields) : Type 0 where
  pub quality : IsQuality op out
  pub resize : HasResize op out
  pub nonempty : out ≢ end

module _ (rt : Runtime) where
  -- The two dicts together, as `out`.
  IsNormal-of_parts :
      (op : String) (fs with_quality out : Fields)
      → parse_quality rt op fs end ≡ ok with_quality
      → parse_resize rt op fs with_quality ≡ ok out
      → (out ≡ end) ⊎ IsNormal op out
  IsNormal-of_parts op fs wq out hq hr = elim (parse_quality_sound rt op fs wq hq) [
    | inl eq ↦ elim (parse_resize_sound rt op fs wq out hr) [
      | inl er ↦ inl (er ∙ eq)
      | inr (r, er, sides, fits) ↦ inr (
          rw (er, eq)
            (record {
              quality = inl refl;
              resize = inr (r, refl, sides, fits);
              nonempty = λ z. cc;
            }))
    ]
    | inr (q, eq, low, high, fitq) ↦ elim (parse_resize_sound rt op fs wq out hr) [
      | inl er ↦ inr (
          rw (er, eq)
            (record {
              quality = inr (q, refl, low, high, fitq);
              resize = inl refl;
              nonempty = λ z. cc;
            }))
      | inr (r, er, sides, fits) ↦ inr (
          rw (er, eq)
            (record {
              quality = inr (q, refl, low, high, fitq);
              resize = inr (r, refl, sides, fits);
              nonempty = λ z. cc;
            }))
    ]
  ]

  -- What is kept for each key of the result.
  abbrev pub Kept : List String → String × Fields → Type 0
  Kept allowed e = (is_in e.0 allowed ≡ true) × IsNormal e.0 e.1

  stored :
      (allowed : List String) (op : String) (out : Fields) (d : List (String × Fields))
      → is_in op allowed ≡ true
      → (out ≡ end) ⊎ IsNormal op out
      → All (Kept allowed) d
      → All (Kept allowed) (if is_end out then d else insert op out d)
  stored allowed op end d listed _ h = h
  stored allowed op (field k v fs) d listed (inl e) h = cc
  stored allowed op (field k v fs) d listed (inr n) h =
      All-insert (Kept allowed) op (field k v fs) d (λ j e. rw e (listed, n)) h

  parse_item_sound :
      (allowed : List String) (op : String) (v : Json) (before after : List (String × Fields))
      → parse_item rt allowed op v before ≡ ok after
      → All (Kept allowed) before
      → All (Kept allowed) after
  unfolding parse_item
  parse_item_sound allowed op v before after h kept = elim (Bool-cases (is_in op allowed)) [
    | inr other ↦ let e : before ≡ after = ground arith in subst (All (Kept allowed)) e kept
    | inl listed ↦ elim (Option-cases (as_dict v)) [
      | inl wrong ↦ ground arith
      | inr (fs, found) ↦
          let (wq, wq_ok, h') =
            >>=-eq-ok (parse_quality rt op fs end) _ (rw found at (rw listed at h)) in
          let (out, out_ok, h'') = >>=-eq-ok (parse_resize rt op fs wq) _ h' in
          let e : (if is_end out then before else insert op out before) ≡ after = ground arith in
          subst (All (Kept allowed)) e
            (stored allowed op out before listed (IsNormal-of_parts op fs wq out wq_ok out_ok) kept)
    ]
  ]

  parse_items_sound :
      (allowed : List String) (fs : Fields) (before after : List (String × Fields))
      → parse_items rt allowed fs before ≡ ok after
      → All (Kept allowed) before
      → All (Kept allowed) after
  unfolding parse_items
  parse_items_sound allowed end before after h kept =
      let e : before ≡ after = ground arith in subst (All (Kept allowed)) e kept
  parse_items_sound allowed (field op v fs) before after h kept =
      let (next, next_ok, h') = >>=-eq-ok (parse_item rt allowed op v before) _ h in
      parse_items_sound allowed fs next after h'
        (parse_item_sound allowed op v before next next_ok kept)

  -- Whatever params a request carries, if they are accepted then every entry of the result belongs
  -- to a requested operation and is in normal form: it is not empty; a `quality` in it is an integer
  -- from 1 to 100 and belongs to jpg or webp; a `resize` in it has a width or a height, each that it
  -- has a positive integer, and belongs to an operation that resizes.
  pub parse_operation_params-IsNormal :
      (raw_params : Option String) (allowed : List String) (d : List (String × Fields))
      → parse_operation_params rt raw_params allowed ≡ ok d
      → All (Kept allowed) d
  unfolding parse_operation_params
  parse_operation_params-IsNormal none allowed d h =
      let e : [] ≡ d = ground arith in subst (All (Kept allowed)) e tt
  parse_operation_params-IsNormal (some raw) allowed d h = elim (Bool-cases (raw == "")) [
    | inl blank ↦ let e : [] ≡ d = ground arith in subst (All (Kept allowed)) e tt
    | inr text ↦ elim (Loaded-cases (rt.json_loads raw)) [
      | inl (m, bad) ↦ ground arith
      | inr (v, good) ↦ elim (Option-cases (as_dict v)) [
        | inl wrong ↦ ground arith
        | inr (fs, found) ↦
            parse_items_sound allowed fs [] d (rw found at (rw good at (rw text at h))) tt
      ]
    ]
  ]
