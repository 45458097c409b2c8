-- ===== src/Params/Parts.antt =====
-- What the parts of `_parse_operation_params` let through: `quality` and `resize`.
use pix_tools.Base.{
  ℕ, zero, suc, ◌<◌, ◌≤◌, String, true, not, ◌≡◌, refl, ◌≢◌, ◌⊎◌, inl, inr, none, some, arith,
  Bool-cases, Option-cases, ◌||◌, is_in, Exn, Result, ok, err, ◌>>=◌, ◌>>◌, >>=-eq-ok, raise_if,
  except_type_or_value, type_error, ◌&&◌,
}
use pix_tools.Base.Int.{ℤ, pos, negsuc, ltb_ℤ, leb_ℤ}
use pix_tools.Json.{Json, int, obj, Fields, end, field, find, get, put, is_null, as_dict, to_int}
use pix_tools.Runtime.{Runtime}
use pix_tools.Params.{
  quality_supported_ops, resize_supported_ops, parse_quality, parse_dimension, parse_sides,
  parse_resize,
}

-- A side that is left out, or a positive integer.
abbrev pub IsSide : String → Fields → Type 0
IsSide side r = (find side r ≡ none) ⊎ ((n : ℕ) × (find side r ≡ some (int (pos n))) × (0 < n))

pub record IsResize (r : Fields) : Type 0 where
  pub width : IsSide "width" r
  pub height : IsSide "height" r
  pub given : (find "width" r ≢ none) ⊎ (find "height" r ≢ none)

module _ (side : String) (before after : Fields) (x y : Exn) where
  chosen_side :
      (r : Result ℤ)
      → (do
        n ← except_type_or_value r x
        raise_if (leb_ℤ n (pos 0)) y
        ok (put side (int n) before))
        ≡ ok after
      → (n : ℕ) × (after ≡ put side (int (pos n)) before) × (0 < n)
  chosen_side (ok (pos zero)) h = ground arith
  chosen_side (ok (pos (suc k))) h = (suc k, ground arith, omega arith)
  chosen_side (ok (negsuc k)) h = ground arith
  chosen_side (err type_error) h = ground arith
  chosen_side (err _) h = ground arith

module _ (after : Fields) (x y : Exn) where
  chosen_quality :
      (r : Result ℤ)
      → (do
        q ← except_type_or_value r x
        raise_if (ltb_ℤ q (pos 1) || ltb_ℤ (pos 100) q) y
        ok (put "quality" (int q) end))
        ≡ ok after
      → (q : ℕ) × (after ≡ field "quality" (int (pos q)) end) × (1 ≤ q) × (q ≤ 100)
  chosen_quality (ok (pos q)) h = (q, ground arith, ground arith, ground arith)
  chosen_quality (ok (negsuc k)) h = ground arith
  chosen_quality (err type_error) h = ground arith
  chosen_quality (err _) h = ground arith

module _ (rt : Runtime) where
  parse_dimension_sound :
      (op side : String) (v : Json) (before after : Fields)
      → parse_dimension rt op side v before ≡ ok after
      → ((after ≡ before) × (is_null v ≡ true))
        ⊎ ((n : ℕ) × (after ≡ put side (int (pos n)) before) × (0 < n))
  unfolding parse_dimension
  parse_dimension_sound op side v before after h = elim (Bool-cases (is_null v)) [
    | inl missing ↦ inl (ground arith, missing)
    | inr there ↦ inr (chosen_side side before after _ _ (to_int rt.int_of_str v) (rw there at h))
  ]

  parse_sides_sound : (op : String) (fs r : Fields) → parse_sides rt op fs ≡ ok r → IsResize r
  unfolding parse_sides
  parse_sides_sound op fs r h =
      let (_, tested, h') =
        >>=-eq-ok (raise_if (is_null (get "width" fs) && is_null (get "height" fs)) _) _ h in
      let (wide, wide_ok, h'') =
        >>=-eq-ok (parse_dimension rt op "width" (get "width" fs) end) _ h' in
      elim (parse_dimension_sound op "width" _ end wide wide_ok) [
        | inl (e, missing) ↦ elim (parse_dimension_sound op "height" _ wide r h'') [
          | inl (e', missing') ↦ ground (arith, tested)
          | inr (n, e', p) ↦
              rw (e', e)
                (record { width = inl refl; height = inr (n, refl, p); given = inr (λ z. cc) })
        ]
        | inr (m, e, q) ↦ elim (parse_dimension_sound op "height" _ wide r h'') [
          | inl (e', missing') ↦
              rw (e', e)
                (record { width = inr (m, refl, q); height = inl refl; given = inl (λ z. cc) })
          | inr (n, e', p) ↦
              rw (e', e)
                (record {
                  width = inr (m, refl, q);
                  height = inr (n, refl, p);
                  given = inl (λ z. cc);
                })
        ]
      ]

  -- What `quality` adds to the empty dict.
  pub parse_quality_sound :
      (op : String) (fs out : Fields)
      → parse_quality rt op fs end ≡ ok out
      → (out ≡ end)
        ⊎ ((q : ℕ) × (out ≡ field "quality" (int (pos q)) end)
            × (1 ≤ q)
            × (q ≤ 100)
            × (is_in op quality_supported_ops ≡ true))
  unfolding parse_quality
  parse_quality_sound op fs out h = elim (Bool-cases (is_null (get "quality" fs))) [
    | inl missing ↦ inl (ground arith)
    | inr there ↦
        let (_, supported, h') =
          >>=-eq-ok (raise_if (not (is_in op quality_supported_ops)) _) _ (rw there at h) in
        let (q, e, low, high) =
          chosen_quality out _ _ (to_int rt.int_of_str (get "quality" fs)) h' in
        inr (q, e, low, high, ground (arith, supported))
  ]

  pub parse_resize_sound :
      (op : String) (fs before out : Fields)
      → parse_resize rt op fs before ≡ ok out
      → (out ≡ before)
        ⊎ ((r : Fields) × (out ≡ put "resize" (obj r) before)
            × IsResize r
            × (is_in op resize_supported_ops ≡ true))
  unfolding parse_resize
  parse_resize_sound op fs before out h = elim (Bool-cases (is_null (get "resize" fs))) [
    | inl missing ↦ inl (ground arith)
    | inr there ↦
        let (_, supported, h') =
          >>=-eq-ok (raise_if (not (is_in op resize_supported_ops)) _) _ (rw there at h) in
        elim (Option-cases (as_dict (get "resize" fs))) [
          | inl other ↦ ground arith
          | inr (sides, found) ↦
              let (r, r_ok, h'') = >>=-eq-ok (parse_sides rt op sides) _ (rw found at h') in
              inr (r, ground arith, parse_sides_sound op sides r r_ok, ground (arith, supported))
        ]
  ]
