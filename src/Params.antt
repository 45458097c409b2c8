-- ===== src/Params.antt =====
-- `_parse_operation_params` of app/routers/jobs.py: the optional `operation_params` form field.
pub mod Parts
pub mod Normal
use Prim.Native.String.{◌++◌}
use pix_tools.Base.{
  String, not, ◌||◌, ◌&&◌, Option, none, some, List, [], ◌∷◌, ◌==◌, if◌then◌else◌, is_in, insert,
  Exn, Result, ok, err, ◌>>=◌, ◌>>◌, raise_if, unprocessable, except_type_or_value,
}
use pix_tools.Base.Int.{pos, ltb_ℤ, leb_ℤ}
use pix_tools.Json.{Json, int, obj, Fields, end, field, get, put, is_null, as_dict, is_end, to_int}
use pix_tools.Runtime.{Runtime, decoded, decode_error}

abbrev pub quality_supported_ops : List String
quality_supported_ops = "jpg" ∷ "webp" ∷ []

abbrev pub resize_supported_ops : List String
resize_supported_ops = "jpg" ∷ "png" ∷ "webp" ∷ "avif" ∷ "denoise" ∷ []

abbrev about : String → String → Exn
about op_name rest = unprocessable ("operation_params['" ++ (op_name ++ ("']" ++ rest)))

module _ (rt : Runtime) where
  -- the block on `quality`
  unfoldable pub parse_quality : String → Fields → Fields → Result Fields
  parse_quality op_name op_params out =
      let quality = get "quality" op_params in
      if is_null quality then ok out else do
        raise_if (not (is_in op_name quality_supported_ops))
            (about op_name ".quality is only supported for jpg/webp")
        q ←
            except_type_or_value (to_int rt.int_of_str quality)
              (about op_name ".quality must be an integer")
        raise_if (ltb_ℤ q (pos 1) || ltb_ℤ (pos 100) q) (about op_name ".quality must be 1..100")
        ok (put "quality" (int q) out)

  -- the block on `width`, and the one on `height`
  unfoldable pub parse_dimension : String → String → Json → Fields → Result Fields
  parse_dimension op_name side value resize_out = if is_null value then ok resize_out else do
    n ←
        except_type_or_value (to_int rt.int_of_str value)
          (about op_name (".resize." ++ (side ++ " must be an integer")))
    raise_if (leb_ℤ n (pos 0)) (about op_name (".resize." ++ (side ++ " must be > 0")))
    ok (put side (int n) resize_out)

  -- the dict of `resize`
  unfoldable pub parse_sides : String → Fields → Result Fields
  parse_sides op_name resize = do
    let width = get "width" resize
    let height = get "height" resize
    raise_if (is_null width && is_null height) (about op_name ".resize requires width or height")
    wide ← parse_dimension op_name "width" width end
    parse_dimension op_name "height" height wide

  -- the block on `resize`
  unfoldable pub parse_resize : String → Fields → Fields → Result Fields
  parse_resize op_name op_params out =
      let resize = get "resize" op_params in
      if is_null resize then ok out else do
        raise_if (not (is_in op_name resize_supported_ops))
            (about op_name ".resize is only supported for jpg/png/webp/avif/denoise")
        elim (as_dict resize) [
          | none ↦ err (about op_name ".resize must be an object")
          | some fs ↦ do sides ← parse_sides op_name fs; ok (put "resize" (obj sides) out)
        ]

  -- one round of the loop over `parsed.items()`
  unfoldable pub parse_item :
      List String → String → Json → List (String × Fields) → Result (List (String × Fields))
  parse_item allowed op_name value normalized =
      if not (is_in op_name allowed) then ok normalized else elim (as_dict value) [
        | none ↦ err (about op_name " must be an object")
        | some op_params ↦ do
          with_quality ← parse_quality op_name op_params end
          out ← parse_resize op_name op_params with_quality
          ok (if is_end out then normalized else insert op_name out normalized)
      ]

  unfoldable pub parse_items :
      List String → Fields → List (String × Fields) → Result (List (String × Fields))
  parse_items allowed end normalized = ok normalized
  parse_items allowed (field op_name value fs) normalized =
      parse_item allowed op_name value normalized >>= λ next. parse_items allowed fs next

  -- `ops` comes as the values of its members
  unfoldable pub parse_operation_params :
      Option String → List String → Result (List (String × Fields))
  parse_operation_params none allowed = ok []
  parse_operation_params (some raw_params) allowed =
      if raw_params == "" then ok [] else elim (rt.json_loads raw_params) [
        | decode_error message ↦ err (unprocessable ("Invalid operation_params JSON: " ++ message))
        | decoded parsed ↦ elim (as_dict parsed) [
          | none ↦ err (unprocessable "operation_params must be a JSON object")
          | some fs ↦ parse_items allowed fs []
        ]
      ]
