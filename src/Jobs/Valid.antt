-- ===== src/Jobs/Valid.antt =====
-- What is known of a request that `create_job` has accepted.
use pix_tools.Base.{
  ◌≤◌, String, true, ◌≡◌, ◌≢◌, ◌⊎◌, inl, inr, Option, some, List, [], ◌∷◌, map, length, keep, All,
  arith, eq_iff, eq_refl, Option-cases, ok, >>=-eq-ok,
}
use pix_tools.Models.{OperationType, value}
use pix_tools.Runtime.{Runtime, Settings, Url, Loaded-cases}
use pix_tools.Params.{parse_operation_params}
use pix_tools.Params.Normal.{Kept, parse_operation_params-IsNormal}
use pix_tools.Jobs.{
  or_value_error, Upload, Request, Accepted, is_accepted, truthy, is_conversion, iterate,
  operations_of, validate_webhook_url, parse_operations, source_format, check_conversions,
  check_file, validate,
}

module _ (rt : Runtime) where
  -- No URL, or one with the scheme http or https and a host.
  abbrev pub IsWebhook : String → Type 0
  IsWebhook webhook =
      (webhook ≡ "")
      ⊎ ((u : Url) × (rt.urlparse webhook ≡ some u)
          × ((u.scheme ≡ "http") ⊎ (u.scheme ≡ "https"))
          × (u.netloc ≢ ""))

  -- The source is not in the target format already.
  abbrev pub Converts : Option String → OperationType → Type 0
  Converts filename op = some (value op) ≢ source_format rt filename

  pub record IsAcceptable (cfg : Settings) (r : Request) (v : Accepted) : Type 0 where
    pub small : length r.file.contents ≤ cfg.max_upload_bytes
    pub typed : is_accepted r.file.content_type cfg.accepted_mime_types ≡ true
    pub nonempty : v.ops ≢ []
    pub params : All (Kept rt (map value v.ops)) v.op_params
    pub webhook : IsWebhook v.webhook
    pub conversions : All (Converts r.file.filename) (keep is_conversion v.ops)

  check_file_sound :
      (cfg : Settings) (f : Upload)
      → check_file rt cfg f ≡ ok tt
      → (length f.contents ≤ cfg.max_upload_bytes)
        × (is_accepted f.content_type cfg.accepted_mime_types ≡ true)
  unfolding check_file
  check_file_sound cfg f h = ground arith

  parse_operations-nonempty :
      (s : String) (ops : List OperationType) → parse_operations rt s ≡ ok ops → ops ≢ []
  unfolding parse_operations
  parse_operations-nonempty s ops h = elim (Loaded-cases (rt.json_loads s)) [
    | inl (m, bad) ↦ ground arith
    | inr (v, good) ↦
        let (vs, _, h') = >>=-eq-ok (iterate v) _ (rw (good, parse_operations) at h) in
        let (read, _, h'') = >>=-eq-ok (operations_of rt.not_an_operation vs) _ h' in ground arith
  ]

  validate_webhook_url_sound :
      (raw : Option String) (webhook : String)
      → validate_webhook_url rt raw ≡ ok webhook
      → IsWebhook webhook
  unfolding validate_webhook_url
  validate_webhook_url_sound raw webhook h = elim (Option-cases (truthy raw)) [
    | inl no_url ↦ inl (ground arith)
    | inr (url, given) ↦
        let (u, parsed, h') =
          >>=-eq-ok (or_value_error (rt.urlparse url)) _ (rw (given, validate_webhook_url) at h) in
        let e : url ≡ webhook = ground arith in
        inr (
          u,
          ground (arith, parsed),
          ground (arith, eq_iff u.scheme "http", eq_iff u.scheme "https"),
          ground (arith, eq_iff u.netloc ""),
        )
  ]

  check_conversions_sound :
      (filename : Option String) (ops : List OperationType)
      → check_conversions rt filename ops ≡ ok tt
      → All (Converts filename) ops
  unfolding check_conversions
  check_conversions_sound filename [] h = tt
  check_conversions_sound filename (op ∷ ops) h = (
    λ same. ground (arith, eq_refl (value op)),
    check_conversions_sound filename ops (ground arith),
  )

  -- Every request that passes the checks has a file of at most the configured size and of an
  -- accepted type, at least one operation, normal operation params (see `Kept`), no webhook or an
  -- absolute http(s) one, and no conversion into the format that its file name says it has.
  pub validate-IsAcceptable :
      (cfg : Settings) (r : Request) (v : Accepted)
      → validate rt cfg r ≡ ok v
      → IsAcceptable cfg r v
  unfolding validate
  validate-IsAcceptable cfg r v h =
      let (_, file, h1) = >>=-eq-ok (check_file rt cfg r.file) _ h in
      let (ops, read, h2) = >>=-eq-ok (parse_operations rt r.operations) _ h1 in
      let (params, given, h3) =
        >>=-eq-ok (parse_operation_params rt r.operation_params (map value ops)) _ h2 in
      let (webhook, url, h4) = >>=-eq-ok (validate_webhook_url rt r.webhook_url) _ h3 in
      let (_, checked, h5) =
        >>=-eq-ok (check_conversions rt r.file.filename (keep is_conversion ops)) _ h4 in
      let e : record { ops = ops; op_params = params; webhook = webhook } ≡ v = ground arith in
      rw (← e) (record {
        small = (check_file_sound cfg r.file file).0;
        typed = (check_file_sound cfg r.file file).1;
        nonempty = parse_operations-nonempty r.operations ops read;
        params = parse_operation_params-IsNormal rt r.operation_params (map value ops) params given;
        webhook = validate_webhook_url_sound r.webhook_url webhook url;
        conversions = check_conversions_sound r.file.filename (keep is_conversion ops) checked;
      })
