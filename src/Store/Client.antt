-- ===== src/Store/Client.antt =====
-- `_get_client` and `_setup_lifecycle_policy` of app/services/s3.py: the S3 client that a process
-- makes once, and the expiry of the stored objects.
use Prim.Native.String.{◌++◌}
use text.Mathlib.Text.{starts_with}
use text.Mathlib.TextPositions.{starts_with-append}
use pix_tools.Base.{
  ℕ, String, Bool, true, false, ◌≡◌, Option, none, some, List, [], ◌∷◌, if◌then◌else◌, Result, ok,
  err, unavailable, s3_put, arith, ◌||◌, Bool-cases, inl, inr,
}
use pix_tools.Store.{raw_key, processed_key, get_archive_key}

-- An enabled rule of a lifecycle configuration.
pub record Rule : Type 0 where
  pub id : String
  pub prefix : String
  pub days : ℕ

abbrev pub lifecycle_rules : (retention_days : ℕ) → List Rule
lifecycle_rules days =
    record { id = "ExpireRawImages"; prefix = "raw/"; days = days }
    ∷ record { id = "ExpireProcessedImages"; prefix = "processed/"; days = days }
    ∷ record { id = "ExpireArchives"; prefix = "archives/"; days = days }
    ∷ []

-- When S3 expires the object of a key, by the first rule for it.
abbrev pub expiry : String → List Rule → Option ℕ
expiry key [] = none
expiry key (r ∷ rs) = if starts_with key r.prefix then some r.days else expiry key rs

-- `_s3_client is not None`, and what there is at S3.
pub record S3 : Type 0 where
  pub client : Bool
  pub bucket : Bool
  pub rules : List Rule

-- Whether the calls fail now: `create_bucket`, and `put_bucket_lifecycle_configuration`, which S3
-- refuses for a bucket that is missing. `head_bucket` fails if the bucket is missing.
pub record Failing : Type 0 where
  pub create : Bool
  pub configure : Bool

-- the `try` of the development set-up
abbrev ensure_bucket : (endpoint_url : Bool) → Failing → S3 → Result (Unit {0}) × S3
ensure_bucket false failing s = (ok tt, s)
ensure_bucket true failing s =
    if s.bucket
    then (ok tt, s)
    else if failing.create
    then (err (unavailable s3_put), s)
    else (ok tt, record s { bucket = true })

-- A failure is only logged.
unfoldable pub setup_lifecycle_policy : (retention_days : ℕ) → Failing → S3 → S3
setup_lifecycle_policy days failing s =
    if failing.configure
    then s
    else if s.bucket
    then record s { rules = lifecycle_rules days }
    else s

-- the calls after a bucket has been ensured, or the exception
abbrev then_configure :
    (retention_days : ℕ) → Failing → Result (Unit {0}) → S3 → Result (Unit {0}) × S3
then_configure days failing (ok _) made = (ok tt, setup_lifecycle_policy days failing made)
then_configure days failing (err e) made = (err e, made)

unfoldable pub get_client :
    (endpoint_url : Bool) (retention_days : ℕ) → Failing → S3 → Result (Unit {0}) × S3
get_client endpoint_url days failing s =
    if s.client
    then (ok tt, s)
    else let (r, made) = ensure_bucket endpoint_url failing (record s { client = true }) in
      then_configure days failing r made

-- A key under one of the prefixes.
prefixed-expiry :
    (key : String) (days : ℕ)
    → (starts_with key "raw/" || (starts_with key "processed/" || starts_with key "archives/"))
      ≡ true
    → expiry key (lifecycle_rules days) ≡ some days
prefixed-expiry key days h = ground (arith, h)

configured :
    (endpoint_url : Bool) (days : ℕ) (s : S3) (failing : Failing)
    → s.client ≡ false
    → failing.create ≡ false
    → failing.configure ≡ false
    → (endpoint_url || s.bucket) ≡ true
    → ((get_client endpoint_url days failing s).0 ≡ ok tt)
      × ((get_client endpoint_url days failing s).1.rules ≡ lifecycle_rules days)
unfolding get_client setup_lifecycle_policy
configured true days s failing fresh can may there = elim (Bool-cases s.bucket) [
  | inl old ↦ (ground (arith, fresh, can, may, old), ground (arith, fresh, can, may, old))
  | inr new ↦ (ground (arith, fresh, can, may, new), ground (arith, fresh, can, may, new))
]
configured false days s failing fresh can may there =
    (ground (arith, fresh, may, there), ground (arith, fresh, may, there))

-- Every object that the program stores expires after the days of retention, and once the client is
-- made the rules are there: on the first call, where neither call fails and, off the development
-- set-up, the bucket exists.
pub get_client-expiry :
    (endpoint_url : Bool) (days : ℕ) (s : S3) (failing : Failing)
    (job_id uuid_hex operation ext : String)
    → s.client ≡ false
    → failing.create ≡ false
    → failing.configure ≡ false
    → (endpoint_url || s.bucket) ≡ true
    → let (r, s') = get_client endpoint_url days failing s in
      (r ≡ ok tt)
      × (expiry (raw_key job_id uuid_hex ext) s'.rules ≡ some days)
      × (expiry (processed_key job_id operation uuid_hex ext) s'.rules ≡ some days)
      × (expiry (get_archive_key job_id) s'.rules ≡ some days)
unfolding get_archive_key
get_client-expiry endpoint_url days s failing job_id uuid_hex operation ext fresh can may there =
    let (made, rules) = configured endpoint_url days s failing fresh can may there in
    (
      made,
      rw rules (
          prefixed-expiry (raw_key job_id uuid_hex ext) days (
            ground
              (arith, starts_with-append "raw/" (job_id ++ ("/" ++ (uuid_hex ++ ("." ++ ext))))))),
      rw rules (
          prefixed-expiry (processed_key job_id operation uuid_hex ext) days (
            ground (
              arith,
              starts_with-append "processed/"
                  (job_id ++ ("/" ++ (operation ++ ("_" ++ (uuid_hex ++ ("." ++ ext)))))),
            ))),
      rw rules (
          prefixed-expiry (get_archive_key job_id) days
            (ground (arith, starts_with-append "archives/" (job_id ++ "/bundle.zip")))),
    )

-- A first call whose `create_bucket` fails raises, but the client stays: the next call returns it,
-- with no bucket and no expiry, even if nothing fails any more.
get_client-half_made :
    (days : ℕ) (s : S3) (failing later : Failing)
    → s.client ≡ false
    → s.bucket ≡ false
    → failing.create ≡ true
    → let s' = (get_client true days failing s).1 in
      ((get_client true days failing s).0 ≡ err (unavailable s3_put))
      × (get_client true days later s' ≡ (ok tt, s'))
      × (s'.bucket ≡ false)
      × (s'.rules ≡ s.rules)
unfolding get_client
get_client-half_made days s failing later fresh absent fails = (
  ground (arith, fresh, absent, fails),
  ground (arith, fresh, absent, fails),
  ground (arith, fresh, absent, fails),
  ground (arith, fresh, absent, fails),
)
