-- ===== src/Jobs/Create/Repeated.antt =====
-- Idempotency keys: a repeated request, and a request whose dispatch failed.
use pix_tools.Base.{
  ℕ, ◌+◌, ◌<◌, String, Bool, false, ◌≡◌, refl, ◌≢◌, none, some, [], arith, eq_refl, eq_iff, ok,
  redis_get, db_commit, Call,
}
use pix_tools.Platform.{Platform}
use pix_tools.World.{World}
use pix_tools.Idempotency.{cache_key, check_idempotency}
use pix_tools.Jobs.{Request, Accepted, truthy, validate}
use pix_tools.Jobs.Create.{Created, created, earlier_job, create_job, create_job_body, with_db}
use pix_tools.Jobs.Create.Effects.{new_id}
use pix_tools.Jobs.Create.Stored.{create_job_ok}

abbrev pub all_up : Call → Bool
all_up c = false

module _ {p : Platform} where
  -- A valid request whose key is still known returns the job that the key stands for, and
  -- changes nothing.
  pub create_job-known :
      (r : Request) (v : Accepted) (w : World p) (key job_id : String)
      → w.session ≡ []
      → validate p.runtime p.settings r ≡ ok v
      → truthy r.idempotency_key ≡ some key
      → w.fails redis_get ≡ false
      → w.fails db_commit ≡ false
      → p.read (cache_key key) w.now w.cache ≡ some job_id
      → job_id ≢ ""
      → create_job r w ≡ (ok (created job_id), w)
  unfolding create_job with_db create_job_body earlier_job check_idempotency
  create_job-known r v w key job_id clean valid keyed up commits known named =
      ground (arith, eq_iff job_id "")

  -- After a request with an idempotency key has been accepted, any valid request with the same key
  -- returns the same job, until the key expires, and changes nothing: no row, no object, no
  -- message. The platform's UUIDs are not empty texts, and every call is up.
  pub create_job-twice :
      (r r' : Request) (v' : Accepted) (w w' : World p) (c : Created) (key : String) (later : ℕ)
      → ((n : ℕ) → p.runtime.uuid_str n ≢ "")
      → w.session ≡ []
      → truthy r.idempotency_key ≡ some key
      → truthy r'.idempotency_key ≡ some key
      → (earlier_job r.idempotency_key w).0 ≡ ok none
      → create_job r w ≡ (ok c, w')
      → validate p.runtime p.settings r' ≡ ok v'
      → later < w.now + p.settings.idempotency_ttl_seconds
      → let w1 = record w' { now = later; fails = all_up } in create_job r' w1 ≡ (ok c, w1)
  create_job-twice r r' v' w w' c key later named clean keyed keyed' fresh h valid within =
      let (v, _, same, after) = create_job_ok r w w' c clean fresh h in
      let w1 = record w' { now = later; fails = all_up } in
      let known : p.read (cache_key key) later w'.cache ≡ some (new_id w) = ground (
        arith,
        keyed,
        eq_refl (cache_key key),
        p.read-setex (cache_key key) (cache_key key) p.settings.idempotency_ttl_seconds (new_id w)
            w.now later w.cache,
      ) in
      rw same (
        create_job-known r' v' w1 key (new_id w) (ground arith) valid keyed' refl refl known
          (named w.drawn))
