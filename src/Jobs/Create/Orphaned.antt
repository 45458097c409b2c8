-- ===== src/Jobs/Create/Orphaned.antt =====
-- What stays behind when the dispatch of an accepted request fails.
use pix_tools.Base.{
  ℕ, ◌+◌, ◌<◌, String, ◌≡◌, refl, ◌≢◌, none, some, arith, eq_refl, ok, err, publish_dag,
  unavailable,
}
use pix_tools.Platform.{Platform}
use pix_tools.World.{World}
use pix_tools.Idempotency.{cache_key, set_idempotency}
use pix_tools.Store.{upload_raw}
use pix_tools.Dag.{build_dag}
use pix_tools.Jobs.{Request, Accepted, truthy, validate}
use pix_tools.Jobs.Create.{
  created, earlier_job, submit, dispatch, create_job, create_job_body, with_db,
}
use pix_tools.Jobs.Create.Effects.{new_id, remembered}
use pix_tools.Jobs.Create.Stored.{earlier_job_unchanged}
use pix_tools.Jobs.Create.Repeated.{create_job-known, all_up}

module _ {p : Platform} where
  submit_unsent :
      (r : Request) (v : Accepted) (w : World p) (key : String)
      → truthy r.idempotency_key ≡ some key
      → (submit r v w).0 ≡ err (unavailable publish_dag)
      → ((submit r v w).1.cache ≡ remembered (some key) w) × ((submit r v w).1.jobs ≡ w.jobs)
  unfolding submit upload_raw set_idempotency dispatch build_dag
  submit_unsent r v w key keyed h = (ground (arith, keyed), ground (arith, keyed))

  -- If the chord of a fresh request with an idempotency key cannot be sent, the request fails and
  -- the table of jobs is as it was, but the key stays: until it expires, any valid request with the
  -- same key is answered with the id of the job that was rolled back, and changes nothing. The
  -- platform's UUIDs are not empty texts, and every call is up at the second request.
  pub create_job-orphaned :
      (r r' : Request) (v v' : Accepted) (w : World p) (key : String) (later : ℕ)
      → ((n : ℕ) → p.runtime.uuid_str n ≢ "")
      → validate p.runtime p.settings r ≡ ok v
      → truthy r.idempotency_key ≡ some key
      → truthy r'.idempotency_key ≡ some key
      → (earlier_job r.idempotency_key w).0 ≡ ok none
      → (create_job r w).0 ≡ err (unavailable publish_dag)
      → validate p.runtime p.settings r' ≡ ok v'
      → later < w.now + p.settings.idempotency_ttl_seconds
      → ((create_job r w).1.jobs ≡ w.jobs)
        × (let w1 = record ((create_job r w).1) { now = later; fails = all_up } in
            create_job r' w1 ≡ (ok (created (new_id w)), w1))
  unfolding create_job with_db create_job_body
  create_job-orphaned r r' v v' w key later named valid keyed keyed' fresh h valid' within =
      let w' = (create_job r w).1 in
      let unsent : (submit r v w).0 ≡ err (unavailable publish_dag) =
        ground (arith, valid, earlier_job_unchanged r.idempotency_key w) in
      let (kept, same) = submit_unsent r v w key keyed unsent in
      let cached : w'.cache ≡ remembered (some key) w =
        ground (arith, valid, earlier_job_unchanged r.idempotency_key w, kept) in
      let known : p.read (cache_key key) later w'.cache ≡ some (new_id w) = rw cached (
        ground (
          arith,
          eq_refl (cache_key key),
          p.read-setex (cache_key key) (cache_key key) p.settings.idempotency_ttl_seconds (new_id w)
              w.now later w.cache,
        )) in
      (
        ground (arith, valid, earlier_job_unchanged r.idempotency_key w, same),
        create_job-known r' v' (record w' { now = later; fails = all_up }) key (new_id w)
            (ground (arith, valid, earlier_job_unchanged r.idempotency_key w)) valid' keyed' refl
            refl known (named w.drawn),
      )
