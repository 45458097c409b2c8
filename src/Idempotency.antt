-- ===== src/Idempotency.antt =====
-- app/services/idempotency.py
use Prim.Native.String.{◌++◌}
use pix_tools.Base.{String, Option, redis_get, redis_set}
use pix_tools.Platform.{Platform}
use pix_tools.World.{Action, gets, modify, call, ◌>>◌}

abbrev pub cache_key : String → String
cache_key key = "idempotency:" ++ key

module _ {p : Platform} where
  unfoldable pub check_idempotency : String → Action p (Option String)
  check_idempotency key = do call redis_get; gets (λ w. p.read (cache_key key) w.now w.cache)

  unfoldable pub set_idempotency : String → String → Action p (Unit {0})
  set_idempotency key job_id = do
    call redis_set
    modify (λ w. record w {
      cache = p.setex (cache_key key) p.settings.idempotency_ttl_seconds job_id w.now w.cache;
    })
