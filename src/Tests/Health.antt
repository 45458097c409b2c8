-- ===== src/Tests/Health.antt =====
-- The health answers of a deployment without S3.
use pix_tools.Base.{ok, err, unavailable, s3_get, ◌≡◌}
use pix_tools.Health.{Calls, all_return, readyz, health_check, readyz-health_check_codes}

abbrev without_s3 : Calls
without_s3 = record {
  open_session = ok tt;
  execute = ok tt;
  close_session = ok tt;
  redis_from_url = ok tt;
  ping = ok tt;
  aclose = ok tt;
  open_connection = ok tt;
  connect = ok tt;
  close_connection = ok tt;
  s3_client = ok tt;
  head_bucket = err (unavailable s3_get);
}

readyz-health_check_codes_example :
    ((readyz without_s3).code ≡ 200) × ((health_check without_s3).code ≡ 503)
unfolding all_return
readyz-health_check_codes_example = readyz-health_check_codes without_s3
