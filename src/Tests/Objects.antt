-- ===== src/Tests/Objects.antt =====
-- The S3 client in memory.
use pix_tools.Base.{true, false, ◌≡◌, refl, some, [], ok}
use pix_tools.Store.{raw_key, processed_key, get_archive_key}
use pix_tools.Store.Client.{Failing, S3, expiry, get_client, get_client-expiry}

abbrev up : Failing
up = record { create = false; configure = false }

-- The development set-up before the bucket exists.
abbrev bare : S3
bare = record { client = false; bucket = false; rules = [] }

abbrev made : S3
made = (get_client true 1 up bare).1

get_client-expiry_example :
    ((get_client true 1 up bare).0 ≡ ok tt)
    × (expiry (raw_key "u" "0123" "png") made.rules ≡ some 1)
    × (expiry (processed_key "u" "webp" "0123" "png") made.rules ≡ some 1)
    × (expiry (get_archive_key "u") made.rules ≡ some 1)
get_client-expiry_example =
    get_client-expiry true 1 bare up "u" "0123" "webp" "png" refl refl refl refl
