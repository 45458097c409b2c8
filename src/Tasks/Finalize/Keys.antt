-- ===== src/Tasks/Finalize/Keys.antt =====
-- The operation and the extension that `finalize_job` reads from a key are those that
-- `upload_processed` wrote into it.
use Prim.Native.String.{◌++◌}
use text.Mathlib.TextLemmas.{cons-append, append_assoc, cons-ne-nil}
use pix_tools.Base.{
  String, false, ◌≡◌, refl, ◌∙◌, ◌≢◌, ap, All, eq_iff, if◌then◌else◌, ◌==◌, Option, some, List, [],
  ◌∷◌, arith, map, lookup, insert, lookup-insert,
}
use pix_tools.Base.Text.{has, has-append, before_first-append, after_last-append, one-append}
use pix_tools.Models.{OperationType, value, jpg, png, webp, avif, denoise, metadata}
use pix_tools.Store.{processed_key}
use pix_tools.Jobs.{truthy}
use pix_tools.Tasks.Finalize.{add_key, collect_keys, file_part, op_of_key, ext_of_key}

-- The name of the object in its folder.
abbrev file_name : (op hex8 ext : String) → String
file_name op hex8 ext = op ++ ("_" ++ (hex8 ++ ("." ++ ext)))

no_slash :
    (op hex8 ext : String)
    → has "/" op ≡ false
    → has "/" hex8 ≡ false
    → has "/" ext ≡ false
    → has "/" (file_name op hex8 ext) ≡ false
unfolding has
no_slash op hex8 ext o h e = simp (has-append, o, h, e)

file_part-processed_key :
    (job_id op hex8 ext : String)
    → has "/" (file_name op hex8 ext) ≡ false
    → file_part (processed_key job_id op hex8 ext) ≡ file_name op hex8 ext
file_part-processed_key job_id op hex8 ext h =
    let e : processed_key job_id op hex8 ext
        ≡ ("processed/" ++ job_id) ++ (String.◌∷◌ "/" (file_name op hex8 ext)) =
      rw (append_assoc, one-append "/" (file_name op hex8 ext)) refl in
    rw e (after_last-append "/" ("processed/" ++ job_id) (file_name op hex8 ext) h)

op_of_key-processed_key :
    (job_id op hex8 ext : String)
    → has "/" (file_name op hex8 ext) ≡ false
    → has "_" op ≡ false
    → op_of_key (processed_key job_id op hex8 ext) ≡ op
op_of_key-processed_key job_id op hex8 ext h o =
    let e : file_name op hex8 ext ≡ op ++ String.◌∷◌ "_" (hex8 ++ ("." ++ ext)) =
      ap (λ t. op ++ t) (one-append "_" (hex8 ++ ("." ++ ext))) in
    rw (file_part-processed_key job_id op hex8 ext h)
      (rw e (before_first-append "_" op (hex8 ++ ("." ++ ext)) o))

ext_of_key-processed_key :
    (job_id op hex8 ext : String)
    → has "/" (file_name op hex8 ext) ≡ false
    → has "." ext ≡ false
    → ext_of_key (processed_key job_id op hex8 ext) ≡ ext
ext_of_key-processed_key job_id op hex8 ext h x =
    let stem = op ++ ("_" ++ hex8) in
    let e : file_name op hex8 ext ≡ stem ++ String.◌∷◌ "." ext =
      rw (append_assoc, append_assoc, one-append "." ext) refl in
    rw (file_part-processed_key job_id op hex8 ext h) (rw e (after_last-append "." stem ext x))

-- No operation's name has a slash or an underscore.
plain_value : (op : OperationType) → (has "/" (value op) ≡ false) × (has "_" (value op) ≡ false)
unfolding has
plain_value jpg = (refl, refl)
plain_value png = (refl, refl)
plain_value webp = (refl, refl)
plain_value avif = (refl, refl)
plain_value denoise = (refl, refl)
plain_value metadata = (refl, refl)

-- A stored result: its operation, and the two parts of its name that are not its operation.
pub record Stored : Type 0 where
  pub op : OperationType
  pub hex8 : String
  pub ext : String

abbrev pub stored_key : String → Stored → String
stored_key job_id d = processed_key job_id (value d.op) d.hex8 d.ext

-- Neither part has a slash, and the extension has no dot.
pub record IsPlain (d : Stored) : Type 0 where
  pub hex_slash : has "/" d.hex8 ≡ false
  pub ext_slash : has "/" d.ext ≡ false
  pub ext_dot : has "." d.ext ≡ false

-- The finalizer reads back the operation and the extension of every key that an upload of a result
-- makes, whatever the job's id is. The random part and the extension have no slash, and the
-- extension has no dot.
pub parse-stored_key :
    (job_id : String) (d : Stored)
    → IsPlain d
    → (op_of_key (stored_key job_id d) ≡ value d.op) × (ext_of_key (stored_key job_id d) ≡ d.ext)
parse-stored_key job_id d plain =
    let (slash, underscore) = plain_value d.op in
    let h = no_slash (value d.op) d.hex8 d.ext slash plain.hex_slash plain.ext_slash in
    (
      op_of_key-processed_key job_id (value d.op) d.hex8 d.ext h underscore,
      ext_of_key-processed_key job_id (value d.op) d.hex8 d.ext h plain.ext_dot,
    )

-- The key of the latest result of an operation, by its name; `before` if there is none.
abbrev pub latest : String → String → List Stored → Option String → Option String
latest job_id name [] before = before
latest job_id name (d ∷ ds) before =
    latest job_id name ds (if value d.op == name then some (stored_key job_id d) else before)

truthy-stored_key :
    (job_id : String) (d : Stored)
    → truthy (some (stored_key job_id d)) ≡ some (stored_key job_id d)
truthy-stored_key job_id d =
    let e : stored_key job_id d ≢ "" = rw (cons-append "p" ("rocessed/") _) (cons-ne-nil _ _) in
    ground (arith, eq_iff (stored_key job_id d) "")

add_key_stored :
    (job_id : String) (d : Stored) (ks : List (String × String))
    → IsPlain d
    → add_key (some (stored_key job_id d)) ks ≡ insert (value d.op) (stored_key job_id d) ks
unfolding add_key
add_key_stored job_id d ks plain =
    ground (arith, truthy-stored_key job_id d, (parse-stored_key job_id d plain).0)

-- `result_keys` maps each operation with a result to the key of its latest one, and every other
-- name to what it was before.
pub lookup-collect_keys :
    (job_id name : String) (ds : List Stored) (ks : List (String × String))
    → All IsPlain ds
    → lookup name (collect_keys (map (λ d. some (stored_key job_id d)) ds) ks)
      ≡ latest job_id name ds (lookup name ks)
unfolding collect_keys
lookup-collect_keys job_id name [] ks _ = refl
lookup-collect_keys job_id name (d ∷ ds) ks (plain, rest) =
    let key = stored_key job_id d in
    let results = map (λ s. some (stored_key job_id s)) ds in
    ap (λ m. lookup name (collect_keys results m)) (add_key_stored job_id d ks plain)
    ∙ (lookup-collect_keys job_id name ds (insert (value d.op) key ks) rest
        ∙ ap (latest job_id name ds) (lookup-insert (value d.op) name key ks))
