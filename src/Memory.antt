-- ===== src/Memory.antt =====
-- A platform in memory, on which the examples run: the table, the cache and the bucket as maps, and
-- a runtime that knows the texts of the examples.
use Prim.Native.String.{◌++◌ as cat}
use text.Mathlib.TextLemmas.{cons-ne-nil}
use pix_tools.Base.{
  ℕ, zero, suc, ◌+◌, String, Bool, ◌≡◌, ◌≢◌, Option, none, some, List, [], ◌∷◌, lookup, insert,
  lookup-insert, is_in, keep, if◌then◌else◌, arith, ltb, ◌==◌, eq_iff, Option-cases, inl, inr,
  is_some, Result, ok, err, overflow_error, ◌*◌, ◌/◌,
}
use pix_tools.Base.Int.{ℤ, pos, negsuc}
use pix_tools.Json.{Json, int, str, arr, obj, nil, cons, end, field}
use pix_tools.Models.{Job}
use pix_tools.Runtime.{Runtime, Loaded, decoded, decode_error, Url, default_settings}
use pix_tools.Platform.{Platform, Bytes, unless}

-- The n-th UUID, in unary.
abbrev pub tally : ℕ → String
tally zero = "u"
tally (suc n) = String.◌∷◌ "u" (tally n)

pub tally_named : (n : ℕ) → tally n ≢ ""
tally_named zero = λ e. cons-ne-nil _ _ e
tally_named (suc n) = λ e. cons-ne-nil _ _ e

-- The exact quotient, rounded down.
abbrev pub exact_scale : ℤ → ℕ → ℕ → Result ℤ
exact_scale (pos a) b c = ok (pos ((a * c) / b))
exact_scale (negsuc a) b c = err overflow_error

abbrev pub texts : List (String × Json)
texts =
    ("ops:webp,metadata", arr (cons (str "webp") (cons (str "metadata") nil)))
    ∷ (
      "ops:webp,denoise,metadata",
      arr (cons (str "webp") (cons (str "denoise") (cons (str "metadata") nil))),
    )
    ∷ ("ops:metadata", arr (cons (str "metadata") nil))
    ∷ (
      "params:webp",
      obj (
          field "webp"
            (obj (
              field "quality" (int (pos 75))
                (field "resize" (obj (field "width" (int (pos 640)) end)) end)))
            end),
    )
    ∷ ("five", int (pos 5))
    ∷ []

abbrev pub load : Option Json → Loaded
load none = decode_error "Expecting value"
load (some v) = decoded v

abbrev pub urls : List (String × Url)
urls =
    ("https://example.com/hook", record { scheme = "https"; netloc = "example.com" })
    ∷ ("ftp://example.com", record { scheme = "ftp"; netloc = "example.com" })
    ∷ []

abbrev pub runtime : Runtime
runtime = record {
  json_loads = λ s. load (lookup s texts);
  int_of_str = λ s. none;
  str_int = tally;
  str_list = λ l. "[...]";
  not_an_operation = λ v. "not a valid OperationType";
  str_time = tally;
  isoformat = tally;
  time_of_str = λ s. if s == "uu" then some 1 else none;
  contains = λ sub s. sub == s;
  replace = λ old new s. s;
  presign = λ key disposition expires now. cat "https://s3/" key;
  lower = λ s.
      if s == "JPEG"
      then "jpeg"
      else if s == "PNG"
      then "png"
      else if s == "WEBP"
      then "webp"
      else if s == "AVIF"
      then "avif"
      else s;
  upper = λ s. s;
  float_scale = exact_scale;
  urlparse = λ s. lookup s urls;
  uuid_str = tally;
  uuid_hex8 = λ n. "0123abcd";
  uuid_hex24 = λ n. "0123456789abcdef01234567";
}

-- The ids of the rows, and the row of an id.
abbrev pub Rows : Type 0
Rows = List String × (String → Option Job)

abbrev pub owned : String → Option Job → Option Job
owned j none = none
owned j (some job) = if job.id == j then some job else none

abbrev pub count_rows : (Job → Bool) → List String → (String → Option Job) → ℕ
count_rows q [] t = 0
count_rows q (j ∷ js) t = elim (owned j (t j)) [
  | none ↦ count_rows q js t
  | some job ↦ if q job then suc (count_rows q js t) else count_rows q js t
]

abbrev pub put_job : Job → Rows → Rows
put_job job (ids, t) =
    (if is_in job.id ids then ids else job.id ∷ ids, λ j. if job.id == j then some job else t j)

abbrev pub row_of : String → Rows → Option Job
row_of j (_, t) = owned j (t j)

abbrev pub delete_jobs : (Job → Bool) → Rows → Rows
delete_jobs q (ids, t) = (keep (λ j. is_some (unless q (owned j (t j)))) ids, λ j. unless q (t j))

pub id_of_row_of : (j : String) (job : Job) (t : Rows) → row_of j t ≡ some job → job.id ≡ j
id_of_row_of j job t h = elim (Option-cases (t.1 j)) [
  | inl gone ↦ ground (arith, gone)
  | inr (other, there) ↦ ground (arith, there, eq_iff other.id j)
]

pub row_of-put_job :
    (j : String) (job : Job) (t : Rows)
    → row_of j (put_job job t) ≡ (if job.id == j then some job else row_of j t)
row_of-put_job j job t = ground arith

pub row_of-delete_jobs :
    (j : String) (q : Job → Bool) (t : Rows) → row_of j (delete_jobs q t) ≡ unless q (row_of j t)
row_of-delete_jobs j q t = elim (Option-cases (t.1 j)) [
  | inl gone ↦ ground (arith, gone)
  | inr (other, there) ↦ ground (arith, there)
]

abbrev pub Entries : Type 0
Entries = List (String × (String × ℕ))

abbrev pub alive : ℕ → Option (String × ℕ) → Option String
alive now none = none
alive now (some (v, expiry)) = if ltb now expiry then some v else none

pub alive-lookup-insert :
    (j k : String) (ttl : ℕ) (v : String) (now later : ℕ) (c : Entries)
    → alive later (lookup j (insert k (v, now + ttl) c)) ≡ (
        if k == j
        then (if ltb later (now + ttl) then some v else none)
        else alive later (lookup j c))
alive-lookup-insert j k ttl v now later c = ground (arith, lookup-insert k j (v, now + ttl) c)

pub object_lookup-insert :
    (j k : String) (b : Bytes) (s : List (String × Bytes))
    → lookup j (insert k b s) ≡ (if k == j then some b else lookup j s)
object_lookup-insert j k b s = lookup-insert k j b s

abbrev pub memory : Platform
memory = record {
  runtime = runtime;
  settings = default_settings;
  Table = Rows;
  row = row_of;
  put_row = put_job;
  delete_where = delete_jobs;
  count_where = λ q t. count_rows q t.0 t.1;
  id_of_row = id_of_row_of;
  row-put_row = row_of-put_job;
  row-delete_where = row_of-delete_jobs;
  Cache = Entries;
  read = λ j now c. alive now (lookup j c);
  setex = λ k ttl v now c. insert k (v, now + ttl) c;
  read-setex = alive-lookup-insert;
  Bucket = List (String × Bytes);
  object = lookup;
  put_object = insert;
  object-put_object = object_lookup-insert;
}
