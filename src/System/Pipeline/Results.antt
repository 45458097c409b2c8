-- ===== src/System/Pipeline/Results.antt =====
-- The keys that the finalizer collects from the results of a header.
use pix_tools.Base.{
  String, Bool, true, false, ◌≡◌, refl, ap, ◌∙◌, Option, none, some, is_some, is_empty, List, [],
  ◌∷◌, map, All, arith, ◌||◌, ◌==◌, is_in, lookup, if◌then◌else◌, eq_iff,
}
use pix_tools.Models.{value}
use pix_tools.Platform.{Platform}
use pix_tools.World.{World}
use pix_tools.Tasks.Finalize.{collect_keys}
use pix_tools.Tasks.Finalize.Keys.{Stored, stored_key, IsPlain, latest, lookup-collect_keys}

map-some :
    (job_id : String) (ds : List Stored)
    → map some (map (stored_key job_id) ds) ≡ map (λ (d : Stored). some (stored_key job_id d)) ds
map-some job_id [] = refl
map-some job_id (d ∷ ds) = ap (λ l. some (stored_key job_id d) ∷ l) (map-some job_id ds)

abbrev names : List Stored → List String
names ds = map value (map (λ (d : Stored). d.op) ds)

is_some-latest :
    (job_id name : String) (ds : List Stored) (before : Option String)
    → is_some (latest job_id name ds before) ≡ (is_in name (names ds) || is_some before)
is_some-latest job_id name [] before = refl
is_some-latest job_id name (d ∷ ds) before = ground (
  arith,
  is_some-latest job_id name ds (if value d.op == name then some (stored_key job_id d) else before),
  eq_iff name (value d.op),
  eq_iff (value d.op) name,
)

pub is_empty_of_lookup :
    (name : String) (m : List (String × String))
    → is_some (lookup name m) ≡ true
    → is_empty m ≡ false
is_empty_of_lookup name [] h = ground arith
is_empty_of_lookup name (e ∷ m) h = refl

module _ {p : Platform} where
  -- There is a key, and an object under it.
  abbrev pub has_object : World p → Option String → Bool
  has_object w none = false
  has_object w (some key) = is_some (p.object key w.bucket)

  pub has_object-bucket :
      (v w : World p) (key : Option String)
      → v.bucket ≡ w.bucket
      → has_object v key ≡ has_object w key
  has_object-bucket v w none same = refl
  has_object-bucket v w (some key) same = ap (λ b. is_some (p.object key b)) same

  has_object-latest :
      (w : World p) (job_id name : String) (ds : List Stored) (before : Option String)
      → All (λ (d : Stored). is_some (p.object (stored_key job_id d) w.bucket) ≡ true) ds
      → has_object w (latest job_id name ds before) ≡ (is_in name (names ds) || has_object w before)
  has_object-latest w job_id name [] before stored = refl
  has_object-latest w job_id name (d ∷ ds) before (there, rest) = ground (
    arith,
    has_object-latest w job_id name ds
        (if value d.op == name then some (stored_key job_id d) else before) rest,
    eq_iff name (value d.op),
    eq_iff (value d.op) name,
    there,
  )

  -- The finalizer finds a key for exactly the operations of the results, and its object.
  pub collected :
      (w : World p) (job_id name : String) (ds : List Stored)
      → All IsPlain ds
      → All (λ (d : Stored). is_some (p.object (stored_key job_id d) w.bucket) ≡ true) ds
      → let keys = collect_keys (map some (map (stored_key job_id) ds)) [] in
        (is_some (lookup name keys) ≡ is_in name (names ds))
        × (has_object w (lookup name keys) ≡ is_in name (names ds))
  collected w job_id name ds plain stored =
      let found : lookup name (collect_keys (map some (map (stored_key job_id) ds)) [])
          ≡ latest job_id name ds none =
        rw (map-some job_id ds) (lookup-collect_keys job_id name ds [] plain) in
      (
        ap is_some found ∙ ground (arith, is_some-latest job_id name ds none),
        ap (has_object w) found ∙ ground (arith, has_object-latest w job_id name ds none stored),
      )
