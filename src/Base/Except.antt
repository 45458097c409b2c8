-- ===== src/Base/Except.antt =====
-- Python exceptions as values.
use Prim.Native.Nat.{ℕ}
use Prim.Native.String.{String}
use mathlib.Core.Path.{◌≡◌, refl}
use mathlib.Core.Logic.{◌⊎◌, inl, inr}
use mathlib.Core.Bool.{Bool, true, false}

-- The calls that leave the process. Each may fail.
pub data Call : Type 0 where
  redis_get redis_set s3_put s3_get s3_head db_get db_flush db_commit publish_dag publish_task :
      Call

-- An exception: FastAPI's `HTTPException`, the built-in ones that the code meets, Pillow's own,
-- Celery's `Retry`, and the failure of a call.
pub data Exn : Type 0 where
  http : (status : ℕ) (detail : String) → Exn
  type_error value_error key_error overflow_error runtime_error zero_division image_error : Exn
  unavailable : Call → Exn
  retry : Exn → Exn

pub data Result {ℓ} (A : Type ℓ) : Type ℓ where
  ok : A → Result A
  err : Exn → Result A

-- `if test: raise e`.
abbrev pub raise_if : Bool → Exn → Result (Unit {0})
raise_if true e = err e
raise_if false e = ok tt

abbrev pub unprocessable : String → Exn
unprocessable detail = http 422 detail

-- `except (TypeError, ValueError) as exc: raise e from exc`.
abbrev pub except_type_or_value {ℓ} : {A : Type ℓ} → Result A → Exn → Result A
except_type_or_value (ok a) e = ok a
except_type_or_value (err type_error) e = err e
except_type_or_value (err value_error) e = err e
except_type_or_value (err x) e = err x

infixl 5 ◌>>=◌ ◌>>◌
module _ {ℓ κ} {A : Type ℓ} {B : Type κ} where
  -- The first exception ends the chain.
  abbrev pub ◌>>=◌ : Result A → (A → Result B) → Result B
  ◌>>=◌ (err e) next = err e
  ◌>>=◌ (ok a) next = next a

  pub >>=-eq-ok :
      (m : Result A) (next : A → Result B) {b : B}
      → ◌>>=◌ m next ≡ ok b
      → (a : A) × (m ≡ ok a) × (next a ≡ ok b)
  >>=-eq-ok (err e) next h = cc
  >>=-eq-ok (ok a) next h = (a, refl, h)

abbrev pub ◌>>◌ {ℓ} : {B : Type ℓ} → Result (Unit {0}) → Result B → Result B
check >> rest = check >>= λ _. rest

pub raise_if-eq-ok : (b : Bool) (e : Exn) → raise_if b e ≡ ok tt → b ≡ false
raise_if-eq-ok true e h = cc
raise_if-eq-ok false e h = refl

pub Result-cases {ℓ} :
    {A : Type ℓ} (r : Result A) → ((a : A) × (r ≡ ok a)) ⊎ ((e : Exn) × (r ≡ err e))
Result-cases (ok a) = inl (a, refl)
Result-cases (err e) = inr (e, refl)
