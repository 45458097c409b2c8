-- ===== src/Health.antt =====
-- app/routers/health.py. What the calls of the drivers come to is an input.
use pix_tools.Base.{
  ℕ, String, Bool, true, false, ◌&&◌, ◌≡◌, refl, List, [], ◌∷◌, ◌==◌, if◌then◌else◌, arith, Result,
  ok, err,
}

-- A call of a driver: it returns or it raises.
abbrev pub Outcome : Type 0
Outcome = Result (Unit {0})

-- The calls that the checks make.
pub record Calls : Type 0 where
  pub open_session : Outcome
  pub execute : Outcome
  pub close_session : Outcome
  pub redis_from_url : Outcome
  pub ping : Outcome
  pub aclose : Outcome
  pub open_connection : Outcome
  pub connect : Outcome
  pub close_connection : Outcome
  pub s3_client : Outcome
  pub head_bucket : Outcome

-- The calls in the body of a `try`, and whether all of them return: `except Exception` makes it false.
unfoldable pub all_return : List Outcome → Bool
all_return [] = true
all_return (ok _ ∷ calls) = all_return calls
all_return (err _ ∷ calls) = false

abbrev pub check_database : Calls → Bool
check_database c = all_return (c.open_session ∷ c.execute ∷ c.close_session ∷ [])

abbrev pub check_redis : Calls → Bool
check_redis c = all_return (c.redis_from_url ∷ c.ping ∷ c.aclose ∷ [])

abbrev pub check_rabbitmq : Calls → Bool
check_rabbitmq c = all_return (c.open_connection ∷ c.connect ∷ c.close_connection ∷ [])

abbrev pub check_s3 : Calls → Bool
check_s3 c = all_return (c.s3_client ∷ c.head_bucket ∷ [])

pub record Report : Type 0 where
  pub status : String
  pub dependencies : List (String × String)

-- An answer with its HTTP status: a 503 carries the report as its detail.
pub record Answer : Type 0 where
  pub code : ℕ
  pub report : Report

-- `"ok" if reachable else "unreachable"`
abbrev pub state_of : Bool → String
state_of reachable = if reachable then "ok" else "unreachable"

-- `all(state == "ok" for state in dependencies.values())`
unfoldable pub all_ok : List (String × String) → Bool
all_ok [] = true
all_ok ((_, state) ∷ rest) = state == "ok" && all_ok rest

unfoldable pub build_response : List (String × String) → Report
build_response dependencies = record {
  status = if all_ok dependencies then "healthy" else "unhealthy";
  dependencies = dependencies;
}

-- the test that ends both handlers
unfoldable pub answer_of : Report → Answer
answer_of status_payload = record {
  code = if status_payload.status == "unhealthy" then 503 else 200;
  report = status_payload;
}

abbrev pub core_dependencies : Calls → List (String × String)
core_dependencies c =
    ("database", state_of (check_database c))
    ∷ ("redis", state_of (check_redis c))
    ∷ ("rabbitmq", state_of (check_rabbitmq c))
    ∷ []

abbrev pub all_dependencies : Calls → List (String × String)
all_dependencies c =
    ("database", state_of (check_database c))
    ∷ ("redis", state_of (check_redis c))
    ∷ ("rabbitmq", state_of (check_rabbitmq c))
    ∷ ("s3", state_of (check_s3 c))
    ∷ []

unfoldable pub readyz : Calls → Answer
readyz c = answer_of (build_response (core_dependencies c))

unfoldable pub health_check : Calls → Answer
health_check c = answer_of (build_response (all_dependencies c))

state_of_ok : (b : Bool) → (state_of b == "ok") ≡ b
state_of_ok true = refl
state_of_ok false = refl

all_ok_core :
    (c : Calls)
    → all_ok (core_dependencies c) ≡ (check_database c && check_redis c && check_rabbitmq c)
unfolding all_ok
all_ok_core c = ground (
  arith,
  state_of_ok (check_database c),
  state_of_ok (check_redis c),
  state_of_ok (check_rabbitmq c),
)

all_ok_all :
    (c : Calls)
    → all_ok (all_dependencies c)
      ≡ (check_database c && check_redis c && check_rabbitmq c && check_s3 c)
unfolding all_ok
all_ok_all c = ground (
  arith,
  state_of_ok (check_database c),
  state_of_ok (check_redis c),
  state_of_ok (check_rabbitmq c),
  state_of_ok (check_s3 c),
)

-- The code by the status that a report is given.
abbrev code_of : Bool → ℕ
code_of healthy = if (if healthy then "healthy" else "unhealthy") == "unhealthy" then 503 else 200

code_of_cases : (b : Bool) → code_of b ≡ (if b then 200 else 503)
code_of_cases true = refl
code_of_cases false = refl

code_of_report :
    (d : List (String × String))
    → (answer_of (build_response d)).code ≡ (if all_ok d then 200 else 503)
unfolding answer_of build_response
code_of_report d = code_of_cases (all_ok d)

-- The readiness probe answers 200 if no call to the database, to Redis or to RabbitMQ raises, and 503
-- otherwise, whatever those to S3 do; the health check does the same for all four.
pub readyz-health_check_codes :
    (c : Calls)
    → ((readyz c).code
        ≡ (if check_database c && check_redis c && check_rabbitmq c then 200 else 503))
      × ((health_check c).code ≡ (
          if check_database c && check_redis c && check_rabbitmq c && check_s3 c then 200 else 503))
unfolding readyz health_check
readyz-health_check_codes c = (
  rw (code_of_report (core_dependencies c)) (rw (all_ok_core c) refl),
  rw (code_of_report (all_dependencies c)) (rw (all_ok_all c) refl),
)
