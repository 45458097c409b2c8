-- ===== src/Application/Setup.antt =====
-- What the API's process is set up with.
use pix_tools.Base.{
  ℕ, String, Bool, true, false, ◌||◌, ◌+◌, ◌≡◌, ◌∙◌, ap, refl, none, some, List, [], ◌∷◌, ◌++◌,
  is_in, ◌==◌, if◌then◌else◌, arith, Bool-cases, inl, inr,
}
use pix_tools.Application.{
  SetupSettings, untraced, setup_api_observability, expose_metrics, trace_api,
  setup_celery_observability, create_app, router_paths, static_paths,
}

is_in-append : (x : String) (ys zs : List String) → is_in x (ys ++ zs) ≡ (is_in x ys || is_in x zs)
is_in-append x [] zs = refl
is_in-append x (y ∷ ys) zs = ground (arith, is_in-append x ys zs)

-- The number of routes with a path.
abbrev pub routes_at : String → List String → ℕ
routes_at x [] = 0
routes_at x (y ∷ ys) = (if x == y then 1 else 0) + routes_at x ys

routes_at-append :
    (x : String) (ys zs : List String) → routes_at x (ys ++ zs) ≡ routes_at x ys + routes_at x zs
routes_at-append x [] zs = omega arith
routes_at-append x (y ∷ ys) zs = omega (arith, routes_at-append x ys zs)

routes_at_absent : (x : String) (ys : List String) → is_in x ys ≡ false → routes_at x ys ≡ 0
routes_at_absent x [] h = refl
routes_at_absent x (y ∷ ys) h = ground (arith, h, routes_at_absent x ys)

abbrev late_paths : Bool → List String
late_paths there = router_paths ++ (static_paths there ++ "/" ∷ [])

late_metrics : (there : Bool) → routes_at "/metrics" (late_paths there) ≡ 0
late_metrics true = refl
late_metrics false = refl

create_app_traces :
    (s : SetupSettings) (there : Bool) (builtin : List String)
    → let t = (create_app s there builtin untraced).1 in
      (t.provider ≡ (if s.observability_enabled then some s.otel_service_name_api else none))
      × (t.instrumented
          ≡ (if s.observability_enabled then "fastapi" ∷ "httpx" ∷ "celery" ∷ [] else []))
unfolding create_app expose_metrics trace_api setup_celery_observability
create_app_traces s there builtin = elim (Bool-cases s.observability_enabled) [
  | inl on ↦ (ground (arith, on), ground (arith, on))
  | inr off ↦ (ground (arith, off), ground (arith, off))
]

-- Setting up a process that is set up changes nothing.
set_up_again :
    (s : SetupSettings) (there : Bool) (builtin : List String)
    → let t = (create_app s there builtin untraced).1 in
      (trace_api s t ≡ t) × (setup_celery_observability s t ≡ t)
unfolding create_app expose_metrics trace_api setup_celery_observability
set_up_again s there builtin = elim (Bool-cases s.observability_enabled) [
  | inl on ↦ (ground (arith, on), ground (arith, on))
  | inr off ↦ (ground (arith, off), ground (arith, off))
]

exposed :
    (s : SetupSettings) (there : Bool) (builtin : List String)
    → is_in "/metrics" builtin ≡ false
    → routes_at "/metrics" (create_app s there builtin untraced).0.paths
      ≡ (if s.metrics_enabled then 1 else 0)
unfolding create_app expose_metrics
exposed s there builtin absent =
    let none_built = routes_at_absent "/metrics" builtin absent in
    let none_late = late_metrics there in
    elim (Bool-cases s.metrics_enabled) [
      | inl on ↦
          let a = routes_at-append "/metrics" (builtin ++ "/metrics" ∷ []) (late_paths there) in
          let b = routes_at-append "/metrics" builtin ("/metrics" ∷ []) in
          ground (arith, on, absent, a, b, none_built, none_late)
      | inr off ↦ ground (
        arith,
        off,
        routes_at-append "/metrics" builtin (late_paths there),
        none_built,
        none_late,
      )
    ]

exposed_again :
    (s : SetupSettings) (there : Bool) (builtin : List String)
    → let app = (create_app s there builtin untraced).0 in expose_metrics s app ≡ app
unfolding create_app expose_metrics
exposed_again s there builtin = elim (Bool-cases s.metrics_enabled) [
  | inr off ↦ ground (arith, off)
  | inl on ↦ elim (Bool-cases (is_in "/metrics" builtin)) [
    | inl old ↦ ground (arith, on, old, is_in-append "/metrics" builtin (late_paths there))
    | inr new ↦ ground (
      arith,
      on,
      new,
      is_in-append "/metrics" (builtin ++ "/metrics" ∷ []) (late_paths there),
      is_in-append "/metrics" builtin ("/metrics" ∷ []),
    )
  ]
]

-- A fresh API process, where FastAPI has no route "/metrics" of its own: with observability on, its
-- traces go out under the name of the API's service and not of the worker's, although importing the
-- routers sets up Celery's telemetry too, and each library is instrumented once; with it off there
-- is no telemetry. The metrics are exposed on one route if they are enabled and on none if not.
-- Setting up the same application again changes nothing.
pub create_app-telemetry :
    (s : SetupSettings) (static_dir_exists : Bool) (builtin : List String)
    → is_in "/metrics" builtin ≡ false
    → let (app, t) = create_app s static_dir_exists builtin untraced in
      (t.provider ≡ (if s.observability_enabled then some s.otel_service_name_api else none))
      × (t.instrumented
          ≡ (if s.observability_enabled then "fastapi" ∷ "httpx" ∷ "celery" ∷ [] else []))
      × (routes_at "/metrics" app.paths ≡ (if s.metrics_enabled then 1 else 0))
      × (setup_api_observability s (app, t) ≡ (app, t))
      × (setup_celery_observability s t ≡ t)
create_app-telemetry s there builtin absent =
    let (provider, instrumented) = create_app_traces s there builtin in
    let (api, celery) = set_up_again s there builtin in
    (
      provider,
      instrumented,
      exposed s there builtin absent,
      ap (λ a. (a, trace_api s (create_app s there builtin untraced).1))
            (exposed_again s there builtin)
          ∙ ap (λ t. ((create_app s there builtin untraced).0, t)) api,
      celery,
    )
