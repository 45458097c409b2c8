-- ===== src/Tests/Setup.antt =====
-- The set-up of an API process with everything on.
use pix_tools.Base.{true, ◌≡◌, refl, some, [], ◌∷◌}
use pix_tools.Application.{
  SetupSettings, untraced, create_app, setup_api_observability, setup_celery_observability,
}
use pix_tools.Application.Setup.{routes_at, create_app-telemetry}

abbrev all_on : SetupSettings
all_on = record {
  observability_enabled = true;
  metrics_enabled = true;
  otel_service_name_api = "pixtools-api";
  otel_service_name_worker = "pixtools-worker";
}

create_app-telemetry_example :
    let (app, t) = create_app all_on true ("/openapi.json" ∷ "/docs" ∷ []) untraced in
    (t.provider ≡ some "pixtools-api")
    × (t.instrumented ≡ "fastapi" ∷ "httpx" ∷ "celery" ∷ [])
    × (routes_at "/metrics" app.paths ≡ 1)
    × (setup_api_observability all_on (app, t) ≡ (app, t))
    × (setup_celery_observability all_on t ≡ t)
create_app-telemetry_example =
    create_app-telemetry all_on true ("/openapi.json" ∷ "/docs" ∷ []) refl
