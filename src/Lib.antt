-- ===== src/Lib.antt =====
-- PixTools turns an uploaded image into the results of the operations that a request names. The API
-- (app/routers/jobs.py) checks the request, stores the file and the row of the job, and sends
-- Celery one chord: a task for each operation and the finalizer as its callback. The workers
-- (app/tasks) store one object for each operation; the finalizer writes their keys and URLs into
-- the row, calls the webhook, and sends the task that bundles the results. The signal handlers of
-- the worker (app/tasks/celery_app.py) write the status of the job while its tasks run.
--
-- Parts and files:
-- - Base, Json: shared names, tests, lists, results that are values or exceptions, parts of a text,
--   Python's integers, and the JSON values of a request.
-- - Runtime: what the code asks of Python, given as a record of functions (json.loads, int of a
--   text, float and str of a time, str of a UUID, urlparse). Platform: the settings, and the
--   interfaces of the table of jobs, the cache and the bucket, each with its documented laws. Code
--   outside the repository is a field of these records, and every theorem holds for each of their
--   instances.
-- - World: the state that the code reads and changes (the rows and the rows not yet committed, the
--   cache, the bucket, the messages sent, the metrics, the correlation ids, the clock, the webhooks
--   delivered), and the actions on it: a run ends with a value or an exception, and each call of a
--   service may fail.
-- - Models: app/models.py and app/config.py. Store: app/services/s3.py (its client and the expiry
--   of objects are Store.Client). Idempotency: app/services/idempotency.py. Webhook:
--   notify_job_update of app/services/webhook.py and the metric of its circuit breaker. Dag: app/services/dag_builder.py.
-- - Params: _parse_operation_params of app/routers/jobs.py. Jobs: its checks. Jobs.Create:
--   create_job, with the transaction of get_db of app/database.py around it. Jobs.Get: get_job.
-- - Pillow: what the workers ask of the imaging library, as a record of functions. Images:
--   app/tasks/image_ops.py, the resizing of app/tasks/ml_ops.py, and upload_processed.
-- - Metadata: the reading of EXIF values in app/tasks/metadata.py, over Metadata.Values, which
--   holds the kinds of values and an interface to floats and to Pillow. Tasks.Metadata: its task.
-- - Tasks.Lifecycle: the signal handlers of app/tasks/celery_app.py. Tasks.Finalize:
--   app/tasks/finalize.py. Tasks.Archive: app/tasks/archive.py. Tasks.Maintenance:
--   app/tasks/maintenance.py. Tasks.Router: app/tasks/router.py. Tasks.Queues: the queues and the
--   routing table of app/tasks/celery_app.py.
-- - Metrics: the gauges of the queues of app/metrics.py. Times are in nanoseconds there.
--   Metrics.Families: the declared metrics, with what may be recorded under each.
-- - Denoise: the task of app/tasks/ml_ops.py. Denoise.Network: app/ml/dncnn.py, over an interface
--   to torch with the documented shapes.
-- - Health: app/routers/health.py. Middleware: app/middleware.py and app/dependencies.py, around
--   any handler. Application: app/main.py, app/observability.py and the engine of app/database.py,
--   with Application.Logging for app/logging_config.py.
-- - Migrations: alembic/versions, over an interface to a schema (Migrations.Schema), with the table
--   of app/models.py (Migrations.Model). Migrations.Versions: their order under Alembic's own table,
--   over an interface to it. Migrations.Environment: alembic/env.py.
-- - World.Rules: relations and conditions that actions keep. System: the steps of the whole system,
--   a relation on worlds with one constructor for each request, task and signal handler, and its
--   runs. System.Spec: the abstract specification of a job's life, and System.Refinement: the runs
--   refine it. System.Attempts: the attempts at one task between the signal handlers, over an
--   interface to the retries of Celery. System.Pipeline: a chord from its message to the poll of
--   its job, over Celery's documented behaviour: a task runs between its signals, those of a header
--   in any order, and the callback gets their results in the header's order. System.Late: a metadata
--   task that starts after the finalizer. System.Exposed: the metrics that the steps record.
--   Tasks.Finalize.Repeated: a finalizer whose message is delivered twice.
-- - Memory, Raster, Planes and Exposures: a platform, an imaging library, a torch and EXIF data in
--   memory. Tests: runs on them, and the theorems at concrete inputs.
--
-- Nothing of the model runs on fuel: each loop of the source is over a list or a dict and is a
-- structural recursion, and the attempts at a task are counted by the retries that are left.
-- Numbers of the source are unbounded integers of Python, as they are here.
--
-- Not modelled: the fields of a request that FastAPI decodes, log lines, the encoding and decoding
-- of images, the arithmetic of torch, the formatter of the log, the response classes of
-- app/schemas.py (the program does not use them), and what httpx, pybreaker, boto3, Redis,
-- SQLAlchemy and Celery do inside: the outcome of a call of theirs is an input of the run. The
-- signing of a URL, and the transposition and the conversion to RGB of an image, are taken to
-- return. Time stands still within one request or one task.
pub mod Base
pub mod Json
pub mod Runtime
pub mod Migrations
pub mod Models
pub mod Platform
pub mod World
pub mod Idempotency
pub mod Store
pub mod Params
pub mod Webhook
pub mod Dag
pub mod Denoise
pub mod Jobs
pub mod Tasks
pub mod Pillow
pub mod Images
pub mod Metadata
pub mod Metrics
pub mod Middleware
pub mod Application
pub mod Health
pub mod System
mod Memory
mod Raster
mod Planes
mod Exposures
mod Tests
