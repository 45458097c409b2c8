-- ===== src/Application/Logging.antt =====
-- app/logging_config.py: the root logger.
use pix_tools.Base.{String, List, [], ◌∷◌, ◌++◌, insert}

pub data Level : Type 0 where
  info warning : Level

-- The root logger, its handlers and filters by their classes, and the levels of the other loggers.
pub record Loggers : Type 0 where
  pub level : Level
  pub handlers : List String
  pub filters : List String
  pub levels : List (String × Level)

-- The context of a record, in the fields that the filter adds.
pub record LogRecord : Type 0 where
  pub message : String
  pub request_id : String
  pub job_id : String

-- `CorrelationIdFilter.filter`, with the values of the context variables
abbrev pub filter : (request_id job_id : String) → LogRecord → LogRecord
filter request_id job_id r = record r { request_id = request_id; job_id = job_id }

-- `setup_logging`
unfoldable pub setup_logging : Loggers → Loggers
setup_logging l = record {
  level = info;
  handlers = "StreamHandler" ∷ [];
  filters = l.filters ++ "CorrelationIdFilter" ∷ [];
  levels =
      insert "pydantic" warning
        (insert "sqlalchemy.engine" warning (insert "uvicorn.access" warning l.levels));
}
