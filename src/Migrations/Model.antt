-- ===== src/Migrations/Model.antt =====
-- The table `jobs` as app/models.py declares it.
use pix_tools.Base.{true, false, [], ◌∷◌}
use pix_tools.Migrations.Schema.{uuid, json, text, integer, timestamp, string, enum, Table}
use pix_tools.Migrations.Initial.{job_status_values}

-- The table `jobs` of `Base.metadata`: the attributes of `Job`, with `index=True` on `status`.
abbrev pub model_table : Table
model_table = record {
  columns =
      record { name = "id"; kind = uuid; nullable = false; server_default = false }
      ∷ record {
        name = "status";
        kind = enum "job_status" job_status_values;
        nullable = false;
        server_default = false;
      }
      ∷ record { name = "operations"; kind = json; nullable = false; server_default = false }
      ∷ record { name = "result_urls"; kind = json; nullable = true; server_default = false }
      ∷ record { name = "result_keys"; kind = json; nullable = true; server_default = false }
      ∷ record { name = "exif_metadata"; kind = json; nullable = true; server_default = false }
      ∷ record {
        name = "webhook_url";
        kind = string 2048;
        nullable = false;
        server_default = false;
      }
      ∷ record { name = "s3_raw_key"; kind = string 512; nullable = false; server_default = false }
      ∷ record {
        name = "original_filename";
        kind = string 255;
        nullable = true;
        server_default = false;
      }
      ∷ record { name = "error_message"; kind = text; nullable = true; server_default = false }
      ∷ record { name = "retry_count"; kind = integer; nullable = false; server_default = false }
      ∷ record { name = "created_at"; kind = timestamp; nullable = false; server_default = true }
      ∷ record { name = "updated_at"; kind = timestamp; nullable = false; server_default = true }
      ∷ [];
  primary_key = "id" ∷ [];
  indexes = record { name = "ix_jobs_status"; columns = "status" ∷ []; unique = false } ∷ [];
}
