-- ===== src/Migrations/Initial.antt =====
-- alembic/versions/aec75fc63a2f_initial_migration.py.
use pix_tools.Base.{
  not, String, Bool, true, false, none, some, List, [], ◌∷◌, is_in, is_some, if◌then◌else◌, Result,
  ok, err, ◌>>=◌,
}
use pix_tools.Migrations.Schema.{
  Kind, uuid, json, text, integer, timestamp, string, enum, Column, Index, column_names,
  index_names, Database,
}

abbrev pub job_status_values : List String
job_status_values =
    "PENDING" ∷ "PROCESSING" ∷ "COMPLETED" ∷ "FAILED" ∷ "COMPLETED_WEBHOOK_FAILED" ∷ []

abbrev column : String → Kind → (nullable : Bool) → Column
column name kind nullable = record {
  name = name;
  kind = kind;
  nullable = nullable;
  server_default = false;
}

abbrev stamp : String → Column
stamp name = record { name = name; kind = timestamp; nullable = false; server_default = true }

-- `sa.Column("result_keys", sa.JSON(), nullable=True)`
abbrev pub result_keys_column : Column
result_keys_column = column "result_keys" json true

-- `sa.Column("exif_metadata", sa.JSON(), nullable=True)`
abbrev pub exif_metadata_column : Column
exif_metadata_column = column "exif_metadata" json true

-- The columns that `create_table` is given.
abbrev pub job_columns : List Column
job_columns =
    column "id" uuid false
    ∷ column "status" (enum "job_status" job_status_values) false
    ∷ column "operations" json false
    ∷ column "result_urls" json true
    ∷ result_keys_column
    ∷ exif_metadata_column
    ∷ column "webhook_url" (string 2048) false
    ∷ column "s3_raw_key" (string 512) false
    ∷ column "original_filename" (string 255) true
    ∷ column "error_message" text true
    ∷ column "retry_count" integer false
    ∷ stamp "created_at"
    ∷ stamp "updated_at"
    ∷ []

abbrev pub status_index : Index
status_index = record { name = "ix_jobs_status"; columns = "status" ∷ []; unique = false }

module _ (db : Database) where
  abbrev pub table_exists : String → db.Schema → Bool
  table_exists table_name s = is_some (db.table table_name s)

  unfoldable pub index_exists : (table_name index_name : String) → db.Schema → Result Bool
  index_exists table_name index_name s = elim (db.table table_name s) [
    | none ↦ err db.no_such_table
    | some t ↦ ok (is_in index_name (index_names t))
  ]

  unfoldable pub column_exists : (table_name column_name : String) → db.Schema → Result Bool
  column_exists table_name column_name s = elim (db.table table_name s) [
    | none ↦ err db.no_such_table
    | some t ↦ ok (is_in column_name (column_names t))
  ]

  abbrev pub create_job_status_enum_if_needed : db.Schema → db.Schema
  create_job_status_enum_if_needed s =
      if db.is_postgresql then db.create_type_if_missing "job_status" job_status_values s else s

  -- `if not _table_exists(bind, "jobs"): ...`
  unfoldable pub create_jobs : db.Schema → Result db.Schema
  create_jobs s =
      if table_exists "jobs" s
      then ok s
      else db.create_table "jobs" job_columns ("id" ∷ []) (create_job_status_enum_if_needed s)

  -- `if _table_exists(bind, "jobs") and not _index_exists(...): op.create_index(...)`
  unfoldable pub create_status_index : db.Schema → Result db.Schema
  create_status_index s = if not (table_exists "jobs" s) then ok s else do
    there ← index_exists "jobs" "ix_jobs_status" s
    if there then ok s else db.create_index "jobs" status_index s

  -- `if _table_exists(bind, "jobs") and not _column_exists(...): op.add_column(...)`
  unfoldable pub add_missing : Column → db.Schema → Result db.Schema
  add_missing c s = if not (table_exists "jobs" s) then ok s else do
    there ← column_exists "jobs" c.name s
    if there then ok s else db.add_column "jobs" c s

  unfoldable pub upgrade : db.Schema → Result db.Schema
  upgrade s = do
    created ← create_jobs s
    indexed ← create_status_index created
    keyed ← add_missing result_keys_column indexed
    add_missing exif_metadata_column keyed

  -- the index of a table that is there
  unfoldable pub drop_status_index : db.Schema → Result db.Schema
  drop_status_index s = do
    there ← index_exists "jobs" "ix_jobs_status" s
    if there then db.drop_index "jobs" "ix_jobs_status" s else ok s

  unfoldable pub drop_jobs : db.Schema → Result db.Schema
  drop_jobs s =
      if not (table_exists "jobs" s)
      then ok s
      else do unindexed ← drop_status_index s; db.drop_table "jobs" unindexed

  unfoldable pub downgrade : db.Schema → Result db.Schema
  downgrade s = do
    dropped ← drop_jobs s
    if db.is_postgresql then db.drop_type "job_status" dropped else ok dropped
