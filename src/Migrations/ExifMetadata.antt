-- ===== src/Migrations/ExifMetadata.antt =====
-- alembic/versions/b7d9f2c4e1aa_add_exif_metadata_column.py, which follows the initial migration.
use pix_tools.Base.{not, if◌then◌else◌, Result, ok, ◌>>=◌}
use pix_tools.Migrations.Schema.{Database}
use pix_tools.Migrations.Initial.{table_exists, column_exists, add_missing, exif_metadata_column}

module _ (db : Database) where
  unfoldable pub upgrade : db.Schema → Result db.Schema
  upgrade s = add_missing db exif_metadata_column s

  unfoldable pub downgrade : db.Schema → Result db.Schema
  downgrade s = if not (table_exists db "jobs" s) then ok s else do
    there ← column_exists db "jobs" "exif_metadata" s
    if there then db.drop_column "jobs" "exif_metadata" s else ok s
