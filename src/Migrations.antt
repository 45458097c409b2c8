-- ===== src/Migrations.antt =====
-- The database migrations (alembic/versions and alembic/env.py).
pub mod Schema
pub mod Initial
pub mod ExifMetadata
pub mod Model
pub mod Steps
pub mod Head
pub mod Versions
pub mod Removal
pub mod Environment
