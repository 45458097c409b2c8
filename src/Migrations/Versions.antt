-- ===== src/Migrations/Versions.antt =====
-- The migrations under Alembic's own table `alembic_version`, in the order of the `down_revision` of
-- the files of alembic/versions.
use pix_tools.Base.{
  String, ◌≡◌, ◌≢◌, refl, sym, ap, ◌∙◌, Option, none, some, [], ◌==◌, if◌then◌else◌, eq_iff, Exn,
  Result, ok, err, ◌>>=◌, arith, Bool-cases, inl, inr,
}
use pix_tools.Migrations.Schema.{Table, IsFree, Database}
use pix_tools.Migrations.Initial.{exif_metadata_column, result_keys_column}
use pix_tools.Migrations.Initial
use pix_tools.Migrations.ExifMetadata
use pix_tools.Migrations.Model.{model_table}
use pix_tools.Migrations.Steps.{added, head_of, add_missing_works}
use pix_tools.Migrations.Head.{initial_works}

-- `revision` of the two files.
abbrev pub initial_revision : String
initial_revision = "aec75fc63a2f"

abbrev pub exif_revision : String
exif_revision = "b7d9f2c4e1aa"

-- What Alembic does to its table, with its documented laws: it makes the table where it is missing,
-- without an index, and keeps the revision of the database in its row.
pub record Versions (db : Database) : Type 0 where
  pub revision : db.Schema → Option String
  pub ensure_table : db.Schema → db.Schema
  pub stamp : String → db.Schema → db.Schema
  pub unknown_revision : Exn
  pub unversioned : (s : db.Schema) → db.table "alembic_version" s ≡ none → revision s ≡ none
  pub ensured :
      (s : db.Schema) → (t : Table) × (db.table "alembic_version" (ensure_table s) ≡ some t)
  pub ensured_new :
      (s : db.Schema) (t : Table)
      → db.table "alembic_version" s ≡ none
      → db.table "alembic_version" (ensure_table s) ≡ some t
      → t.indexes ≡ []
  pub ensured_again :
      (s : db.Schema) (t : Table) → db.table "alembic_version" s ≡ some t → ensure_table s ≡ s
  pub ensured_others :
      (s : db.Schema) (other : String)
      → other ≢ "alembic_version"
      → db.table other (ensure_table s) ≡ db.table other s
  pub ensured_revision : (s : db.Schema) → revision (ensure_table s) ≡ revision s
  pub stamped_tables :
      (r : String) (s : db.Schema) (other : String) → db.table other (stamp r s) ≡ db.table other s
  pub stamped_revision :
      (r : String) (t : Table) (s : db.Schema)
      → db.table "alembic_version" s ≡ some t
      → revision (stamp r s) ≡ some r

module _ (db : Database) (v : Versions db) where
  abbrev from_initial : db.Schema → Result db.Schema
  from_initial s = do upgraded ← ExifMetadata.upgrade db s; ok (v.stamp exif_revision upgraded)

  -- the migrations that the revision of the database is behind
  abbrev from_revision : Option String → db.Schema → Result db.Schema
  from_revision none s = do
    upgraded ← Initial.upgrade db s
    from_initial (v.stamp initial_revision upgraded)
  from_revision (some r) s =
      if r == initial_revision
      then from_initial s
      else if r == exif_revision
      then ok s
      else err v.unknown_revision

  -- `context.run_migrations()` of `alembic upgrade head`
  unfoldable pub run_migrations : db.Schema → Result db.Schema
  run_migrations s = let prepared = v.ensure_table s in from_revision (v.revision prepared) prepared

  ensure_table-IsFree :
      (s : db.Schema)
      → db.table "alembic_version" s ≡ none
      → IsFree "ix_jobs_status" "jobs" (λ other. db.table other s)
      → IsFree "ix_jobs_status" "jobs" (λ other. db.table other (v.ensure_table s))
  ensure_table-IsFree s fresh free other t n e = elim (Bool-cases (other == "alembic_version")) [
    | inl same ↦
        let name : other ≡ "alembic_version" =
          ground (arith, same, eq_iff other "alembic_version") in
        let plain =
          v.ensured_new s t fresh (ap (λ o. db.table o (v.ensure_table s)) (sym name) ∙ e) in
        rw plain refl
    | inr differs ↦
        let name : other ≢ "alembic_version" =
          ground (arith, differs, eq_iff other "alembic_version") in
        free other t n (sym (v.ensured_others s other name) ∙ e)
  ]

  -- What the migrations make of a database without a table of jobs and a table of revisions.
  pub record IsUpgraded (s s' : db.Schema) : Type 0 where
    pub jobs : db.table "jobs" s' ≡ some model_table
    pub versions : Table
    pub versioned : db.table "alembic_version" s' ≡ some versions
    pub revision : v.revision s' ≡ some exif_revision
    pub others :
        (other : String)
        → other ≢ "jobs"
        → other ≢ "alembic_version"
        → db.table other s' ≡ db.table other s

  pub run_migrations-IsUpgraded :
      (s : db.Schema)
      → db.table "jobs" s ≡ none
      → db.table "alembic_version" s ≡ none
      → IsFree "ix_jobs_status" "jobs" (λ other. db.table other s)
      → (s' : db.Schema) × (run_migrations s ≡ ok s') × IsUpgraded s s'
  unfolding run_migrations ExifMetadata.upgrade
  run_migrations-IsUpgraded s absent fresh free =
      let s0 = v.ensure_table s in
      let absent0 : db.table "jobs" s0 ≡ none =
        v.ensured_others s "jobs" (λ e. ground (arith, eq_iff "jobs" "alembic_version")) ∙ absent in
      let (t, there) = v.ensured s in
      let none_yet : v.revision s0 ≡ none = v.ensured_revision s ∙ v.unversioned s fresh in
      let (a, ea, ha) =
        initial_works db s0 (ground (arith, absent0)) (ensure_table-IsFree s fresh free) in
      let a1 = v.stamp initial_revision a in
      let jobs1 = v.stamped_tables initial_revision a "jobs" ∙ ha.jobs in
      let (b, eb, hb) =
        add_missing_works db exif_metadata_column (head_of (db.table "jobs" s0)) a1 jobs1 refl in
      let kept = λ (other : String) (n : other ≢ "jobs").
        hb.others other n ∙ v.stamped_tables initial_revision a other ∙ ha.others other n in
      let versions =
        kept "alembic_version" (λ e. ground (arith, eq_iff "alembic_version" "jobs")) ∙ there in
      let stamped = v.stamped_tables exif_revision b in
      (
        v.stamp exif_revision b,
        ground (arith, none_yet, ea, eb),
        record {
          jobs =
              stamped "jobs"
              ∙ hb.jobs
              ∙ ap (λ o. some (added exif_metadata_column (head_of o))) absent0;
          versions = t;
          versioned = stamped "alembic_version" ∙ versions;
          revision = v.stamped_revision exif_revision t b versions;
          others = λ other n m. stamped other ∙ kept other n ∙ v.ensured_others s other m;
        },
      )

  -- At the head there is nothing to run.
  pub run_migrations_again :
      (s : db.Schema) (t : Table)
      → db.table "alembic_version" s ≡ some t
      → v.revision s ≡ some exif_revision
      → run_migrations s ≡ ok s
  unfolding run_migrations
  run_migrations_again s t there head = ground (arith, v.ensured_again s t there, head)
