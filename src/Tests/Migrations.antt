-- ===== src/Tests/Migrations.antt =====
-- The migrations on a schema in memory.
use pix_tools.Base.{
  String, Bool, true, false, not, ◌||◌, ◌≡◌, refl, Option, none, some, [], ◌∷◌, ◌==◌, if◌then◌else◌,
  Result, ok, ◌>>=◌, key_error, arith, eq_refl, eq_iff, ◌&&◌,
}
use pix_tools.Migrations.Schema.{
  string, enum, Table, with_column, with_index, without_column, without_index, replaced, IsFree,
  Database,
}
use pix_tools.Migrations.Model.{model_table}
use pix_tools.Migrations.Initial.{job_status_values}
use pix_tools.Migrations.Initial
use pix_tools.Migrations.ExifMetadata
use pix_tools.Base.{Option-cases, inl, inr, ◌≢◌}
use pix_tools.Migrations.Versions.{Versions}
use pix_tools.Migrations.Head.{upgrade_head, IsHead, upgrade_head-again, downgrade-upgrade_head}

pub record Tables : Type 0 where
  pub found : String → Option Table
  types : String → Bool
  version : Option String

abbrev put : String → Option Table → Tables → Tables
put name t s = record s { found = λ other. replaced name t other (s.found other) }

abbrev changed : (Table → Table) → Option Table → Option Table
changed f none = none
changed f (some t) = some (f t)

abbrev change : String → (Table → Table) → Tables → Result Tables
change name f s = ok (put name (changed f (s.found name)) s)

pub changed_at :
    (f : Table → Table) (name : String) (t : Table) (s : Tables)
    → s.found name ≡ some t
    → (other : String)
    → replaced name (changed f (s.found name)) other (s.found other)
      ≡ replaced name (some (f t)) other (s.found other)
changed_at f name t s there other = rw there refl

pub known : (name : String) (types : String → Bool) → (name == name || types name) ≡ true
known name types = ground (arith, eq_refl name)

pub gone : (name : String) (types : String → Bool) → (not (name == name) && types name) ≡ false
gone name types = ground (arith, eq_refl name)

abbrev pub in_memory : Database
in_memory = record {
  is_postgresql = true;
  Schema = Tables;
  no_such_table = key_error;
  table = λ name s. s.found name;
  has_type = λ name s. s.types name;
  create_type_if_missing = λ name values s. record s { types = λ n. n == name || s.types n };
  create_table = λ name columns key s.
      ok (put name (some (record { columns = columns; primary_key = key; indexes = [] })) s);
  add_column = λ name c s. change name (with_column c) s;
  drop_column = λ name column s. change name (without_column column) s;
  create_index = λ name i s. change name (with_index i) s;
  drop_index = λ name index s. change name (without_index index) s;
  drop_table = λ name s. ok (put name none s);
  drop_type = λ name s. ok (record s { types = λ n. not (n == name) && s.types n });
  has_type-create = λ name values s. known name s.types;
  table-create_type = λ other name values s. refl;
  create_table_works = λ name columns key s absent distinct typed. (_, refl, λ other. refl);
  add_column_works =
      λ name c t s there new nullable. (_, refl, changed_at (with_column c) name t s there);
  drop_column_works = λ name column t s there old free.
      (_, refl, changed_at (without_column column) name t s there);
  create_index_works = λ name index column unique t s there old new free. (
    _,
    refl,
    changed_at (with_index (record { name = index; columns = column ∷ []; unique = unique })) name t
        s there,
  );
  drop_index_works =
      λ name index t s there old. (_, refl, changed_at (without_index index) name t s there);
  drop_table_works = λ name t s there. (_, refl, λ other. refl);
  drop_type_works = λ name s unused. (_, refl, gone name s.types, λ other. refl);
}

abbrev pub version_table : Table
version_table = record {
  columns =
      record { name = "version_num"; kind = string 32; nullable = false; server_default = false }
      ∷ [];
  primary_key = "version_num" ∷ [];
  indexes = [];
}

abbrev pub version_of : Tables → Option String
version_of s = elim (s.found "alembic_version") [ none ↦ none | some t ↦ s.version ]

abbrev pub ensured : Tables → Tables
ensured s = elim (s.found "alembic_version") [
  | none ↦ put "alembic_version" (some version_table) (record s { version = none })
  | some t ↦ s
]

pub ensured_there : (s : Tables) → (t : Table) × ((ensured s).found "alembic_version" ≡ some t)
ensured_there s = elim (Option-cases (s.found "alembic_version")) [
  | inl gone ↦ (version_table, ground (arith, gone))
  | inr (t, there) ↦ (t, ground (arith, there))
]

pub ensured_new :
    (s : Tables) (t : Table)
    → s.found "alembic_version" ≡ none
    → (ensured s).found "alembic_version" ≡ some t
    → t.indexes ≡ []
ensured_new s t gone there =
    let new : some version_table ≡ some t = ground (arith, gone, there) in ground (arith, new)

pub ensured_others :
    (s : Tables) (other : String)
    → other ≢ "alembic_version"
    → (ensured s).found other ≡ s.found other
ensured_others s other n = ground (arith, eq_iff "alembic_version" other, n)

pub unversioned : (s : Tables) → s.found "alembic_version" ≡ none → version_of s ≡ none
unversioned s h = ground (arith, h)

pub ensured_again : (s : Tables) (t : Table) → s.found "alembic_version" ≡ some t → ensured s ≡ s
ensured_again s t h = ground (arith, h)

pub ensured_revision : (s : Tables) → version_of (ensured s) ≡ version_of s
ensured_revision s = ground arith

abbrev pub stamped : String → Tables → Tables
stamped r s = record s { version = some r }

pub stamped_revision :
    (r : String) (t : Table) (s : Tables)
    → s.found "alembic_version" ≡ some t
    → version_of (stamped r s) ≡ some r
stamped_revision r t s h = ground (arith, h)

abbrev pub versions_in_memory : Versions in_memory
versions_in_memory = record {
  revision = version_of;
  ensure_table = ensured;
  stamp = stamped;
  unknown_revision = key_error;
  unversioned = unversioned;
  ensured = ensured_there;
  ensured_new = ensured_new;
  ensured_again = ensured_again;
  ensured_others = ensured_others;
  ensured_revision = ensured_revision;
  stamped_tables = λ r s other. refl;
  stamped_revision = stamped_revision;
}

abbrev pub blank : Tables
blank = record { found = λ name. none; types = λ name. false; version = none }

-- A table of jobs from before the migrations.
abbrev old_jobs : Table
old_jobs = record {
  columns =
      record {
        name = "status";
        kind = enum "job_status" job_status_values;
        nullable = false;
        server_default = false;
      }
      ∷ record { name = "webhook_url"; kind = string 255; nullable = false; server_default = false }
      ∷ [];
  primary_key = [];
  indexes = [];
}

abbrev old : Tables
old = record {
  found = λ name. if name == "jobs" then some old_jobs else none;
  types = λ name. name == "job_status";
  version = none;
}

pub blank-IsFree : IsFree "ix_jobs_status" "jobs" (λ other. in_memory.table other blank)
blank-IsFree other t n e = cc

old-IsFree : IsFree "ix_jobs_status" "jobs" (λ other. in_memory.table other old)
old-IsFree other t n e = ground (arith, e, n, eq_iff other "jobs")

upgrade_head-again_example :
    (s' : Tables) × (t' : Table) × (upgrade_head in_memory old ≡ ok s')
    × (upgrade_head in_memory s' ≡ ok s')
    × (s'.found "jobs" ≡ some t')
    × IsHead t' old_jobs.columns
upgrade_head-again_example = upgrade_head-again in_memory old_jobs old refl refl old-IsFree

downgrade-upgrade_head_example :
    (first back : Tables) × (Initial.upgrade in_memory blank ≡ ok first)
    × ((upgrade_head in_memory blank >>= ExifMetadata.downgrade in_memory) ≡ ok back)
    × (first.found "jobs" ≡ some model_table)
    × (back.found "jobs" ≡ some (without_column "exif_metadata" model_table))
downgrade-upgrade_head_example = downgrade-upgrade_head in_memory blank refl blank-IsFree
