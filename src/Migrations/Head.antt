-- ===== src/Migrations/Head.antt =====
-- The schema that the migrations end in, against the table that app/models.py declares.
use mathlib.Core.List.{append-nil, append_assoc}
use pix_tools.Base.{
  String, true, ◌||◌, ◌≡◌, ◌≢◌, refl, sym, ◌∙◌, ap, none, some, List, [], ◌∷◌, ◌++◌, map, is_in,
  ◌==◌, Result, ok, ◌>>=◌, arith, Bool-cases, inl, inr,
}
use pix_tools.Migrations.Schema.{
  Column, Index, Table, column_names, index_names, without_column, IsFree, Database,
}
use pix_tools.Migrations.Initial.{
  job_status_values, job_columns, status_index, result_keys_column, exif_metadata_column,
  create_jobs, create_status_index, add_missing, index_exists, column_exists,
  create_job_status_enum_if_needed,
}
use pix_tools.Migrations.Initial
use pix_tools.Migrations.ExifMetadata
use pix_tools.Migrations.Model.{model_table}
use pix_tools.Migrations.Steps.{
  started, indexed, added, head_of, column_added, added-added, Becomes, create_jobs_works,
  create_status_index_works, add_missing_works, create_status_index_idle, add_missing_idle,
}

-- The table has the columns `old` first, and the columns and the index that the migrations add.
pub record IsHead (t : Table) (old : List Column) : Type 0 where
  more : List Column
  kept : t.columns ≡ old ++ more
  keyed : is_in "result_keys" (column_names t) ≡ true
  exif : is_in "exif_metadata" (column_names t) ≡ true
  index : is_in "ix_jobs_status" (index_names t) ≡ true

added_prefix :
    (c : Column) (t : Table) → (more : List Column) × ((added c t).columns ≡ t.columns ++ more)
added_prefix c t = elim (Bool-cases (is_in c.name (column_names t))) [
  | inl old ↦ ([], ground (arith, old, append-nil t.columns))
  | inr new ↦ (c ∷ [], ground (arith, new))
]

added_indexes : (c : Column) (t : Table) → (added c t).indexes ≡ t.indexes
added_indexes c t = elim (Bool-cases (is_in c.name (column_names t))) [
  | inl old ↦ ground (arith, old)
  | inr new ↦ ground (arith, new)
]

indexed_columns : (t : Table) → (indexed t).columns ≡ t.columns
indexed_columns t = elim (Bool-cases (is_in "ix_jobs_status" (index_names t))) [
  | inl old ↦ ground (arith, old)
  | inr new ↦ ground (arith, new)
]

is_in-append_index :
    (n : String) (is : List Index) (i : Index)
    → is_in n (map (λ i. i.name) (is ++ i ∷ [])) ≡ (is_in n (map (λ i. i.name) is) || n == i.name)
is_in-append_index n [] i = ground arith
is_in-append_index n (j ∷ is) i = ground (arith, is_in-append_index n is i)

index_added : (t : Table) → is_in "ix_jobs_status" (index_names (indexed t)) ≡ true
index_added t = elim (Bool-cases (is_in "ix_jobs_status" (index_names t))) [
  | inl old ↦ ground (arith, old)
  | inr new ↦ ground (arith, new, is_in-append_index "ix_jobs_status" t.indexes status_index)
]

head_of-IsHead : (t : Table) → IsHead (head_of (some t)) t.columns
head_of-IsHead t =
    let keyed = added result_keys_column (indexed t) in
    let (a, ea) = added_prefix result_keys_column (indexed t) in
    let (b, eb) = added_prefix exif_metadata_column keyed in
    record {
      more = a ++ b;
      kept =
          eb
          ∙ ap (λ cs. cs ++ b) (ea ∙ ap (λ cs. cs ++ a) (indexed_columns t))
          ∙ append_assoc t.columns a b;
      keyed =
          column_added "result_keys" exif_metadata_column keyed
          ∙ ground (arith, column_added "result_keys" result_keys_column (indexed t));
      exif = column_added "exif_metadata" exif_metadata_column keyed ∙ ground arith;
      index =
          ap (λ is. is_in "ix_jobs_status" (map (λ i. i.name) is))
            (added_indexes exif_metadata_column keyed
              ∙ added_indexes result_keys_column (indexed t))
          ∙ index_added t;
    }

module _ (db : Database) where
  -- The bodies of both migrations in a row. Alembic's own table is in Migrations.Versions.
  unfoldable pub upgrade_head : db.Schema → Result db.Schema
  upgrade_head s = do upgraded ← Initial.upgrade db s; ExifMetadata.upgrade db upgraded

  -- The initial migration, from any database: without a table of jobs, or with one that has a
  -- column of the status, in which no other table has an index of the name `ix_jobs_status`.
  pub initial_works :
      (s : db.Schema)
      → is_in "status" (column_names (started (db.table "jobs" s))) ≡ true
      → IsFree "ix_jobs_status" "jobs" (λ other. db.table other s)
      → (s' : db.Schema) × (Initial.upgrade db s ≡ ok s')
        × Becomes db (head_of (db.table "jobs" s)) s s'
  unfolding Initial.upgrade
  initial_works s status free =
      let old = started (db.table "jobs" s) in
      let (a, ea, ha) = create_jobs_works db s in
      let (b, eb, hb) =
        create_status_index_works db old a ha.jobs status
          (λ other t n e. free other t n (sym (ha.others other n) ∙ e)) in
      let (c, ec, hc) = add_missing_works db result_keys_column (indexed old) b hb.jobs refl in
      let (d, ed, hd) =
        add_missing_works db exif_metadata_column (added result_keys_column (indexed old)) c hc.jobs
          refl in
      (
        d,
        ground (arith, ea, eb, ec, ed),
        record {
          jobs = hd.jobs;
          others = λ other n.
              hd.others other n ∙ hc.others other n ∙ hb.others other n ∙ ha.others other n;
        },
      )

  -- Both migrations, under the same conditions.
  upgrade_head_works :
      (s : db.Schema)
      → is_in "status" (column_names (started (db.table "jobs" s))) ≡ true
      → IsFree "ix_jobs_status" "jobs" (λ other. db.table other s)
      → (s' : db.Schema) × (upgrade_head s ≡ ok s') × Becomes db (head_of (db.table "jobs" s)) s s'
  unfolding upgrade_head ExifMetadata.upgrade
  upgrade_head_works s status free =
      let before = added result_keys_column (indexed (started (db.table "jobs" s))) in
      let (d, ed, hd) = initial_works s status free in
      let (e, ee, he) =
        add_missing_works db exif_metadata_column (head_of (db.table "jobs" s)) d hd.jobs refl in
      (
        e,
        ground (arith, ed, ee),
        record {
          jobs = he.jobs ∙ ap some (added-added exif_metadata_column before);
          others = λ other n. he.others other n ∙ hd.others other n;
        },
      )

  -- From a database without a table of jobs, in which no index is named `ix_jobs_status`, the
  -- migrations succeed and make exactly the table that the model declares, and change no other table.
  pub upgrade_head-model :
      (s : db.Schema)
      → db.table "jobs" s ≡ none
      → IsFree "ix_jobs_status" "jobs" (λ other. db.table other s)
      → (s' : db.Schema) × (upgrade_head s ≡ ok s')
        × (db.table "jobs" s' ≡ some model_table)
        × ((other : String) → other ≢ "jobs" → db.table other s' ≡ db.table other s)
  upgrade_head-model s absent free =
      let (s', made, h) = upgrade_head_works s (ground (arith, absent)) free in
      (s', made, h.jobs ∙ ap (λ t. some (head_of t)) absent, h.others)

  -- From a database with a table of jobs that has a column of the status, however old, in which no
  -- other table has an index named `ix_jobs_status`, the migrations succeed, keep the columns that
  -- there are, in their order, add what the model needs, and change nothing when they run again.
  pub upgrade_head-again :
      (t : Table) (s : db.Schema)
      → db.table "jobs" s ≡ some t
      → is_in "status" (column_names t) ≡ true
      → IsFree "ix_jobs_status" "jobs" (λ other. db.table other s)
      → (s' : db.Schema) × (t' : Table) × (upgrade_head s ≡ ok s')
        × (upgrade_head s' ≡ ok s')
        × (db.table "jobs" s' ≡ some t')
        × IsHead t' t.columns
  unfolding upgrade_head Initial.upgrade ExifMetadata.upgrade create_jobs
  upgrade_head-again t s there status free =
      let t' = head_of (some t) in
      let (s', made, h) = upgrade_head_works s (ground (arith, there, status)) free in
      let now : db.table "jobs" s' ≡ some t' = h.jobs ∙ ap (λ o. some (head_of o)) there in
      let head = head_of-IsHead t in
      (
        s',
        t',
        made,
        ground (
          arith,
          now,
          create_status_index_idle db t' s' now head.index,
          add_missing_idle db result_keys_column t' s' now head.keyed,
          add_missing_idle db exif_metadata_column t' s' now head.exif,
        ),
        now,
        head,
      )

  -- From a database without a table of jobs, in which no index is named `ix_jobs_status`: the initial
  -- migration already makes the column of EXIF metadata, and the downgrade of the second one, from
  -- the head back to the initial migration, drops it.
  pub downgrade-upgrade_head :
      (s : db.Schema)
      → db.table "jobs" s ≡ none
      → IsFree "ix_jobs_status" "jobs" (λ other. db.table other s)
      → (first back : db.Schema) × (Initial.upgrade db s ≡ ok first)
        × ((upgrade_head s >>= ExifMetadata.downgrade db) ≡ ok back)
        × (db.table "jobs" first ≡ some model_table)
        × (db.table "jobs" back ≡ some (without_column "exif_metadata" model_table))
  unfolding ExifMetadata.downgrade column_exists
  downgrade-upgrade_head s absent free =
      let (s', made, now, others) = upgrade_head-model s absent free in
      let (back, dropped, h) =
        db.drop_column_works "jobs" "exif_metadata" model_table s' now refl refl in
      let (first, e, g) = initial_works s (ground (arith, absent)) free in
      (
        first,
        back,
        e,
        ground (arith, made, now, dropped),
        g.jobs ∙ ap (λ t. some (head_of t)) absent,
        h "jobs",
      )
