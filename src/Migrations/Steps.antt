-- ===== src/Migrations/Steps.antt =====
-- What each step of the migrations does to the table of jobs.
use pix_tools.Base.{
  String, true, false, not, ◌||◌, ◌≡◌, ◌≢◌, refl, sym, ◌∙◌, ap, Option, none, some, List, [], ◌∷◌,
  ◌++◌, map, is_in, ◌==◌, eq_iff, eq_refl, if◌then◌else◌, ok, arith, Bool-cases, Option-cases, inl,
  inr,
}
use pix_tools.Migrations.Schema.{
  Column, Table, column_names, index_names, with_column, with_index, replaced, IsFree, are_known,
  Database,
}
use pix_tools.Migrations.Initial.{
  job_status_values, job_columns, status_index, result_keys_column, exif_metadata_column,
  create_jobs, create_status_index, add_missing, index_exists, column_exists,
  create_job_status_enum_if_needed,
}

abbrev pub started : Option Table → Table
started none = record { columns = job_columns; primary_key = "id" ∷ []; indexes = [] }
started (some t) = t

abbrev pub indexed : Table → Table
indexed t = if is_in "ix_jobs_status" (index_names t) then t else with_index status_index t

abbrev pub added : Column → Table → Table
added c t = if is_in c.name (column_names t) then t else with_column c t

-- The table that the migrations make of the one they find.
abbrev pub head_of : Option Table → Table
head_of t = added exif_metadata_column (added result_keys_column (indexed (started t)))

pub is_in-append_last :
    (n : String) (cs : List Column) (c : Column)
    → is_in n (map (λ c. c.name) (cs ++ c ∷ [])) ≡ (is_in n (map (λ c. c.name) cs) || n == c.name)
is_in-append_last n [] c = ground arith
is_in-append_last n (d ∷ cs) c = ground (arith, is_in-append_last n cs c)

-- A column that is missing is added, and the others stay.
pub column_added :
    (n : String) (c : Column) (t : Table)
    → is_in n (column_names (added c t)) ≡ (is_in n (column_names t) || n == c.name)
column_added n c t = elim (Bool-cases (is_in c.name (column_names t))) [
  | inl old ↦ ground (arith, old, eq_iff n c.name)
  | inr new ↦ ground (arith, new, is_in-append_last n t.columns c)
]

pub added-added : (c : Column) (t : Table) → added c (added c t) ≡ added c t
added-added c t = ground (arith, column_added c.name c t, eq_refl c.name)

module _ (db : Database) where
  -- Only the table of jobs has changed, to `t`.
  pub record Becomes (t : Table) (s s' : db.Schema) : Type 0 where
    pub jobs : db.table "jobs" s' ≡ some t
    pub others : (other : String) → other ≢ "jobs" → db.table other s' ≡ db.table other s

  replaced-Becomes :
      (t t' : Table) (s s' : db.Schema)
      → ((other : String) → db.table other s' ≡ replaced "jobs" (some t') other (db.table other s))
      → t' ≡ t
      → Becomes t s s'
  replaced-Becomes t t' s s' h e = record {
    jobs = h "jobs" ∙ ap some e;
    others = λ other n. h other ∙ ground (arith, n, eq_iff "jobs" other);
  }

  stays : (t : Table) (s : db.Schema) → db.table "jobs" s ≡ some t → Becomes t s s
  stays t s e = record { jobs = e; others = λ other n. refl }

  table-enum :
      (other : String) (s : db.Schema)
      → db.table other (create_job_status_enum_if_needed db s) ≡ db.table other s
  table-enum other s = elim (Bool-cases db.is_postgresql) [
    | inl there ↦ ground (arith, there, db.table-create_type other "job_status" job_status_values s)
    | inr not_there ↦ ground (arith, not_there)
  ]

  enum_known :
      (s : db.Schema)
      → (not db.is_postgresql
          || are_known (λ n. db.has_type n (create_job_status_enum_if_needed db s)) job_columns)
        ≡ true
  enum_known s = elim (Bool-cases db.is_postgresql) [
    | inl there ↦ ground (arith, there, db.has_type-create "job_status" job_status_values s)
    | inr not_there ↦ ground (arith, not_there)
  ]

  pub create_jobs_works :
      (s : db.Schema)
      → (s' : db.Schema) × (create_jobs db s ≡ ok s') × Becomes (started (db.table "jobs" s)) s s'
  unfolding create_jobs
  create_jobs_works s = elim (Option-cases (db.table "jobs" s)) [
    | inl absent ↦
        let r = create_job_status_enum_if_needed db s in
        let (s', made, h) =
          db.create_table_works "jobs" job_columns ("id" ∷ []) r (table-enum "jobs" s ∙ absent) refl
            (enum_known s) in
        (
          s',
          ground (arith, absent, made),
          replaced-Becomes _ (started none) s s'
              (λ other. h other ∙ ground (arith, table-enum other s)) (ap started (sym absent)),
        )
    | inr (t, there) ↦
        (s, ground (arith, there), stays _ s (there ∙ ap (λ o. some (started o)) (sym there)))
  ]

  pub create_status_index_works :
      (t : Table) (s : db.Schema)
      → db.table "jobs" s ≡ some t
      → is_in "status" (column_names t) ≡ true
      → IsFree "ix_jobs_status" "jobs" (λ other. db.table other s)
      → (s' : db.Schema) × (create_status_index db s ≡ ok s') × Becomes (indexed t) s s'
  unfolding create_status_index index_exists
  create_status_index_works t s there status free =
      elim (Bool-cases (is_in "ix_jobs_status" (index_names t))) [
        | inl old ↦
            (s, ground (arith, there, old), stays (indexed t) s (there ∙ ground (arith, old)))
        | inr new ↦
            let (s', made, h) =
              db.create_index_works "jobs" "ix_jobs_status" "status" false t s there status new
                free in
            (
              s',
              ground (arith, there, new, made),
              replaced-Becomes (indexed t) (with_index status_index t) s s' h (ground (arith, new)),
            )
      ]

  pub add_missing_works :
      (c : Column) (t : Table) (s : db.Schema)
      → db.table "jobs" s ≡ some t
      → c.nullable ≡ true
      → (s' : db.Schema) × (add_missing db c s ≡ ok s') × Becomes (added c t) s s'
  unfolding add_missing column_exists
  add_missing_works c t s there n = elim (Bool-cases (is_in c.name (column_names t))) [
    | inl old ↦ (s, ground (arith, there, old), stays (added c t) s (there ∙ ground (arith, old)))
    | inr new ↦
        let (s', made, h) = db.add_column_works "jobs" c t s there new n in
        (
          s',
          ground (arith, there, new, made),
          replaced-Becomes (added c t) (with_column c t) s s' h (ground (arith, new)),
        )
  ]

  -- What is there is not added again.
  pub create_status_index_idle :
      (t : Table) (s : db.Schema)
      → db.table "jobs" s ≡ some t
      → is_in "ix_jobs_status" (index_names t) ≡ true
      → create_status_index db s ≡ ok s
  unfolding create_status_index index_exists
  create_status_index_idle t s there old = ground (arith, there, old)

  pub add_missing_idle :
      (c : Column) (t : Table) (s : db.Schema)
      → db.table "jobs" s ≡ some t
      → is_in c.name (column_names t) ≡ true
      → add_missing db c s ≡ ok s
  unfolding add_missing column_exists
  add_missing_idle c t s there old = ground (arith, there, old)
