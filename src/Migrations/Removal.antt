-- ===== src/Migrations/Removal.antt =====
-- The schema that the downgrade of the initial migration ends in.
use pix_tools.Base.{
  String, true, false, not, ◌||◌, ◌≡◌, ◌≢◌, ◌∙◌, none, some, is_in, ◌==◌, eq_iff, ok, arith,
  Bool-cases, Option-cases, inl, inr,
}
use pix_tools.Migrations.Schema.{Table, index_names, without_index, has_kind, replaced, Database}
use pix_tools.Migrations.Initial.{drop_status_index, drop_jobs, index_exists, downgrade}

module _ (db : Database) where
  -- The table of jobs is gone, and no other table has changed.
  abbrev Removed : db.Schema → db.Schema → Type 0
  Removed s s' =
      (other : String) → db.table other s' ≡ replaced "jobs" none other (db.table other s)

  drop_status_index_works :
      (t : Table) (s : db.Schema)
      → db.table "jobs" s ≡ some t
      → (s' : db.Schema) × (t' : Table) × (drop_status_index db s ≡ ok s')
        × ((other : String)
            → db.table other s' ≡ replaced "jobs" (some t') other (db.table other s))
  unfolding drop_status_index index_exists
  drop_status_index_works t s there = elim (Bool-cases (is_in "ix_jobs_status" (index_names t))) [
    | inl old ↦
        let (s', made, h) = db.drop_index_works "jobs" "ix_jobs_status" t s there old in
        (s', without_index "ix_jobs_status" t, ground (arith, there, old, made), h)
    | inr new ↦
        (s, t, ground (arith, there, new), λ other. ground (arith, there, eq_iff "jobs" other))
  ]

  drop_jobs_works : (s : db.Schema) → (s' : db.Schema) × (drop_jobs db s ≡ ok s') × Removed s s'
  unfolding drop_jobs
  drop_jobs_works s = elim (Option-cases (db.table "jobs" s)) [
    | inl absent ↦ (s, ground (arith, absent), λ other. ground (arith, absent, eq_iff "jobs" other))
    | inr (t, there) ↦
        let (a, t', ea, ha) = drop_status_index_works t s there in
        let (b, eb, hb) = db.drop_table_works "jobs" t' a (ha "jobs") in
        (b, ground (arith, there, ea, eb), λ other. hb other ∙ ground (arith, ha other))
  ]

  still_unused :
      (s a : db.Schema)
      → Removed s a
      → ((other : String) (t : Table)
          → other ≢ "jobs"
          → db.table other s ≡ some t
          → has_kind "job_status" t.columns ≡ false)
      → (other : String) (t : Table) → db.table other a ≡ some t
      → has_kind "job_status" t.columns ≡ false
  still_unused s a ha unused other t e = elim (Bool-cases ("jobs" == other)) [
    | inl same ↦ ground (arith, ha other, e, same)
    | inr different ↦
        unused other t (λ q. ground (arith, q, different, eq_iff "jobs" other))
          (ground (arith, ha other, e, different))
  ]

  -- From any database in which no other table has a column of the type `job_status`, the downgrade of
  -- the initial migration succeeds and removes the table of jobs, with its type on PostgreSQL, and
  -- changes no other table.
  downgrade-removes :
      (s : db.Schema)
      → ((other : String) (t : Table)
          → other ≢ "jobs"
          → db.table other s ≡ some t
          → has_kind "job_status" t.columns ≡ false)
      → (s' : db.Schema) × (downgrade db s ≡ ok s')
        × ((other : String) → db.table other s' ≡ replaced "jobs" none other (db.table other s))
        × ((not db.is_postgresql || not (db.has_type "job_status" s')) ≡ true)
  unfolding downgrade
  downgrade-removes s unused =
      let (a, ea, ha) = drop_jobs_works s in
      elim (Bool-cases db.is_postgresql) [
        | inr other_dialect ↦
            (a, ground (arith, ea, other_dialect), ha, ground (arith, other_dialect))
        | inl postgresql ↦
            let (b, eb, gone, hb) =
              db.drop_type_works "job_status" a
                (λ other t e. still_unused s a ha unused other t e) in
            (
              b,
              ground (arith, ea, postgresql, eb),
              λ other. hb other ∙ ha other,
              ground (arith, gone),
            )
      ]
