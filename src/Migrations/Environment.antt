-- ===== src/Migrations/Environment.antt =====
-- alembic/env.py: how the migrations reach a database.
use pix_tools.Base.{
  ℕ, suc, String, Bool, true, false, not, ◌≡◌, ◌≢◌, refl, ◌∙◌, ap, Option, none, some, or_default,
  List, lookup, insert, lookup-insert, ◌==◌, eq_iff, eq_refl, if◌then◌else◌, value_error, Result,
  ok, err, arith,
}
use pix_tools.Migrations.Schema.{Table, IsFree, Database}
use pix_tools.Migrations.Model.{model_table}
use pix_tools.Migrations.Versions.{
  Versions, run_migrations, run_migrations-IsUpgraded, run_migrations_again,
}

-- The section `[alembic]` of the .ini file, or of the configuration while it runs.
abbrev pub Options : Type 0
Options = List (String × String)

-- What `context.configure` is given for a script.
pub record Script : Type 0 where
  pub url : String
  pub literal_binds : Bool
  pub paramstyle : String

module _ (db : Database) where
  -- What the module meets in Alembic: the mode, whether ConfigParser takes a value (it refuses a lone
  -- "%"), what it reads such a value as, the migrations that it runs, what writing a script comes to,
  -- and what a failed run leaves of a schema where statements on tables are not undone.
  pub record Context : Type 0 where
    pub is_offline_mode : Bool
    pub options : Options
    pub takes : String → Bool
    pub read : String → String
    pub migrations : db.Schema → Result db.Schema
    pub written : Result (Unit {0})
    pub left : db.Schema → db.Schema

  -- The databases by their URLs, the script that was configured, and the engines that have been made
  -- and not disposed of.
  pub record Servers : Type 0 where
    pub schema : String → db.Schema
    pub script : Option Script
    pub engines : ℕ

  module _ (c : Context) where
    abbrev pub run_migrations_offline : Options → Servers → Result (Unit {0}) × Servers
    run_migrations_offline options v = (
      c.written,
      record v {
        script = some (record {
          url = c.read (or_default (lookup "sqlalchemy.url" options) "");
          literal_binds = true;
          paramstyle = "named";
        });
      },
    )

    -- `with context.begin_transaction()`: PostgreSQL undoes what a failed run has done to its tables.
    abbrev pub in_transaction : db.Schema → Result db.Schema → Result (Unit {0}) × db.Schema
    in_transaction before (ok after) = (ok tt, after)
    in_transaction before (err e) = (err e, if db.is_postgresql then before else c.left before)

    abbrev pub do_run_migrations : (url : String) → Servers → Result (Unit {0}) × Servers
    do_run_migrations url v =
        let (r, s) = in_transaction (v.schema url) (c.migrations (v.schema url)) in
        (r, record v { schema = λ u. if u == url then s else v.schema u })

    -- `await connectable.dispose()`, which an exception skips
    abbrev pub dispose_after : ℕ → Result (Unit {0}) × Servers → Result (Unit {0}) × Servers
    dispose_after engines (ok done, v) = (ok done, record v { engines = engines })
    dispose_after engines (err e, v) = (err e, v)

    unfoldable pub run_async_migrations :
        (database_url : String) → Options → Servers → Result (Unit {0}) × Servers
    run_async_migrations database_url options v =
        let ini_section = insert "sqlalchemy.url" database_url options in
        let url = or_default (lookup "sqlalchemy.url" ini_section) "" in
        dispose_after v.engines (do_run_migrations url (record v { engines = suc v.engines }))

    -- The module, from `config.set_main_option` on.
    unfoldable pub env : (database_url : String) → Servers → Result (Unit {0}) × Servers
    env database_url v =
        if not (c.takes database_url)
        then (err value_error, v)
        else (let options = insert "sqlalchemy.url" database_url c.options in
            if c.is_offline_mode
            then run_migrations_offline options v
            else run_async_migrations database_url options v)

    env_online :
        (url : String) (v : Servers)
        → c.takes url ≡ true
        → c.is_offline_mode ≡ false
        → env url v
          ≡ dispose_after v.engines (do_run_migrations url (record v { engines = suc v.engines }))
    unfolding env run_async_migrations
    env_online url v takes online =
        let section = insert "sqlalchemy.url" url (insert "sqlalchemy.url" url c.options) in
        let same : or_default (lookup "sqlalchemy.url" section) "" ≡ url = ground (
          arith,
          lookup-insert "sqlalchemy.url" "sqlalchemy.url" url
              (insert "sqlalchemy.url" url c.options),
          eq_refl "sqlalchemy.url",
        ) in
        rw takes (rw online (rw same refl))

  module _ (versions : Versions db) where
    -- `alembic upgrade head`
    abbrev pub upgrading : Context → Context
    upgrading c = record c { migrations = run_migrations db versions }

    upgraded_by :
        (c : Context) (url : String) (v : Servers) (s' : db.Schema)
        → c.takes url ≡ true
        → c.is_offline_mode ≡ false
        → run_migrations db versions (v.schema url) ≡ ok s'
        → env (upgrading c) url v
          ≡ (ok tt, record v { schema = λ u. if u == url then s' else v.schema u })
    upgraded_by c url v s' takes online made =
        env_online (upgrading c) url v takes online ∙ rw made refl

    -- `alembic upgrade head` with a connection, where ConfigParser takes the URL of the settings: on
    -- a database at that URL with neither a table of jobs nor Alembic's own, in which no index is
    -- named `ix_jobs_status`, it succeeds, makes exactly the table that the model declares, and the
    -- table `alembic_version`, which holds the revision of the head; it changes no other table and no
    -- database at another URL, whatever URL the .ini file has, and the engine is disposed of. When it
    -- runs again, it succeeds and changes nothing there.
    pub env-model :
        (c : Context) (url : String) (v : Servers)
        → c.takes url ≡ true
        → c.is_offline_mode ≡ false
        → db.table "jobs" (v.schema url) ≡ none
        → db.table "alembic_version" (v.schema url) ≡ none
        → IsFree "ix_jobs_status" "jobs" (λ other. db.table other (v.schema url))
        → let (r, w) = env (upgrading c) url v in
          let (again, w') = env (upgrading c) url w in
          (r ≡ ok tt)
          × (db.table "jobs" (w.schema url) ≡ some model_table)
          × ((t : Table) × (db.table "alembic_version" (w.schema url) ≡ some t))
          × (versions.revision (w.schema url) ≡ some "b7d9f2c4e1aa")
          × ((other : String)
              → other ≢ "jobs"
              → other ≢ "alembic_version"
              → db.table other (w.schema url) ≡ db.table other (v.schema url))
          × ((elsewhere : String) → url ≢ elsewhere → w.schema elsewhere ≡ v.schema elsewhere)
          × (w.engines ≡ v.engines)
          × (again ≡ ok tt)
          × (w'.schema url ≡ w.schema url)
    env-model c url v takes online absent fresh free =
        let (s', made, h) =
          run_migrations-IsUpgraded db versions (v.schema url) absent fresh free in
        let w = record v { schema = λ u. if u == url then s' else v.schema u } in
        let here : w.schema url ≡ s' = rw (eq_refl url) refl in
        let idle : run_migrations db versions (w.schema url) ≡ ok s' =
          ap (run_migrations db versions) here
          ∙ run_migrations_again db versions s' h.versions h.versioned h.revision in
        rw (upgraded_by c url v s' takes online made) (
          rw (upgraded_by c url w s' takes online idle) (
            refl,
            ap (db.table "jobs") here ∙ h.jobs,
            (h.versions, ap (db.table "alembic_version") here ∙ h.versioned),
            ap versions.revision here ∙ h.revision,
            λ other n m. ap (db.table other) here ∙ h.others other n m,
            λ elsewhere n. ground (arith, eq_iff elsewhere url, n),
            refl,
            refl,
            rw (eq_refl url) refl,
          ))
