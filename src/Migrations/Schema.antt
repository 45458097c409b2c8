-- ===== src/Migrations/Schema.antt =====
-- The schema of a database as the migrations see and change it: SQLAlchemy's inspector and Alembic's
-- operations are an interface with their documented laws.
use pix_tools.Base.{
  ℕ, String, Bool, true, false, ◌≡◌, ◌≢◌, not, ◌||◌, ◌&&◌, Option, none, some, List, [], ◌∷◌, ◌++◌,
  map, keep, is_in, ◌==◌, if◌then◌else◌, Exn, Result, ok,
}

pub data Kind : Type 0 where
  uuid json text integer timestamp : Kind
  string : (length : ℕ) → Kind
  enum : (name : String) (values : List String) → Kind

-- A column; its server default, if it has one, is the current time.
pub record Column : Type 0 where
  pub name : String
  pub kind : Kind
  pub nullable : Bool
  pub server_default : Bool

pub record Index : Type 0 where
  pub name : String
  pub columns : List String
  pub unique : Bool

pub record Table : Type 0 where
  pub columns : List Column
  pub primary_key : List String
  pub indexes : List Index

abbrev pub column_names : Table → List String
column_names t = map (λ c. c.name) t.columns

abbrev pub index_names : Table → List String
index_names t = map (λ i. i.name) t.indexes

abbrev pub with_column : Column → Table → Table
with_column c t = record t { columns = t.columns ++ c ∷ [] }

abbrev pub with_index : Index → Table → Table
with_index i t = record t { indexes = t.indexes ++ i ∷ [] }

abbrev pub without_column : String → Table → Table
without_column name t = record t { columns = keep (λ c. not (c.name == name)) t.columns }

abbrev pub are_distinct : List String → Bool
are_distinct [] = true
are_distinct (n ∷ ns) = not (is_in n ns) && are_distinct ns

-- The enum types of the columns are there.
abbrev pub are_known : (String → Bool) → List Column → Bool
are_known has_type [] = true
are_known has_type (c ∷ cs) = elim c.kind [
  | enum n _ ↦ has_type n && are_known has_type cs
  | uuid ↦ are_known has_type cs
  | json ↦ are_known has_type cs
  | text ↦ are_known has_type cs
  | integer ↦ are_known has_type cs
  | timestamp ↦ are_known has_type cs
  | string _ ↦ are_known has_type cs
]

-- A column has the enum type.
abbrev pub has_kind : String → List Column → Bool
has_kind name [] = false
has_kind name (c ∷ cs) = elim c.kind [
  | enum n _ ↦ n == name || has_kind name cs
  | uuid ↦ has_kind name cs
  | json ↦ has_kind name cs
  | text ↦ has_kind name cs
  | integer ↦ has_kind name cs
  | timestamp ↦ has_kind name cs
  | string _ ↦ has_kind name cs
]

abbrev any_index : String → List Index → Bool
any_index column [] = false
any_index column (i ∷ is) = is_in column i.columns || any_index column is

-- The column is in the primary key or in an index.
abbrev pub is_used : String → Table → Bool
is_used column t = is_in column t.primary_key || any_index column t.indexes

abbrev pub without_index : String → Table → Table
without_index name t = record t { indexes = keep (λ i. not (i.name == name)) t.indexes }

-- The table `name` of a schema is replaced, and no other.
abbrev pub replaced : String → Option Table → (other : String) → Option Table → Option Table
replaced name t other old = if name == other then t else old

-- No table but `name` has an index `index`, whose name has to be unique in the schema.
abbrev pub IsFree : String → String → (String → Option Table) → Type 0
IsFree index name table =
    (other : String) (t : Table)
    → other ≢ name
    → table other ≡ some t
    → is_in index (index_names t) ≡ false

pub record Database : Type 1 where
  pub is_postgresql : Bool
  pub Schema : Type 0
  pub no_such_table : Exn
  -- what the inspector shows
  pub table : String → Schema → Option Table
  pub has_type : String → Schema → Bool
  pub create_type_if_missing : String → List String → Schema → Schema
  pub create_table : String → List Column → (primary_key : List String) → Schema → Result Schema
  pub add_column : String → Column → Schema → Result Schema
  pub drop_column : (name column : String) → Schema → Result Schema
  pub create_index : String → Index → Schema → Result Schema
  pub drop_index : (name index : String) → Schema → Result Schema
  pub drop_table : String → Schema → Result Schema
  -- `DROP TYPE IF EXISTS`
  pub drop_type : String → Schema → Result Schema
  pub has_type-create :
      (name : String) (values : List String) (s : Schema)
      → has_type name (create_type_if_missing name values s) ≡ true
  pub table-create_type :
      (other name : String) (values : List String) (s : Schema)
      → table other (create_type_if_missing name values s) ≡ table other s
  -- A new table of a name that is free, whose enum types, on PostgreSQL, are there.
  pub create_table_works :
      (name : String) (columns : List Column) (key : List String) (s : Schema)
      → table name s ≡ none
      → are_distinct (map (λ c. c.name) columns) ≡ true
      → (not is_postgresql || are_known (λ n. has_type n s) columns) ≡ true
      → (s' : Schema) × (create_table name columns key s ≡ ok s')
        × ((other : String)
            → table other s'
              ≡ replaced name
                  (some (record { columns = columns; primary_key = key; indexes = [] }))
                  other
                  (table other s))
  -- A new nullable column of a name that is free.
  pub add_column_works :
      (name : String) (c : Column) (t : Table) (s : Schema)
      → table name s ≡ some t
      → is_in c.name (column_names t) ≡ false
      → c.nullable ≡ true
      → (s' : Schema) × (add_column name c s ≡ ok s')
        × ((other : String)
            → table other s' ≡ replaced name (some (with_column c t)) other (table other s))
  -- A column that the table has and that is in no index and no key.
  pub drop_column_works :
      (name column : String) (t : Table) (s : Schema)
      → table name s ≡ some t
      → is_in column (column_names t) ≡ true
      → is_used column t ≡ false
      → (s' : Schema) × (drop_column name column s ≡ ok s')
        × ((other : String)
            → table other s' ≡ replaced name (some (without_column column t)) other (table other s))
  -- An index over one column of the table, of a name that is free in the schema.
  pub create_index_works :
      (name index column : String) (unique : Bool) (t : Table) (s : Schema)
      → table name s ≡ some t
      → is_in column (column_names t) ≡ true
      → is_in index (index_names t) ≡ false
      → IsFree index name (λ other. table other s)
      → let i : Index = record { name = index; columns = column ∷ []; unique = unique } in
        (s' : Schema) × (create_index name i s ≡ ok s')
        × ((other : String)
            → table other s' ≡ replaced name (some (with_index i t)) other (table other s))
  -- An index that the table has.
  pub drop_index_works :
      (name index : String) (t : Table) (s : Schema)
      → table name s ≡ some t
      → is_in index (index_names t) ≡ true
      → (s' : Schema) × (drop_index name index s ≡ ok s')
        × ((other : String)
            → table other s' ≡ replaced name (some (without_index index t)) other (table other s))
  pub drop_table_works :
      (name : String) (t : Table) (s : Schema)
      → table name s ≡ some t
      → (s' : Schema) × (drop_table name s ≡ ok s')
        × ((other : String) → table other s' ≡ replaced name none other (table other s))
  -- A type that no column has.
  pub drop_type_works :
      (name : String) (s : Schema)
      → ((other : String) (t : Table) → table other s ≡ some t → has_kind name t.columns ≡ false)
      → (s' : Schema) × (drop_type name s ≡ ok s')
        × (has_type name s' ≡ false)
        × ((other : String) → table other s' ≡ table other s)
