-- ===== src/Trace/Store/Schema.antt =====
-- internal/store/store.go: migrate, on the columns of each table. The database is taken to accept each
-- statement but one that alters a table that is not there; the indexes, which no query names, are left out.
use providerapi.Prelude.{
  String, ◌≡◌, refl, ap, ◌⊎◌, inl, inr, Bool, true, Option, none, some, List, [], ◌∷◌, ◌++◌, any,
  arith, ◌==◌, eq_iff, eq_refl, Bool-cases, Option-cases, if◌then◌else◌,
}
use providerapi.Dict.{Dict, get, put, has, get-put, get-put_self}

-- A column and its declaration
pub record Column : Type 0 where
  pub name : String
  pub decl : String

abbrev pub Schema : Type 0
Schema = Dict (List Column)

abbrev requests_columns : List Column
requests_columns =
    record { name = "id"; decl = "TEXT PRIMARY KEY" }
    ∷ record { name = "client_request_id"; decl = "TEXT" }
    ∷ record { name = "started_at"; decl = "INTEGER NOT NULL" }
    ∷ record { name = "finished_at"; decl = "INTEGER" }
    ∷ record { name = "client_model"; decl = "TEXT" }
    ∷ record { name = "provider"; decl = "TEXT" }
    ∷ record { name = "upstream_model"; decl = "TEXT" }
    ∷ record { name = "reasoning"; decl = "TEXT" }
    ∷ record { name = "status"; decl = "TEXT" }
    ∷ record { name = "finish_reason"; decl = "TEXT" }
    ∷ record { name = "http_status"; decl = "INTEGER" }
    ∷ record { name = "input_tokens"; decl = "INTEGER" }
    ∷ record { name = "output_tokens"; decl = "INTEGER" }
    ∷ record { name = "ttft_ms"; decl = "INTEGER" }
    ∷ record { name = "duration_ms"; decl = "INTEGER" }
    ∷ record { name = "error_type"; decl = "TEXT" }
    ∷ record { name = "error_code"; decl = "TEXT" }
    ∷ record { name = "error_message"; decl = "TEXT" }
    ∷ record { name = "plugin_id"; decl = "TEXT" }
    ∷ record { name = "plugin_version"; decl = "TEXT" }
    ∷ []

abbrev events_columns : List Column
events_columns =
    record { name = "id"; decl = "INTEGER PRIMARY KEY AUTOINCREMENT" }
    ∷ record { name = "request_id"; decl = "TEXT NOT NULL" }
    ∷ record { name = "seq"; decl = "INTEGER NOT NULL" }
    ∷ record { name = "ts"; decl = "INTEGER NOT NULL" }
    ∷ record { name = "type"; decl = "TEXT NOT NULL" }
    ∷ record { name = "payload"; decl = "TEXT" }
    ∷ []

abbrev plugins_columns : List Column
plugins_columns =
    record { name = "instance_id"; decl = "TEXT PRIMARY KEY" }
    ∷ record { name = "plugin"; decl = "TEXT" }
    ∷ record { name = "version"; decl = "TEXT" }
    ∷ record { name = "protocol_version"; decl = "TEXT" }
    ∷ record { name = "healthy"; decl = "INTEGER" }
    ∷ record { name = "last_seen"; decl = "INTEGER" }
    ∷ record { name = "pid"; decl = "INTEGER" }
    ∷ []

-- CREATE TABLE IF NOT EXISTS
unfoldable create_table : String → List Column → Schema → Schema
create_table table columns s = if has table s then s else put table columns s

unfoldable create_tables : Schema → Schema
create_tables s =
    create_table "plugins" plugins_columns
      (create_table "request_events" events_columns (create_table "requests" requests_columns s))

abbrev has_column : String → List Column → Bool
has_column column columns = any (λ c. c.name == column) columns

-- The scan of table_info, and ALTER TABLE, which fails where there is no table
abbrev alter_table : String → String → String → Schema → Option (List Column) → Option Schema
alter_table table column decl s none = none
alter_table table column decl s (some columns) =
    if has_column column columns
    then some s
    else some (put table (columns ++ record { name = column; decl = decl } ∷ []) s)

unfoldable ensure_column : String → String → String → Schema → Option Schema
ensure_column table column decl s = alter_table table column decl s (get table s)

unfoldable migrate : Schema → Option Schema
migrate s = ensure_column "requests" "error_code" "TEXT" (create_tables s)

has-create_table :
    (k table : String) (columns : List Column) (s : Schema)
    → has k (create_table table columns s) ≡ (if table == k then true else has k s)
unfolding create_table
has-create_table k table columns s =
    ground (arith, Bool-cases (has table s), eq_iff table k, get-put table k columns s)

create_table-there :
    (table : String) (columns : List Column) (s : Schema)
    → has table s ≡ true
    → create_table table columns s ≡ s
unfolding create_table
create_table-there table columns s h = rw h refl

abbrev HasTables : Schema → Type 0
HasTables s = (has "requests" s ≡ true) × (has "request_events" s ≡ true) × (has "plugins" s ≡ true)

create_tables-HasTables : (s : Schema) → HasTables (create_tables s)
unfolding create_tables
create_tables-HasTables s = (simp has-create_table, simp has-create_table, simp has-create_table)

create_tables-there : (s : Schema) → HasTables s → create_tables s ≡ s
unfolding create_tables
create_tables-there s (r, e, p) =
    rw
      (
        create_table-there "requests" requests_columns s r,
        create_table-there "request_events" events_columns s e,
      )
      (create_table-there "plugins" plugins_columns s p)

has_column-added :
    (column decl : String) (columns : List Column)
    → has_column column (columns ++ record { name = column; decl = decl } ∷ []) ≡ true
has_column-added column decl [] = simp eq_refl
has_column-added column decl (c ∷ columns) = ground (arith, has_column-added column decl columns)

has-put :
    (k table : String) (columns : List Column) (s : Schema)
    → has k (put table columns s) ≡ (if table == k then true else has k s)
has-put k table columns s = ground (arith, get-put table k columns s)

has-cases :
    (k : String) (s : Schema) → has k s ≡ true → (columns : List Column) × (get k s ≡ some columns)
has-cases k s h = elim (Option-cases (get k s)) [ inl e ↦ ground (arith, h, e) | inr found ↦ found ]

put-HasTables :
    (table : String) (columns : List Column) (s : Schema)
    → HasTables s
    → HasTables (put table columns s)
put-HasTables table columns s (r, e, p) = (
  ground (arith, r, has-put "requests" table columns s),
  ground (arith, e, has-put "request_events" table columns s),
  ground (arith, p, has-put "plugins" table columns s),
)

-- Where the table is there, altering it gives a schema that it leaves alone.
ensure_column-Stable :
    (column decl : String) (s : Schema)
    → HasTables s
    → (t : Schema) × (ensure_column "requests" column decl s ≡ some t)
      × (ensure_column "requests" column decl t ≡ some t)
      × HasTables t
unfolding ensure_column
ensure_column-Stable column decl s h =
    let (columns, found) = has-cases "requests" s h.0 in
    elim (Bool-cases (has_column column columns)) [
      | inl e ↦ (s, rw (found, e) refl, rw (found, e) refl, h)
      | inr e ↦
          let more = columns ++ record { name = column; decl = decl } ∷ [] in
          (
            put "requests" more s,
            rw (found, e) refl,
            rw (get-put_self "requests" more s, has_column-added column decl columns) refl,
            put-HasTables "requests" more s h,
          )
    ]

-- Every schema can be migrated, and a migrated one is left as it is.
migrate-fixed : (s : Schema) → (t : Schema) × (migrate s ≡ some t) × (migrate t ≡ some t)
unfolding migrate
migrate-fixed s =
    let (t, done, again, h) =
      ensure_column-Stable "error_code" "TEXT" (create_tables s) (create_tables-HasTables s) in
    (t, done, rw (create_tables-there t h) again)

-- Open, with the errors of the directory, of the file and of a statement: the schema of the database that is
-- open, or the error
unfoldable open_store : Option String → Option String → String → Schema → Schema ⊎ String
unfolding migrate
open_store (some e) file_error sql_error s = inr e
open_store none (some e) sql_error s = inr e
open_store none none sql_error s = elim (migrate s) [ none ↦ inr sql_error | some t ↦ inl t ]

-- A database whose directory and file can be opened is opened whatever tables it has, and is opened again with the
-- schema that the first time left.
open_store-again :
    (sql_error : String) (s : Schema)
    → (t : Schema) × (open_store none none sql_error s ≡ inl t)
      × (open_store none none sql_error t ≡ inl t)
unfolding open_store
open_store-again sql_error s =
    let (t, done, again) = migrate-fixed s in
    (
      t,
      ap (λ m. elim m [ none ↦ inr sql_error | some t ↦ inl t ]) done,
      ap (λ m. elim m [ none ↦ inr sql_error | some t ↦ inl t ]) again,
    )
