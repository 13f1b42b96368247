-- ===== src/Db/Migrate.antt =====
-- backend/src/db/migrate.js. A file's name is a number that keeps the order of the names; what the SQL
-- of a file does to a schema, or that it fails, is a parameter.
pub mod Pending
pub mod Resume
use nodeva.Prelude.{
  ℕ, Bool, not, Option, none, some, List, [], ◌∷◌, ◌++◌, leb, where_rows, map, if◌then◌else◌,
}
use nodeva.Prelude.Sorting.{sort_by, includes}

-- An entry of the directory; `is_sql` says that its name ends in '.sql'.
pub record DirEntry : Type 0 where
  pub filename : ℕ
  pub is_sql : Bool

-- The database: its schema with all data, and the rows of `schema_migrations`.
pub record Database {ℓ} (S : Type ℓ) : Type ℓ where
  pub schema : S
  pub applied : List ℕ

pub data Migrated : Type 0 where
  done : List ℕ → Migrated
  failed_at : ℕ → Migrated

-- The .sql files in the order of their names.
abbrev pub migration_files : List DirEntry → List ℕ
migration_files dir = sort_by leb (map (λ f. f.filename) (where_rows (λ f. f.is_sql) dir))

abbrev pub pending_files : List DirEntry → List ℕ → List ℕ
pending_files dir applied = where_rows (λ f. not (includes f applied)) (migration_files dir)

module _ {ℓ} {S : Type ℓ} (sql : ℕ → S → Option S) where
  -- One transaction: the file's SQL, then the row, which the primary key may refuse.
  unfoldable pub apply_file : ℕ → Database S → Option (Database S)
  apply_file f db = elim (sql f db.schema) [
    | none ↦ none
    | some s ↦
        if includes f db.applied
        then none
        else some (record { schema = s; applied = db.applied ++ (f ∷ []) })
  ]

  -- The loop. It stops at the first failure, which is rolled back; `all` is what it returns at the end.
  unfoldable pub apply_all : (all todo : List ℕ) → Database S → Migrated × Database S
  unfolding apply_file
  apply_all all [] db = (done all, db)
  apply_all all (f ∷ todo) db = elim (apply_file f db) [
    | none ↦ (failed_at f, db)
    | some db' ↦ apply_all all todo db'
  ]

  -- `migrate`
  unfoldable pub migrate : List DirEntry → Database S → Migrated × Database S
  unfolding apply_all
  migrate dir db = let todo = pending_files dir db.applied in apply_all todo todo db
