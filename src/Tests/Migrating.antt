-- ===== src/Tests/Migrating.antt =====
-- Migrations, with a directory of three files and the second one broken at first.
use nodeva.Prelude.{
  ℕ, ◌≡◌, refl, true, false, ◌==◌, Option, none, some, List, [], ◌∷◌, ◌++◌, leb, if◌then◌else◌,
  Bool-cases, inl, inr,
}
use nodeva.Prelude.Sorting.{Sorted}
use nodeva.Db.Migrate.{
  DirEntry, Database, done, failed_at, migrate, apply_all, apply_file, migration_files,
  pending_files,
}
use nodeva.Db.Migrate.Resume.{replay, migrate_done, migrate_resumes}

-- A schema is the list of its tables; each file adds one.
abbrev fixed_sql : ℕ → List ℕ → Option (List ℕ)
fixed_sql f s = some (f ∷ s)

abbrev broken_sql : ℕ → List ℕ → Option (List ℕ)
broken_sql f s = if f == 2 then none else some (f ∷ s)

abbrev directory : List DirEntry
directory =
    record { filename = 3; is_sql = true }
    ∷ record { filename = 9; is_sql = false }
    ∷ record { filename = 1; is_sql = true }
    ∷ record { filename = 2; is_sql = true }
    ∷ []

abbrev fresh : Database (List ℕ)
fresh = record { schema = []; applied = [] }

-- The broken file stops the run after the first.
stopped :
    migrate broken_sql directory fresh ≡ (failed_at 2, record { schema = 1 ∷ []; applied = 1 ∷ [] })
unfolding migrate apply_all apply_file
stopped = refl

broken_fixed : (f : ℕ) (s s' : List ℕ) → broken_sql f s ≡ some s' → fixed_sql f s ≡ some s'
broken_fixed f s s' e = elim (Bool-cases (f == 2)) [
  | inl t ↦ absurd (none_some (rw t at e))
  | inr t ↦ rw t at e
]
  where
    none_some : none ≡ some s' → ⊥
    none_some e = absurd cc

migrate_resumes_example :
    (migrate fixed_sql directory (migrate broken_sql directory fresh).1).1
    ≡ (migrate fixed_sql directory fresh).1
migrate_resumes_example =
    migrate_resumes broken_sql fixed_sql broken_fixed directory fresh (refl, (refl, (refl, tt)))

migrate_done_example :
    let db' = (migrate fixed_sql directory fresh).1 in
    (1 ∷ 2 ∷ 3 ∷ [] ≡ pending_files directory [])
    × Sorted leb (migration_files directory)
    × (replay fixed_sql (1 ∷ 2 ∷ 3 ∷ []) [] ≡ some db'.schema)
    × (db'.applied ≡ [] ++ (1 ∷ 2 ∷ 3 ∷ []))
    × (migrate fixed_sql directory db' ≡ (done [], db'))
unfolding migrate apply_all apply_file
migrate_done_example =
    migrate_done fixed_sql directory fresh {names = 1 ∷ 2 ∷ 3 ∷ []} (refl, (refl, (refl, tt))) refl
