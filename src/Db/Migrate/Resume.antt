-- ===== src/Db/Migrate/Resume.antt =====
-- A run of the migrations: in order, each once, and resumed where it stopped.
use mathlib.Core.List.{append-nil, append_assoc}
use nodeva.Prelude.{
  map, ◌≢◌, ◌⊎◌, ℕ, ◌≡◌, inl, inr, refl, sym, ap, ◌∙◌, true, false, Option, none, some, List, [],
  ◌∷◌, ◌++◌, leb, where_rows, Bool-cases, Option-cases, arith,
}
use nodeva.Prelude.Sorting.{Sorted, sort_by-Sorted, includes}
use nodeva.Db.Migrate.Pending.{Distinct, pending_after}
use nodeva.Db.Migrate.{
  DirEntry, Database, Migrated, done, failed_at, migration_files, pending_files, apply_file,
  apply_all, migrate,
}

-- The schema after some files.
abbrev pub replay {ℓ} : {S : Type ℓ} → (ℕ → S → Option S) → List ℕ → S → Option S
replay sql [] s = some s
replay sql (f ∷ fs) s = elim (sql f s) [ none ↦ none | some s' ↦ replay sql fs s' ]

leb_trans : (a b c : ℕ) → leb a b ≡ true → leb b c ≡ true → leb a c ≡ true
leb_trans a b c p q = ground arith

leb_total : (a b : ℕ) → leb a b ≡ false → leb b a ≡ true
leb_total a b p = ground arith

migrated_apart : {xs : List ℕ} {f : ℕ} → done xs ≢ failed_at f
migrated_apart e = absurd cc

module _ {ℓ} {S : Type ℓ} (before after : ℕ → S → Option S)
    (kept : (f : ℕ) (s s' : S) → before f s ≡ some s' → after f s ≡ some s') where
  -- What a run of `before` comes to, and how `after` would go on.
  Ran : List ℕ → List ℕ → Database S → Migrated × Database S → Type ℓ
  Ran all todo db out =
      (p : List ℕ) × (r : List ℕ) × (todo ≡ p ++ r)
      × (out.1.applied ≡ db.applied ++ p)
      × (replay before p db.schema ≡ some out.1.schema)
      × ((all' : List ℕ) → apply_all after all' todo db ≡ apply_all after all' r out.1)
      × (((out.0 ≡ done all) × (r ≡ [])) ⊎ ((f : ℕ) × (out.0 ≡ failed_at f)))

  apply_file_cases :
      (f : ℕ) (db : Database S)
      → (apply_file before f db ≡ none)
        ⊎ ((s : S) × (before f db.schema ≡ some s)
            × (includes f db.applied ≡ false)
            × (apply_file before f db
                ≡ some (record { schema = s; applied = db.applied ++ (f ∷ []) })))
  unfolding apply_file
  apply_file_cases f db = elim (Option-cases (before f db.schema)) [
    | inl n ↦ inl (rw (n, apply_file))
    | inr (s, e) ↦ elim (Bool-cases (includes f db.applied)) [
      | inl t ↦ inl (rw (e, t, apply_file))
      | inr g ↦ inr (s, e, g, rw (e, g, apply_file))
    ]
  ]

  apply_file-after :
      (f : ℕ) (db : Database S) {s : S}
      → before f db.schema ≡ some s
      → includes f db.applied ≡ false
      → apply_file after f db ≡ some (record { schema = s; applied = db.applied ++ (f ∷ []) })
  unfolding apply_file
  apply_file-after f db {s} e g = rw (kept f db.schema s e, g, apply_file) refl

  apply_all_lem :
      (all todo : List ℕ) (db : Database S) → Ran all todo db (apply_all before all todo db)
  unfolding apply_all Ran
  apply_all_lem all [] db =
      ([], [], refl, sym (append-nil db.applied), refl, (λ all'. refl), inl (refl, refl))
  apply_all_lem all (f ∷ todo) db = elim (apply_file_cases f db) [
    | inl n ↦
        rw (n, apply_all)
          ([], f ∷ todo, refl, sym (append-nil db.applied), refl, (λ all'. refl), inr (f, refl))
    | inr (s, e, g, step) ↦
        let next : Database S = record { schema = s; applied = db.applied ++ (f ∷ []) } in
        let (p, r, parts, rows, schema, on, end) = apply_all_lem all todo next in
        rw (step, apply_all)
          (
            f ∷ p,
            r,
            ap (◌∷◌ f) parts,
            rows ∙ append_assoc db.applied (f ∷ []) p,
            rw (e, replay) schema,
            (λ all'. rw (apply_file-after f db {s = s} e g, apply_all) (on all')),
            end,
          )
  ]

  -- Only what it returns depends on the list that a run was given.
  apply_all_same :
      (all all' todo : List ℕ) (db : Database S)
      → (apply_all after all todo db).1 ≡ (apply_all after all' todo db).1
  unfolding apply_all
  apply_all_same all all' [] db = refl
  apply_all_same all all' (f ∷ todo) db = elim (Option-cases (apply_file after f db)) [
    | inl n ↦ rw (n, apply_all) refl
    | inr (next, e) ↦ rw (e, apply_all) (apply_all_same all all' todo next)
  ]

  -- A run that stopped at a failing file is resumed where it stopped: for files with distinct names,
  -- once a file's SQL does what it did or has been repaired, a second run over the same directory
  -- brings the database to where one run of the repaired files would have brought it at once.
  pub migrate_resumes :
      (dir : List DirEntry) (db : Database S)
      → Distinct (migration_files dir)
      → (migrate after dir (migrate before dir db).1).1 ≡ (migrate after dir db).1
  unfolding migrate Ran
  migrate_resumes dir db d =
      let todo = pending_files dir db.applied in
      let (p, r, parts, rows, _, on, _) = apply_all_lem todo todo db in
      let db1 = (apply_all before todo todo db).1 in
      ap (λ t. (apply_all after t t db1).1)
        (ap (pending_files dir) rows ∙ pending_after dir db.applied p r parts d)
      ∙ apply_all_same r todo r db1
      ∙ sym (ap (λ x. x.1) (on todo))

done-names : {xs ys : List ℕ} → done xs ≡ done ys → xs ≡ ys
done-names e = cc

-- A run that succeeds returns the pending files, in the order of their names: the new schema is that of
-- their SQL run in this order, each is recorded, and a further run finds nothing to do and changes
-- nothing.
pub migrate_done {ℓ} :
    {S : Type ℓ} (sql : ℕ → S → Option S) (dir : List DirEntry) (db : Database S) {names : List ℕ}
    → Distinct (migration_files dir)
    → (migrate sql dir db).0 ≡ done names
    → let db' = (migrate sql dir db).1 in
      (names ≡ pending_files dir db.applied)
      × Sorted leb (migration_files dir)
      × (replay sql names db.schema ≡ some db'.schema)
      × (db'.applied ≡ db.applied ++ names)
      × (migrate sql dir db' ≡ (done [], db'))
unfolding migrate Ran apply_all
migrate_done sql dir db {names} d ok =
    let todo = pending_files dir db.applied in
    let (p, r, parts, rows, schema, _, end) = apply_all_lem sql sql (λ f s s' e. e) todo todo db in
    elim end [
      | inr (f, failed) ↦ absurd (migrated_apart (sym ok ∙ failed))
      | inl (is_done, all_done) ↦
          let same : names ≡ todo = done-names (sym ok ∙ is_done) in
          let whole : todo ≡ p = parts ∙ ap (λ t. p ++ t) all_done ∙ append-nil p in
          let db' = (migrate sql dir db).1 in
          let nothing : pending_files dir db'.applied ≡ [] =
            ap (pending_files dir) rows ∙ pending_after dir db.applied p r parts d ∙ all_done in
          (
            same,
            sort_by-Sorted leb (map (λ f. f.filename) (where_rows (λ f. f.is_sql) dir)) leb_trans
                leb_total,
            ap (λ t. replay sql t db.schema) (same ∙ whole) ∙ schema,
            rows ∙ ap (λ t. db.applied ++ t) (sym (same ∙ whole)),
            ap (λ t. apply_all sql t t db') nothing,
          )
    ]
