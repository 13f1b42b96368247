-- ===== src/Api/Providers/Honest.antt =====
-- What becoming a provider and the check of the hardware promise.
use nodeva.Prelude.{
  sym, eqb→eq, eqb_refl, ℕ, ◌*◌, ◌≤◌, ◌≡◌, ◌↔◌, refl, inl, inr, arith, Bool, true, false, not, ◌==◌,
  Option, none, some, List, [], ◌∷◌, ◌++◌, Option-cases,
}
use mathlib.Core.Path.{subst}
use nodeva.Store.{Store, Provider}
use nodeva.Api.Nodes.{provider_of}
use nodeva.Api.Providers.{
  new_provider, add_provider, mismatch_if, cpu_mismatch, ram_mismatch, vram_mismatch,
  become_provider, already_provider, Declared, Reported, Mismatch, check_hardware_mismatch,
  cpu_part, ram_part, vram_part, non_empty, within_tolerance,
}

already_there :
    (id user : ℕ) (db : Store) {p : Provider}
    → provider_of user db ≡ some p
    → become_provider id user db ≡ (already_provider p.provider_id, db)
unfolding become_provider
already_there id user db e = rw (become_provider, e) refl

-- Becoming a provider again answers with the same account and changes nothing.
pub become_provider_again :
    (id id' user : ℕ) (db : Store)
    → let first' = (become_provider id user db).1 in
      (p : Provider) × (provider_of user first' ≡ some p)
      × (become_provider id' user first' ≡ (already_provider p.provider_id, first'))
unfolding become_provider
become_provider_again id id' user db =
    let Again : Store → Type 0 = λ d.
      (p : Provider) × (provider_of user d ≡ some p)
      × (become_provider id' user d ≡ (already_provider p.provider_id, d)) in
    elim (Option-cases (provider_of user db)) [
      | inl e ↦
          let made : (become_provider id user db).1 ≡ add_provider id user db =
            rw (become_provider, e) refl in
          let there : provider_of user (add_provider id user db) ≡ some (new_provider id user) =
            rw (eqb_refl user) refl in
          let again = already_there id' user (add_provider id user db) there in
          subst Again (sym made) (new_provider id user, there, again)
      | inr (p, e) ↦
          let made : (become_provider id user db).1 ≡ db = rw (become_provider, e) refl in
          subst Again (sym made) (p, e, already_there id' user db e)
    ]

-- A reported size that is close enough.
abbrev pub Near : ℕ → Option ℕ → Type 0
Near d none = Unit
Near d (some r) = (9 * d ≤ 10 * r) × (10 * r ≤ 11 * d)

abbrev pub Exactly : ℕ → Option ℕ → Type 0
Exactly d none = Unit
Exactly d (some r) = r ≡ d

flag_iff : (b : Bool) (m : Mismatch) → (mismatch_if (not b) m ≡ []) ↔ (b ≡ true)
flag_iff true m = (λ e. refl, λ e. refl)
flag_iff false m = (λ e. cc, λ e. cc)

append_nil_iff : (xs ys : List Mismatch) → (xs ++ ys ≡ []) ↔ ((xs ≡ []) × (ys ≡ []))
append_nil_iff [] ys = (λ e. (refl, e), λ e. e.1)
append_nil_iff (x ∷ xs) ys = (λ e. cc, λ e. let bad : x ∷ xs ≡ [] = e.0 in cc)

non_empty_iff : (xs : List Mismatch) → (non_empty xs ≡ none) ↔ (xs ≡ [])
non_empty_iff [] = (λ e. refl, λ e. refl)
non_empty_iff (x ∷ xs) = (λ e. cc, λ e. cc)

within_tenth : (d r : ℕ) → (within_tolerance d r ≡ true) ↔ Near d (some r)
within_tenth d r = (λ e. ground arith, λ e. ground arith)

cpu_part_iff : (d : ℕ) (o : Option ℕ) → (cpu_part d o ≡ []) ↔ Exactly d o
cpu_part_iff d none = (λ e. tt, λ e. refl)
cpu_part_iff d (some r) =
    let flag = flag_iff (r == d) (cpu_mismatch d r) in
    (λ e. eqb→eq r d (flag.0 e), λ e. flag.1 (rw e (eqb_refl d)))

ram_part_iff : (d : ℕ) (o : Option ℕ) → (ram_part d o ≡ []) ↔ Near d o
ram_part_iff d none = (λ e. tt, λ e. refl)
ram_part_iff d (some r) =
    let flag = flag_iff (within_tolerance d r) (ram_mismatch d r) in
    let near = within_tenth d r in (λ e. near.0 (flag.0 e), λ e. flag.1 (near.1 e))

vram_part_iff : (d : ℕ) (o : Option ℕ) → (vram_part d o ≡ []) ↔ Near d o
vram_part_iff d none = (λ e. tt, λ e. refl)
vram_part_iff d (some r) =
    let flag = flag_iff (within_tolerance d r) (vram_mismatch d r) in
    let near = within_tenth d r in (λ e. near.0 (flag.0 e), λ e. flag.1 (near.1 e))

-- Nothing is flagged exactly when the cores that are reported are the declared ones and each reported
-- size lies within a tenth of the declared one.
pub check_hardware_mismatch_iff :
    (d : Declared) (r : Reported)
    → (check_hardware_mismatch d (some r) ≡ none) ↔ (
        Exactly d.cpu_cores r.cpu_cores
        × Near d.ram_mb r.ram_mb
        × Near d.gpu_vram_mb r.vram_total_mb)
unfolding check_hardware_mismatch
check_hardware_mismatch_iff d r =
    let cpu = cpu_part d.cpu_cores r.cpu_cores in
    let ram = ram_part d.ram_mb r.ram_mb in
    let vram = vram_part d.gpu_vram_mb r.vram_total_mb in
    let flagged = non_empty_iff (cpu ++ ram ++ vram) in
    let parts = append_nil_iff (cpu ++ ram) vram in
    let sizes = append_nil_iff cpu ram in
    let c = cpu_part_iff d.cpu_cores r.cpu_cores in
    let m = ram_part_iff d.ram_mb r.ram_mb in
    let v = vram_part_iff d.gpu_vram_mb r.vram_total_mb in
    (
      (λ e.
          let (rest, third) = parts.0 (flagged.0 e) in
          let (first', second') = sizes.0 rest in (c.0 first', m.0 second', v.0 third)),
      λ e. flagged.1 (parts.1 (sizes.1 (c.1 e.0, m.1 e.1), v.1 e.2)),
    )
