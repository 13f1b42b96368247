-- ===== src/Canonical/Kept.antt =====
-- The encoding keeps what it encodes: the sorted body is the body, in another order of its keys.
use nodeva.Prelude.{ℕ, ◌≡◌, ◌≢◌, inl, inr, sym, leb, Bool-cases}
use nodeva.Canonical.{
  Value, array, object, Items, nil, cons, Fields, end, field, insert_field, sorted, sorted_items,
  sorted_fields,
}
use nodeva.Canonical.Order.{
  Same, same, arrays, objects, SameItems, nils, conses, SameFields, ends, fields, swap, trans,
  sorted-Same,
}

-- No field has the key.
abbrev NotIn : ℕ → Fields → Type 0
NotIn k end = Unit
NotIn k (field j v fs) = (k ≢ j) × NotIn k fs

-- What JavaScript's objects are: the keys of each object are distinct.
abbrev mutual
  pub Distinct : Value → Type 0
  Distinct (array xs) = DistinctItems xs
  Distinct (object fs) = DistinctFields fs
  Distinct v = Unit

  pub DistinctItems : Items → Type 0
  DistinctItems nil = Unit
  DistinctItems (cons v xs) = Distinct v × DistinctItems xs

  pub DistinctFields : Fields → Type 0
  DistinctFields end = Unit
  DistinctFields (field k v fs) = NotIn k fs × Distinct v × DistinctFields fs

SameFields-refl : (fs : Fields) → SameFields fs fs
SameFields-refl end = ends
SameFields-refl (field k v fs) = fields k (same v) (SameFields-refl fs)

insert_field-Same :
    (k : ℕ) (v : Value) (fs : Fields) → NotIn k fs → SameFields (field k v fs) (insert_field k v fs)
unfolding insert_field
insert_field-Same k v end h = SameFields-refl (field k v end)
insert_field-Same k v (field j w fs) h = elim (Bool-cases (leb k j)) [
  | inl t ↦ rw (insert_field, t) (SameFields-refl (field k v (field j w fs)))
  | inr t ↦
      rw (insert_field, t)
        (trans (swap k j v w fs h.0) (fields j (same w) (insert_field-Same k v fs h.1)))
]

NotIn-insert_field :
    (k j : ℕ) (v : Value) (fs : Fields) → k ≢ j → NotIn k fs → NotIn k (insert_field j v fs)
unfolding insert_field
NotIn-insert_field k j v end ne h = (ne, tt)
NotIn-insert_field k j v (field i w fs) ne h = elim (Bool-cases (leb j i)) [
  | inl t ↦ rw (insert_field, t) (ne, h)
  | inr t ↦ rw (insert_field, t) (h.0, NotIn-insert_field k j v fs ne h.1)
]

NotIn-sorted_fields : (k : ℕ) (fs : Fields) → NotIn k fs → NotIn k (sorted_fields fs)
unfolding sorted
NotIn-sorted_fields k end h = tt
NotIn-sorted_fields k (field j v fs) h =
    NotIn-insert_field k j (sorted v) (sorted_fields fs) h.0 (NotIn-sorted_fields k fs h.1)

mutual
  unfolding sorted

  kept : (v : Value) → Distinct v → Same v (sorted v)
  kept (array xs) d = arrays (kept_items xs d)
  kept (object fs) d = objects (kept_fields fs d)
  kept v d = same v

  kept_items : (xs : Items) → DistinctItems xs → SameItems xs (sorted_items xs)
  kept_items nil d = nils
  kept_items (cons v xs) d = conses (kept v d.0) (kept_items xs d.1)

  kept_fields : (fs : Fields) → DistinctFields fs → SameFields fs (sorted_fields fs)
  kept_fields end d = ends
  kept_fields (field k v fs) d =
      trans (fields k (kept v d.1) (kept_fields fs d.2))
        (insert_field-Same k (sorted v) (sorted_fields fs) (NotIn-sorted_fields k fs d.0))

-- The sorted form of a body with distinct keys is the same body up to the order of its keys, and it is
-- its own sorted form.
pub sorted-kept : (v : Value) → Distinct v → Same v (sorted v) × (sorted (sorted v) ≡ sorted v)
sorted-kept v d = let k = kept v d in (k, sym (sorted-Same k))
