-- ===== src/Canonical/Order.antt =====
-- The order of the keys does not matter to the encoding.
use nodeva.Prelude.{ℕ, ◌≡◌, ◌≢◌, refl, arith, ap, ◌∙◌, Bool, true, false, ◌&&◌}
use nodeva.Canonical.{
  Value, array, object, Items, nil, cons, Fields, end, field, check, check_items, check_fields,
  insert_field, sorted, sorted_items, sorted_fields, encode,
}

-- Two values that differ in the order of the fields of some objects only, at any depth.
mutual
  pub data Same : Value → Value → Type 0 where
    same : (v : Value) → Same v v
    arrays : {xs ys : Items} → SameItems xs ys → Same (array xs) (array ys)
    objects : {fs gs : Fields} → SameFields fs gs → Same (object fs) (object gs)

  pub data SameItems : Items → Items → Type 0 where
    nils : SameItems nil nil
    conses :
        {v w : Value} {xs ys : Items}
        → Same v w
        → SameItems xs ys
        → SameItems (cons v xs) (cons w ys)

  pub data SameFields : Fields → Fields → Type 0 where
    ends : SameFields end end
    fields :
        (k : ℕ) {v w : Value} {fs gs : Fields}
        → Same v w
        → SameFields fs gs
        → SameFields (field k v fs) (field k w gs)
    swap :
        (k j : ℕ) (v w : Value) (fs : Fields)
        → k ≢ j
        → SameFields (field k v (field j w fs)) (field j w (field k v fs))
    trans : {fs gs hs : Fields} → SameFields fs gs → SameFields gs hs → SameFields fs hs

insert_field_comm :
    (k j : ℕ) (v w : Value) (fs : Fields)
    → k ≢ j
    → insert_field k v (insert_field j w fs) ≡ insert_field j w (insert_field k v fs)
unfolding insert_field
insert_field_comm k j v w end ne = ground arith
insert_field_comm k j v w (field i x fs) ne = ground (arith, insert_field_comm k j v w fs ne)

mutual
  unfolding sorted

  pub sorted-Same : {v w : Value} → Same v w → sorted v ≡ sorted w
  sorted-Same (same v) = refl
  sorted-Same (arrays s) = ap array (sorted-SameItems s)
  sorted-Same (objects s) = ap object (sorted-SameFields s)

  sorted-SameItems : {xs ys : Items} → SameItems xs ys → sorted_items xs ≡ sorted_items ys
  sorted-SameItems nils = refl
  sorted-SameItems (conses s r) = rw (sorted-Same s, sorted-SameItems r) refl

  sorted-SameFields : {fs gs : Fields} → SameFields fs gs → sorted_fields fs ≡ sorted_fields gs
  sorted-SameFields ends = refl
  sorted-SameFields (fields k s r) = rw (sorted-Same s, sorted-SameFields r) refl
  sorted-SameFields (swap k j v w fs ne) =
      insert_field_comm k j (sorted v) (sorted w) (sorted_fields fs) ne
  sorted-SameFields (trans s r) = sorted-SameFields s ∙ sorted-SameFields r

and_swap : (a b c : Bool) → a && (b && c) ≡ b && (a && c)
and_swap true b c = refl
and_swap false true c = refl
and_swap false false c = refl

mutual
  unfolding check

  check-Same : {v w : Value} → Same v w → check v ≡ check w
  check-Same (same v) = refl
  check-Same (arrays s) = check-SameItems s
  check-Same (objects s) = check-SameFields s

  check-SameItems : {xs ys : Items} → SameItems xs ys → check_items xs ≡ check_items ys
  check-SameItems nils = refl
  check-SameItems (conses s r) = rw (check-Same s, check-SameItems r) refl

  check-SameFields : {fs gs : Fields} → SameFields fs gs → check_fields fs ≡ check_fields gs
  check-SameFields ends = refl
  check-SameFields (fields k s r) = rw (check-Same s, check-SameFields r) refl
  check-SameFields (swap k j v w fs ne) = and_swap (check v) (check w) (check_fields fs)
  check-SameFields (trans s r) = check-SameFields s ∙ check-SameFields r

-- Two bodies that differ in the order of their keys only, at any depth, have one encoding, or neither has
-- any.
pub encode-Same :
    (stringify : Value → ℕ) {v w : Value} → Same v w → encode stringify v ≡ encode stringify w
unfolding encode
encode-Same stringify s = rw (encode, check-Same s, sorted-Same s) refl
