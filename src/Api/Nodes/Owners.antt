-- ===== src/Api/Nodes/Owners.antt =====
-- Who may list and retire a node.
use nodeva.Prelude.{
  ℕ, ◌≡◌, ◌⊎◌, inl, inr, refl, arith, true, false, ◌==◌, Option, none, some, Option-cases,
  Bool-cases,
}
use nodeva.Store.{Store, Node, Provider, find_node}
use nodeva.Api.Nodes.{
  Listing, EnrollReply, enrolled, reactivated, provider_of, holder_of, is_draining, has_zero,
  relist, add_node, enroll_key, enroll, retired, is_own_node, is_booked, set_draining, retire,
}

-- The two ways to come to be listed.
abbrev pub Listed : ℕ → Provider → Listing → Store → EnrollReply × Store → Type 0
Listed id p l db out =
    ((holder_of l.public_key db ≡ none) × (out ≡ (enrolled id, add_node id p.provider_id l db)))
    ⊎ ((n : Node) × (holder_of l.public_key db ≡ some n)
        × (n.provider_id ≡ p.provider_id)
        × (is_draining n.status ≡ true)
        × (out ≡ (reactivated n.node_id, relist n.node_id l db)))

enroll_key_cases :
    (id : ℕ) (p : Provider) (l : Listing) (db : Store) (held : Option Node)
    → holder_of l.public_key db ≡ held
    → ((enroll_key id p l db held).1 ≡ db) ⊎ Listed id p l db (enroll_key id p l db held)
unfolding enroll_key
enroll_key_cases id p l db none e = inr (inl (e, refl))
enroll_key_cases id p l db (some n) e = elim (Bool-cases (n.provider_id == p.provider_id)) [
  | inr other ↦ rw other (inl refl)
  | inl own ↦ elim (Bool-cases (is_draining n.status)) [
    | inr active ↦ rw (own, active) (inl refl)
    | inl idle ↦ rw (own, idle) (inr (inr (n, e, ground arith, idle, refl)))
  ]
]

enroll-key :
    (id user : ℕ) (l : Listing) (db : Store) {p : Provider}
    → provider_of user db ≡ some p
    → (l.key_length == 32) ≡ true
    → has_zero l ≡ false
    → enroll id user l db ≡ enroll_key id p l db (holder_of l.public_key db)
unfolding enroll
enroll-key id user l db {p} o k z = rw (o, enroll) (rw (k, z))

-- Enrollment changes nothing unless the user has a provider account and the key has 32 bytes; then a
-- node is added under a key that no node holds, or the provider's own retired node is listed again.
pub enroll_lem :
    (id user : ℕ) (l : Listing) (db : Store)
    → ((enroll id user l db).1 ≡ db)
      ⊎ ((p : Provider) × (provider_of user db ≡ some p)
          × (l.key_length ≡ 32)
          × (has_zero l ≡ false)
          × Listed id p l db (enroll id user l db))
unfolding enroll
enroll_lem id user l db = elim (Option-cases (provider_of user db)) [
  | inl o ↦ rw (o, enroll) (inl refl)
  | inr (p, o) ↦ elim (Bool-cases (l.key_length == 32)) [
    | inr k ↦ rw (o, enroll) (rw k (inl refl))
    | inl k ↦ elim (Bool-cases (has_zero l)) [
      | inl z ↦ rw (o, enroll) (rw (k, z) (inl refl))
      | inr z ↦
          rw (enroll-key id user l db o k z)
            (elim (enroll_key_cases id p l db (holder_of l.public_key db) refl) [
              | inl same ↦ inl same
              | inr listed ↦ inr (p, o, ground arith, z, listed)
            ])
    ]
  ]
]

-- Retiring changes nothing unless the node is the user's own and no pending, held, confirmed or running
-- reservation is on it; then it is drained.
pub retire_lem :
    (id user : ℕ) (db : Store)
    → ((retire id user db).1 ≡ db)
      ⊎ ((n : Node) × (find_node id db ≡ some n)
          × (is_own_node user db n ≡ true)
          × (is_booked id db.reservations ≡ false)
          × (retire id user db ≡ (retired, set_draining id db)))
unfolding retire
retire_lem id user db = elim (Option-cases (find_node id db)) [
  | inl o ↦ rw (o, retire) (inl refl)
  | inr (n, o) ↦ elim (Bool-cases (is_own_node user db n)) [
    | inr other ↦ rw (o, retire) (rw other (inl refl))
    | inl own ↦ elim (Bool-cases (is_booked id db.reservations)) [
      | inl booked ↦ rw (o, retire) (rw (own, booked) (inl refl))
      | inr free ↦ inr (n, o, own, free, rw (o, retire) (rw (own, free)))
    ]
  ]
]
