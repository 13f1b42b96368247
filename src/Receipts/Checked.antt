-- ===== src/Receipts/Checked.antt =====
-- What an admitted receipt says.
use nodeva.Prelude.{ℕ, ◌+◌, ◌≡◌, ◌↔◌, Bool, true, false, Option, none, some, arith, refl}
use nodeva.Prelude.Int.{ℤ, pos, negsuc, ◌≤ℤ◌}
use nodeva.Receipts.{
  Body, Expected, Field, integer, other, number_of, is_integer, is_above, is_at_most, admitted,
  admit_receipt,
}

-- At most `n`, if it is a number at all.
abbrev pub NotAbove : Option ℤ → ℕ → Type 0
NotAbove none n = Unit
NotAbove (some z) n = z ≤ℤ pos n

-- After `n`, if it is a number at all.
abbrev pub NotUpTo : Option ℤ → ℕ → Type 0
NotUpTo none n = Unit
NotUpTo (some z) n = pos (n + 1) ≤ℤ z

is_integer_iff : (f : Field) (n : ℕ) → (is_integer f n ≡ true) ↔ (f ≡ integer (pos n))
is_integer_iff (integer (pos m)) n = ground arith
is_integer_iff (integer (negsuc m)) n = ((λ e. cc), λ e. cc)
is_integer_iff (other v d) n = ((λ e. cc), λ e. cc)

is_above_iff : (v : Option ℤ) (n : ℕ) → (is_above v n ≡ false) ↔ NotAbove v n
is_above_iff none n = ((λ e. tt), λ e. refl)
is_above_iff (some (pos m)) n = ground arith
is_above_iff (some (negsuc m)) n = ((λ e. omega arith), λ e. refl)

is_at_most_iff : (v : Option ℤ) (n : ℕ) → (is_at_most v n ≡ false) ↔ NotUpTo v n
is_at_most_iff none n = ((λ e. tt), λ e. refl)
is_at_most_iff (some (pos m)) n = ground arith
is_at_most_iff (some (negsuc m)) n = ((λ e. cc), λ e. absurd (omega arith))

admit_tests :
    (verify_body : ℕ → Body → ℕ → Bool) (now public_key : ℕ) (body : Body) (signature : ℕ)
    (expected : Expected)
    → (admit_receipt verify_body now public_key body signature expected ≡ admitted) ↔ (
        (verify_body public_key body signature ≡ true)
        × (body.node_id ≡ expected.node_id)
        × (is_integer body.starts_at expected.starts_at ≡ true)
        × (is_integer body.ends_at expected.ends_at ≡ true)
        × (body.reservation_id ≡ expected.reservation_id)
        × (is_above (number_of body.price_paise_hr) expected.price_paise_hr ≡ false)
        × (is_at_most (number_of body.hold_expires_at) now ≡ false))
unfolding admit_receipt
admit_tests verify_body now public_key body signature expected = ground arith

-- A receipt is admitted exactly when its signature holds, it names the node, the window and the
-- reservation that were asked for, its price is at most the expected one or does not convert to a number,
-- and the end of its hold is after the present or does not convert to a number: a missing price, or an
-- expiry that is a date as text, passes.
pub admit_receipt_iff :
    (verify_body : ℕ → Body → ℕ → Bool) (now public_key : ℕ) (body : Body) (signature : ℕ)
    (expected : Expected)
    → (admit_receipt verify_body now public_key body signature expected ≡ admitted) ↔ (
        (verify_body public_key body signature ≡ true)
        × (body.node_id ≡ expected.node_id)
        × (body.starts_at ≡ integer (pos expected.starts_at))
        × (body.ends_at ≡ integer (pos expected.ends_at))
        × (body.reservation_id ≡ expected.reservation_id)
        × NotAbove (number_of body.price_paise_hr) expected.price_paise_hr
        × NotUpTo (number_of body.hold_expires_at) now)
admit_receipt_iff verify_body now public_key body signature expected =
    let tests = admit_tests verify_body now public_key body signature expected in
    let starts = is_integer_iff body.starts_at expected.starts_at in
    let ends = is_integer_iff body.ends_at expected.ends_at in
    let price = is_above_iff (number_of body.price_paise_hr) expected.price_paise_hr in
    let expiry = is_at_most_iff (number_of body.hold_expires_at) now in
    (
      (λ a.
          let (v, n, s, e, r, p, h) = tests.0 a in
          (v, n, starts.0 s, ends.0 e, r, price.0 p, expiry.0 h)),
      λ (v, n, s, e, r, p, h). tests.1 (v, n, starts.1 s, ends.1 e, r, price.1 p, expiry.1 h),
    )
