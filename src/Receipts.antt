-- ===== src/Receipts.antt =====
-- `admitReceipt` of backend/src/lib/verify.js. Ed25519 over the canonical encoding (lib/canonical.js)
-- is a parameter, on the raw key, the body and the signature; so is the clock. A body is JSON that the
-- node wrote: its ids are compared with `!==` only, so that any value is an id, but any of the other
-- fields may be a number or not. `encode` lets no number through that is not an integer.
pub mod Checked
use nodeva.Prelude.{
  ℕ, ◌*◌, ◌^◌, Bool, true, false, not, ◌||◌, ◌==◌, ltb, leb, Option, none, some, if◌then◌else◌,
}
use nodeva.Prelude.Int.{ℤ, pos, negsuc}

-- A field: an integer, or any other value, a missing one among them. Of that, `as_number` is the number
-- that a comparison with an integer converts it to, rounded up, which compares alike, where none is NaN;
-- `as_date` is what `new Date` makes of it, in milliseconds since 1970, where none is an invalid date.
pub data Field : Type 0 where
  integer : ℤ → Field
  other : (as_number : Option ℤ) (as_date : Option ℕ) → Field

abbrev pub number_of : Field → Option ℤ
number_of (integer z) = some z
number_of (other as_number as_date) = as_number

-- `===` with an integer.
abbrev pub is_integer : Field → ℕ → Bool
is_integer (integer (pos m)) n = m == n
is_integer (integer (negsuc m)) n = false
is_integer (other as_number as_date) n = false

-- `>` and `<=`; both are false of NaN.
abbrev pub is_above : Option ℤ → ℕ → Bool
is_above none n = false
is_above (some (pos m)) n = ltb n m
is_above (some (negsuc m)) n = false

abbrev pub is_at_most : Option ℤ → ℕ → Bool
is_at_most none n = false
is_at_most (some (pos m)) n = leb m n
is_at_most (some (negsuc m)) n = true

-- `new Date`, which takes no more than 8.64e15 milliseconds; a date before 1970 is not told apart from
-- an invalid one.
unfoldable pub date_of : Field → Option ℕ
date_of (integer (pos m)) = if leb m (864 * 10 ^ 13) then some m else none
date_of (integer (negsuc m)) = none
date_of (other as_number as_date) = as_date

-- The fields of a receipt's body that are checked, as the node signed them.
pub record Body : Type 0 where
  pub node_id : ℕ
  pub reservation_id : ℕ
  pub starts_at : Field
  pub ends_at : Field
  pub price_paise_hr : Field
  pub hold_expires_at : Field

-- What was asked for.
pub record Expected : Type 0 where
  pub node_id : ℕ
  pub reservation_id : ℕ
  pub starts_at : ℕ
  pub ends_at : ℕ
  pub price_paise_hr : ℕ

pub data Admission : Type 0 where
  admitted bad_signature node_mismatch window_mismatch reservation_mismatch price_increased
        hold_expired :
      Admission

-- `admitReceipt`
unfoldable pub admit_receipt : (ℕ → Body → ℕ → Bool) → ℕ → ℕ → Body → ℕ → Expected → Admission
admit_receipt verify_body now public_key body signature expected =
    if not (verify_body public_key body signature)
    then bad_signature
    else if not (body.node_id == expected.node_id)
    then node_mismatch
    else if not (is_integer body.starts_at expected.starts_at)
        || not (is_integer body.ends_at expected.ends_at)
    then window_mismatch
    else if not (body.reservation_id == expected.reservation_id)
    then reservation_mismatch
    else if is_above (number_of body.price_paise_hr) expected.price_paise_hr
    then price_increased
    else if is_at_most (number_of body.hold_expires_at) now
    then hold_expired
    else admitted
