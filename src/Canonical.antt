-- ===== src/Canonical.antt =====
-- backend/src/lib/canonical.js: what a body must be to be signed, and its form with sorted keys. A text is
-- a number; the key of a field is its rank among the names in the order of `sort()`, and no key reads as
-- an integer, which JavaScript would put first. `JSON.stringify` is a parameter.
pub mod Order
pub mod Kept
use nodeva.Prelude.{
  ℕ, suc, ◌-◌, ◌^◌, Bool, true, false, ◌&&◌, leb, Option, none, some, if◌then◌else◌,
}
use nodeva.Prelude.Int.{ℤ, pos, negsuc}

-- A number that is no integer is `none`; `unsupported` is a function or undefined.
mutual
  pub data Value : Type 0 where
    null unsupported : Value
    boolean : Bool → Value
    text : ℕ → Value
    number : Option ℤ → Value
    array : Items → Value
    object : Fields → Value

  pub data Items : Type 0 where
    nil : Items
    cons : Value → Items → Items

  pub data Fields : Type 0 where
    end : Fields
    field : ℕ → Value → Fields → Fields

-- `Number.MAX_SAFE_INTEGER`
abbrev pub max_safe_integer : ℕ
max_safe_integer = 2 ^ 53 - 1

-- `Number.isSafeInteger`
abbrev pub is_safe_integer : ℤ → Bool
is_safe_integer (pos n) = leb n max_safe_integer
is_safe_integer (negsuc n) = leb (suc n) max_safe_integer

-- `check`; false where it throws.
unfoldable mutual
  pub check : Value → Bool
  check null = true
  check unsupported = false
  check (boolean b) = true
  check (text t) = true
  check (number none) = false
  check (number (some z)) = is_safe_integer z
  check (array xs) = check_items xs
  check (object fs) = check_fields fs

  pub check_items : Items → Bool
  check_items nil = true
  check_items (cons v xs) = check v && check_items xs

  pub check_fields : Fields → Bool
  check_fields end = true
  check_fields (field k v fs) = check v && check_fields fs

-- The keys of an object are distinct.
unfoldable pub insert_field : ℕ → Value → Fields → Fields
insert_field k v end = field k v end
insert_field k v (field j w fs) =
    if leb k j then field k v (field j w fs) else field j w (insert_field k v fs)

-- `sorted`
unfoldable mutual
  pub sorted : Value → Value
  sorted (array xs) = array (sorted_items xs)
  sorted (object fs) = object (sorted_fields fs)
  sorted v = v

  pub sorted_items : Items → Items
  sorted_items nil = nil
  sorted_items (cons v xs) = cons (sorted v) (sorted_items xs)

  pub sorted_fields : Fields → Fields
  sorted_fields end = end
  sorted_fields (field k v fs) = insert_field k (sorted v) (sorted_fields fs)

-- `encode`; none where it throws.
unfoldable pub encode : (Value → ℕ) → Value → Option ℕ
unfolding check sorted
encode stringify body = if check body then some (stringify (sorted body)) else none
