-- ===== src/Payments/Razorpay/Signatures.antt =====
-- The signature checks accept exactly the signatures that decode to the expected bytes.
use mathlib.Core.Option.{some-injective}
use nodeva.Prelude.{
  not, sym, ◌∙◌, ℕ, ◌/◌, ◌%◌, ◌<◌, ◌≡◌, ◌↔◌, refl, arith, true, false, ◌==◌, Option, none, some,
  List, [], ◌∷◌, ◌++◌, length, ap, All, ap, if◌then◌else◌,
}
use nodeva.Payments.Razorpay.{
  hex_value, from_hex, hex_digit, to_hex, bytes_equal, timing_safe_equal_hex,
  verify_payment_signature,
}

abbrev pub IsBytes : List ℕ → Type 0
IsBytes bs = All (λ b. b < 256) bs

hex_value-hex_digit : (v : ℕ) → v < 16 → hex_value (hex_digit v) ≡ some v
unfolding hex_value hex_digit
hex_value-hex_digit v h = ground arith

from_hex-to_hex : (bs : List ℕ) → IsBytes bs → from_hex (to_hex bs) ≡ bs
unfolding from_hex to_hex
from_hex-to_hex [] h = refl
from_hex-to_hex (b ∷ bs) h =
    rw
      (
        hex_value-hex_digit (b / 16) (omega arith),
        hex_value-hex_digit (b % 16) (omega arith),
        from_hex-to_hex bs h.1,
      )
      (ground arith)

pub bytes_equal_iff : (xs bs : List ℕ) → (bytes_equal xs bs ≡ true) ↔ (xs ≡ bs)
unfolding bytes_equal
bytes_equal_iff [] [] = ground arith
bytes_equal_iff [] (b ∷ bs) = ground arith
bytes_equal_iff (a ∷ xs) [] = ground arith
bytes_equal_iff (a ∷ xs) (b ∷ bs) = ground (arith, bytes_equal_iff xs bs)

same_bytes_iff :
    (xs bs : List ℕ)
    → ((if not (length xs == length bs) then false else bytes_equal xs bs) ≡ true) ↔ (xs ≡ bs)
same_bytes_iff xs bs = (
  λ e. ground (arith, bytes_equal_iff xs bs),
  λ e. let l = ap length e in ground (arith, (bytes_equal_iff xs bs).1 e),
)

equal_hex_iff :
    (bytes : List ℕ) (signature : Option (List ℕ))
    → IsBytes bytes
    → (timing_safe_equal_hex (to_hex bytes) signature ≡ true)
      ↔ ((s : List ℕ) × (signature ≡ some s) × (from_hex s ≡ bytes))
unfolding timing_safe_equal_hex
equal_hex_iff bytes none h = ground arith
equal_hex_iff bytes (some s) h = rw (from_hex-to_hex bytes h) (
  λ e. (s, refl, sym ((same_bytes_iff bytes (from_hex s)).0 e)),
  λ e.
      (same_bytes_iff bytes (from_hex s)).1
        (sym e.2 ∙ ap from_hex (sym (some-injective s e.0 e.1))),
)

module _ (hmac : List ℕ → List ℕ → List ℕ)
    (bytes : (key text : List ℕ) → IsBytes (hmac key text)) where
  -- With an HMAC that answers with bytes, a payment is accepted exactly when a signature is given and
  -- its hexadecimal digits decode to the HMAC of the order, a bar and the payment under the key.
  pub verify_payment_signature_iff :
      (key order payment : List ℕ) (signature : Option (List ℕ))
      → (verify_payment_signature hmac key order payment signature ≡ true)
        ↔ ((s : List ℕ) × (signature ≡ some s) × (from_hex s ≡ hmac key (order ++ b'|' ∷ payment)))
  unfolding verify_payment_signature
  verify_payment_signature_iff key order payment signature =
      equal_hex_iff (hmac key (order ++ b'|' ∷ payment)) signature (bytes key _)
