-- ===== src/Payments/Razorpay.antt =====
-- The signature checks of backend/src/payments/razorpay.js. HMAC-SHA256 is a parameter that answers
-- with bytes; texts are lists of code points. The calls of the live gateway stand in `Store.Env`.
pub mod Signatures
use nodeva.Prelude.{
  ℕ, ◌+◌, ◌-◌, ◌*◌, ◌/◌, ◌%◌, Bool, true, false, not, ◌==◌, ◌&&◌, ltb, leb, Option, none, some,
  List, [], ◌∷◌, ◌++◌, length, if◌then◌else◌,
}

abbrev between : ℕ → ℕ → ℕ → Bool
between lo hi c = leb lo c && leb c hi

-- The value of a hexadecimal digit, in either case.
unfoldable pub hex_value : ℕ → Option ℕ
hex_value c =
    if between b'0' b'9' c
    then some (c - b'0')
    else if between b'a' b'f' c
    then some (c - b'a' + 10)
    else if between b'A' b'F' c
    then some (c - b'A' + 10)
    else none

abbrev join : Option ℕ → Option ℕ → Option ℕ
join none _ = none
join (some a) none = none
join (some a) (some b) = some (a * 16 + b)

abbrev consed : Option ℕ → List ℕ → List ℕ
consed none rest = []
consed (some v) rest = v ∷ rest

-- `Buffer.from(s, 'hex')`: pairs of digits, up to the first pair that is none.
unfoldable pub from_hex : List ℕ → List ℕ
unfolding hex_value
from_hex [] = []
from_hex (a ∷ []) = []
from_hex (a ∷ (b ∷ rest)) = consed (join (hex_value a) (hex_value b)) (from_hex rest)

unfoldable pub hex_digit : ℕ → ℕ
hex_digit v = if ltb v 10 then v + b'0' else v - 10 + b'a'

-- `.digest('hex')`
unfoldable pub to_hex : List ℕ → List ℕ
unfolding hex_digit
to_hex [] = []
to_hex (b ∷ bs) = hex_digit (b / 16) ∷ hex_digit (b % 16) ∷ to_hex bs

-- `crypto.timingSafeEqual` on buffers of one length.
unfoldable pub bytes_equal : List ℕ → List ℕ → Bool
bytes_equal [] [] = true
bytes_equal [] (_ ∷ _) = false
bytes_equal (_ ∷ _) [] = false
bytes_equal (a ∷ xs) (b ∷ bs) = (a == b) && bytes_equal xs bs

-- `timingSafeEqualHex`; a signature that is no text is `none`.
unfoldable pub timing_safe_equal_hex : List ℕ → Option (List ℕ) → Bool
unfolding from_hex bytes_equal
timing_safe_equal_hex a none = false
timing_safe_equal_hex a (some b) =
    if not (length (from_hex a) == length (from_hex b))
    then false
    else bytes_equal (from_hex a) (from_hex b)

module _ (hmac : List ℕ → List ℕ → List ℕ) where
  -- `verifyPaymentSignature`
  unfoldable pub verify_payment_signature : List ℕ → List ℕ → List ℕ → Option (List ℕ) → Bool
  unfolding to_hex timing_safe_equal_hex
  verify_payment_signature key_secret order_id payment_id signature =
      timing_safe_equal_hex (to_hex (hmac key_secret (order_id ++ b'|' ∷ payment_id))) signature

  -- `verifyWebhookSignature`
  unfoldable pub verify_webhook_signature : List ℕ → List ℕ → Option (List ℕ) → Bool
  unfolding to_hex timing_safe_equal_hex
  verify_webhook_signature webhook_secret raw_body signature =
      timing_safe_equal_hex (to_hex (hmac webhook_secret raw_body)) signature
