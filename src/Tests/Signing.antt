-- ===== src/Tests/Signing.antt =====
-- A body as two clients write it.

use nodeva.Prelude.{ℕ, ◌≡◌, arith, some}
use nodeva.Prelude.Int.{pos}
use nodeva.Canonical.{Value, number, text, array, object, nil, cons, end, field, encode}
use nodeva.Canonical.Order.{
  ends, Same, same, arrays, objects, nils, conses, fields, swap, encode-Same,
}

abbrev paise : Value
paise = number (some (pos 6000))

abbrev inner : Value
inner = object (field 8 paise (field 3 (text 70) end))

abbrev inner_turned : Value
inner_turned = object (field 3 (text 70) (field 8 paise end))

abbrev body : Value
body = object (field 5 (array (cons inner nil)) (field 2 paise end))

abbrev body_turned : Value
body_turned = object (field 5 (array (cons inner_turned nil)) (field 2 paise end))

turned : Same body body_turned
turned = objects (
    fields 5 (arrays (conses (objects (swap 8 3 paise (text 70) end (omega arith))) nils))
      (fields 2 (same paise) ends))

-- A stand-in for `JSON.stringify`.
abbrev stringify : Value → ℕ
stringify (object fs) = 1
stringify _ = 0

encode-Same_example : encode stringify body ≡ encode stringify body_turned
encode-Same_example = encode-Same stringify turned
