-- ===== src/Acl/Proto.antt =====
-- lib/acl/geodata.go: protoFields, which takes a protobuf message apart, and Uvarint of
-- encoding/binary. A byte is a number below 256.
pub mod Shrinks
pub mod Encoded
use nps.Prelude.{
  ℕ, zero, suc, ◌+◌, ◌*◌, ◌/◌, ◌%◌, Option, none, some, List, [], ◌∷◌, ◌++◌, Bool, ◌&&◌, ltb, ◌==◌,
  length, take, drop, if◌then◌else◌,
}

abbrev pub Bytes : Type 0
Bytes = List ℕ

abbrev pub scaled : ℕ → Option (ℕ × Bytes) → Option (ℕ × Bytes)
scaled b none = none
scaled b (some (v, rest)) = some (b % 128 + 128 * v, rest)

-- Uvarint: the number and the bytes behind it, where at most that many bytes may be read, the last
-- one at most 1; none for too few bytes and for an overflow
unfoldable pub uvarint : ℕ → Bytes → Option (ℕ × Bytes)
uvarint left [] = none
uvarint zero (b ∷ bs) = none
uvarint (suc left) (b ∷ bs) =
    let more = scaled b (uvarint left bs) in
    if ltb b 128 then (if left == 0 && ltb 1 b then none else some (b, bs)) else more

-- MaxVarintLen64
abbrev pub max_bytes : ℕ
max_bytes = 10

-- protoField
pub record Field : Type 0 where
  pub number : ℕ
  pub wire : ℕ
  pub value : ℕ
  pub bytes : Bytes

abbrev pub fixed : ℕ → ℕ → ℕ → Bytes → Option (Field × Bytes)
fixed size number wire rest =
    if ltb (length rest) size
    then none
    else some (record { number = number; wire = wire; value = 0; bytes = [] }, drop size rest)

abbrev pub varint : ℕ → Option (ℕ × Bytes) → Option (Field × Bytes)
varint number none = none
varint number (some (v, rest)) =
    some (record { number = number; wire = 0; value = v; bytes = [] }, rest)

abbrev pub counted : ℕ → Option (ℕ × Bytes) → Option (Field × Bytes)
counted number none = none
counted number (some (size, rest)) =
    if ltb (length rest) size
    then none
    else some
        (record { number = number; wire = 2; value = 0; bytes = take size rest }, drop size rest)

-- The field of a tag, and what stands behind it
unfoldable pub body : ℕ → ℕ → Bytes → Option (Field × Bytes)
body number wire rest =
    if wire == 0
    then varint number (uvarint max_bytes rest)
    else if wire == 1
    then fixed 8 number wire rest
    else if wire == 2
    then counted number (uvarint max_bytes rest)
    else if wire == 5
    then fixed 4 number wire rest
    else none

pub tagged : Option (ℕ × Bytes) → Option (Field × Bytes)
tagged none = none
tagged (some (tag, rest)) = if tag / 8 == 0 then none else body (tag / 8) (tag % 8) rest

unfoldable pub read_field : Bytes → Option (Field × Bytes)
unfolding tagged
read_field message = tagged (uvarint max_bytes message)

-- The fields, an error, or too little fuel
pub data Fields : Type 0 where
  out_of_fuel malformed : Fields
  done : List Field → Fields

abbrev pub before : Field → Fields → Fields
before f out_of_fuel = out_of_fuel
before f malformed = malformed
before f (done fs) = done (f ∷ fs)

-- protoFields, in at most that many rounds
unfoldable pub fields_in : ℕ → Bytes → Fields
fields_in fuel [] = done []
fields_in zero (b ∷ bs) = out_of_fuel
fields_in (suc fuel) (b ∷ bs) = elim (read_field (b ∷ bs)) [
  | none ↦ malformed
  | some (f, rest) ↦ before f (fields_in fuel rest)
]

unfoldable pub proto_fields : Bytes → Fields
proto_fields message = fields_in (length message) message
