-- ===== src/Acl/Proto/Shrinks.antt =====
-- protoFields of lib/acl/geodata.go: every round takes bytes, so that the loop ends.
use nps.Prelude.{
  ℕ, zero, suc, ◌/◌, ◌%◌, ◌≢◌, ◌<◌, ◌≤◌, Option, none, some, [], ◌∷◌, ◌&&◌, ltb, ◌==◌, length,
  length-drop, arith, Bool-cases, inl, inr,
}
use nps.Acl.Proto.{
  Bytes, scaled, fixed, varint, counted, uvarint, max_bytes, Field, body, tagged, read_field,
  Fields, out_of_fuel, malformed, done, before, fields_in, proto_fields,
}

-- What is left, if anything was read, is shorter than the number.
abbrev Leaves {ℓ} : {A : Type ℓ} → ℕ → Option (A × Bytes) → Type 0
Leaves n none = Unit
Leaves n (some (v, rest)) = length rest < n

scaled-Leaves : (b n : ℕ) (o : Option (ℕ × Bytes)) → Leaves n o → Leaves (suc n) (scaled b o)
scaled-Leaves b n none h = tt
scaled-Leaves b n (some (v, rest)) h = omega arith

uvarint-Leaves : (left : ℕ) (bs : Bytes) → Leaves (length bs) (uvarint left bs)
unfolding uvarint
uvarint-Leaves left [] = tt
uvarint-Leaves zero (b ∷ bs) = tt
uvarint-Leaves (suc left) (b ∷ bs) = elim (Bool-cases (ltb b 128)) [
  | inl last ↦ rw last (elim (Bool-cases (left == 0 && ltb 1 b)) [
    | inl over ↦ rw over tt
    | inr fine ↦ rw fine (omega arith)
  ])
  | inr more ↦ rw more (scaled-Leaves b (length bs) (uvarint left bs) (uvarint-Leaves left bs))
]

fixed-Leaves :
    (size number wire : ℕ) (bs : Bytes) → Leaves (suc (length bs)) (fixed size number wire bs)
fixed-Leaves size number wire bs = elim (Bool-cases (ltb (length bs) size)) [
  | inl short ↦ rw short tt
  | inr long ↦ rw long (omega (arith, length-drop size bs))
]

varint-Leaves : (number n : ℕ) (o : Option (ℕ × Bytes)) → Leaves n o → Leaves n (varint number o)
varint-Leaves number n none h = tt
varint-Leaves number n (some (v, rest)) h = h

counted-Leaves : (number n : ℕ) (o : Option (ℕ × Bytes)) → Leaves n o → Leaves n (counted number o)
counted-Leaves number n none h = tt
counted-Leaves number n (some (size, rest)) h = elim (Bool-cases (ltb (length rest) size)) [
  | inl short ↦ rw short tt
  | inr long ↦ rw long (omega (arith, length-drop size rest))
]

wider {ℓ} : {A : Type ℓ} (n : ℕ) (o : Option (A × Bytes)) → Leaves n o → Leaves (suc n) o
wider n none h = tt
wider n (some (v, rest)) h = omega arith

body-Leaves : (number wire : ℕ) (bs : Bytes) → Leaves (suc (length bs)) (body number wire bs)
unfolding body
body-Leaves number wire bs = elim (Bool-cases (wire == 0)) [
  | inl w0 ↦ rw w0 (wider _ _ (varint-Leaves number (length bs) _ (uvarint-Leaves max_bytes bs)))
  | inr n0 ↦ rw n0 (elim (Bool-cases (wire == 1)) [
    | inl w1 ↦ rw w1 (fixed-Leaves 8 number wire bs)
    | inr n1 ↦ rw n1 (elim (Bool-cases (wire == 2)) [
      | inl w2 ↦
          rw w2 (wider _ _ (counted-Leaves number (length bs) _ (uvarint-Leaves max_bytes bs)))
      | inr n2 ↦ rw n2 (elim (Bool-cases (wire == 5)) [
        | inl w5 ↦ rw w5 (fixed-Leaves 4 number wire bs)
        | inr n5 ↦ rw n5 tt
      ])
    ])
  ])
]

at_most {ℓ} : {A : Type ℓ} (m n : ℕ) (o : Option (A × Bytes)) → m ≤ n → Leaves m o → Leaves n o
at_most m n none h k = tt
at_most m n (some (v, rest)) h k = omega arith

tagged-Leaves : (n : ℕ) (o : Option (ℕ × Bytes)) → Leaves n o → Leaves n (tagged o)
unfolding tagged
tagged-Leaves n none h = tt
tagged-Leaves n (some (tag, rest)) h = elim (Bool-cases (tag / 8 == 0)) [
  | inl bad ↦ rw bad tt
  | inr good ↦ rw good (at_most (suc (length rest)) n _ h (body-Leaves (tag / 8) (tag % 8) rest))
]

-- A round takes at least a byte.
read_field-Leaves : (bs : Bytes) → Leaves (length bs) (read_field bs)
unfolding read_field
read_field-Leaves bs = tagged-Leaves (length bs) _ (uvarint-Leaves max_bytes bs)

before-ne : (f : Field) (fs : Fields) → fs ≢ out_of_fuel → before f fs ≢ out_of_fuel
before-ne f out_of_fuel h e = h e
before-ne f malformed h e = cc e
before-ne f (done fs) h e = cc e

pub fields_in-ends : (fuel : ℕ) (bs : Bytes) → length bs ≤ fuel → fields_in fuel bs ≢ out_of_fuel
unfolding fields_in
fields_in-ends fuel [] h e = cc e
fields_in-ends zero (b ∷ bs) h e = absurd (omega arith)
fields_in-ends (suc fuel) (b ∷ bs) h e =
    round (read_field (b ∷ bs)) (read_field-Leaves (b ∷ bs))
      (λ rest k. fields_in-ends fuel rest (omega arith)) e
  where
    round :
        (o : Option (Field × Bytes))
        → Leaves (length (b ∷ bs)) o
        → ((rest : Bytes) → length rest < length (b ∷ bs) → fields_in fuel rest ≢ out_of_fuel)
        → elim o [ none ↦ malformed | some (f, rest) ↦ before f (fields_in fuel rest) ]
          ≢ out_of_fuel
    round none h go e = cc e
    round (some (f, rest)) h go e = before-ne f (fields_in fuel rest) (go rest h) e

-- protoFields ends on every message with one round for each byte at most.
pub proto_fields-ends : (message : Bytes) → proto_fields message ≢ out_of_fuel
unfolding proto_fields
proto_fields-ends message = fields_in-ends (length message) message (omega arith)
