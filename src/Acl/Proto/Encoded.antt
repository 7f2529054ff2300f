-- ===== src/Acl/Proto/Encoded.antt =====
-- protoFields of lib/acl/geodata.go against the wire format: an encoder, which is not in the
-- source, of messages of numbers and of byte strings.
use nps.Prelude.{
  ℕ, zero, suc, ◌+◌, ◌*◌, ◌/◌, ◌%◌, ◌^◌, ◌≡◌, ◌<◌, ◌≤◌, refl, ap, ◌∙◌, none, some, List, [], ◌∷◌,
  ◌++◌, false, ltb, lt→ltb, ge→ltb, ◌==◌, length, All, map, append_assoc, length-append,
  take-append, drop-append, if◌then◌else◌, arith, Bool-cases, inl, inr,
}
use nps.Acl.Proto.{
  Bytes, uvarint, max_bytes, Field, body, read_field, malformed, done, before, fields_in,
  proto_fields,
}

-- A number in groups of seven bits, the lowest first
abbrev pub put_uvarint : ℕ → ℕ → Bytes
put_uvarint zero v = []
put_uvarint (suc left) v =
    let more = (128 + v % 128) ∷ put_uvarint left (v / 128) in if ltb v 128 then v ∷ [] else more

abbrev pub room : ℕ → ℕ
room zero = 2
room (suc n) = 128 * room n

pub data Item : Type 0 where
  number : ℕ → ℕ → Item
  bytes : ℕ → Bytes → Item

abbrev pub field : Item → Field
field (number n v) = record { number = n; wire = 0; value = v; bytes = [] }
field (bytes n bs) = record { number = n; wire = 2; value = 0; bytes = bs }

abbrev pub put_item : Item → Bytes
put_item (number n v) = put_uvarint max_bytes (8 * n) ++ put_uvarint max_bytes v
put_item (bytes n bs) =
    put_uvarint max_bytes (8 * n + 2) ++ (put_uvarint max_bytes (length bs) ++ bs)

abbrev pub put_items : List Item → Bytes
put_items [] = []
put_items (i ∷ is) = put_item i ++ put_items is

-- What fits: the tag, the number and the length are 64-bit words.
abbrev pub Fits : Item → Type 0
Fits (number n v) = (0 < n) × (n < 2 ^ 61) × (v < 2 ^ 64)
Fits (bytes n bs) = (0 < n) × (n < 2 ^ 61) × (length bs < 2 ^ 64)

not_zero : (n : ℕ) → (suc n == 0) ≡ false
not_zero n = ground arith

uvarint-put :
    (left v : ℕ) (rest : Bytes)
    → v < room left
    → uvarint (suc left) (put_uvarint (suc left) v ++ rest) ≡ some (v, rest)
unfolding uvarint
uvarint-put zero v rest h =
    rw (lt→ltb v 128 (omega arith)) (rw (lt→ltb v 128 (omega arith), ge→ltb 1 v (omega arith)) refl)
uvarint-put (suc left) v rest h = elim (Bool-cases (ltb v 128)) [
  | inl last ↦ rw last (rw (last, not_zero left) refl)
  | inr more ↦ rw more (
      rw (ge→ltb (128 + v % 128) 128 (omega arith), uvarint-put left (v / 128) rest (omega arith))
        (ground arith))
]

uvarint-max :
    (v : ℕ) (rest : Bytes)
    → v < 2 ^ 64
    → uvarint max_bytes (put_uvarint max_bytes v ++ rest) ≡ some (v, rest)
uvarint-max v rest h = uvarint-put 9 v rest (omega arith)

tag-number : (n : ℕ) → (8 * n / 8 ≡ n) × (8 * n % 8 ≡ 0)
tag-number n = omega arith

tag-bytes : (n : ℕ) → ((8 * n + 2) / 8 ≡ n) × ((8 * n + 2) % 8 ≡ 2)
tag-bytes n = omega arith

positive : (n : ℕ) → 0 < n → (n == 0) ≡ false
positive n h = ground arith

read_field-put :
    (i : Item) (rest : Bytes) → Fits i → read_field (put_item i ++ rest) ≡ some (field i, rest)
unfolding read_field body
read_field-put (number n v) rest (pos, small, fits) =
    rw
      (
        append_assoc (put_uvarint max_bytes (8 * n)) (put_uvarint max_bytes v) rest,
        uvarint-max (8 * n) (put_uvarint max_bytes v ++ rest) (omega arith),
        (tag-number n).0,
        (tag-number n).1,
        positive n pos,
        uvarint-max v rest fits,
      )
      refl
read_field-put (bytes n bs) rest (pos, small, fits) =
    rw
      (
        append_assoc (put_uvarint max_bytes (8 * n + 2)) (put_uvarint max_bytes (length bs) ++ bs)
            rest,
        append_assoc (put_uvarint max_bytes (length bs)) bs rest,
        uvarint-max (8 * n + 2) (put_uvarint max_bytes (length bs) ++ (bs ++ rest)) (omega arith),
        (tag-bytes n).0,
        (tag-bytes n).1,
        positive n pos,
        uvarint-max (length bs) (bs ++ rest) fits,
        ge→ltb (length (bs ++ rest)) (length bs) (omega (arith, length-append bs rest)),
        take-append bs rest,
        drop-append bs rest,
      )
      refl

put_uvarint-some : (left v : ℕ) → 0 < length (put_uvarint (suc left) v)
put_uvarint-some left v = elim (Bool-cases (ltb v 128)) [
  | inl last ↦ rw last (omega arith)
  | inr more ↦ rw more (omega arith)
]

put_item-some : (i : Item) → 0 < length (put_item i)
put_item-some (number n v) = omega (
  arith,
  put_uvarint-some 9 (8 * n),
  length-append (put_uvarint max_bytes (8 * n)) (put_uvarint max_bytes v),
)
put_item-some (bytes n bs) = omega (
  arith,
  put_uvarint-some 9 (8 * n + 2),
  length-append (put_uvarint max_bytes (8 * n + 2)) (put_uvarint max_bytes (length bs) ++ bs),
)

round :
    (fuel : ℕ) (message : Bytes) {f : Field} {rest : Bytes}
    → read_field message ≡ some (f, rest)
    → 0 < length message
    → fields_in (suc fuel) message ≡ before f (fields_in fuel rest)
unfolding fields_in
round fuel [] e h = absurd (omega arith)
round fuel (b ∷ bs) e h =
    ap (λ o. elim o [ none ↦ malformed | some (f, rest) ↦ before f (fields_in fuel rest) ]) e

fields_in-put :
    (fuel : ℕ) (is : List Item)
    → All Fits is
    → length (put_items is) ≤ fuel
    → fields_in fuel (put_items is) ≡ done (map field is)
unfolding fields_in
fields_in-put fuel [] fits enough = refl
fields_in-put zero (i ∷ is) fits enough =
    absurd (omega (arith, put_item-some i, length-append (put_item i) (put_items is)))
fields_in-put (suc fuel) (i ∷ is) fits enough =
    round fuel (put_item i ++ put_items is) (read_field-put i (put_items is) fits.0)
      (omega (arith, put_item-some i, length-append (put_item i) (put_items is)))
    ∙ ap (before (field i)) (
        fields_in-put fuel is fits.1
          (omega (arith, put_item-some i, length-append (put_item i) (put_items is))))

-- protoFields gives back the fields that a message was written of.
pub proto_fields-put :
    (is : List Item) → All Fits is → proto_fields (put_items is) ≡ done (map field is)
unfolding proto_fields
proto_fields-put is fits = fields_in-put (length (put_items is)) is fits (omega arith)
