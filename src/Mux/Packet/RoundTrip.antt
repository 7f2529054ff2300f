-- ===== src/Mux/Packet/RoundTrip.antt =====
-- Set, Pack and UnPack of netpackager.go, one after another.
use nps.Prelude.{
  ℕ, ◌+◌, ◌≤◌, ◌<◌, ◌≡◌, refl, sym, List, [], ◌++◌, some, true, false, length, take, drop, arith,
  append_assoc, length-append, take-append, take-length, append-nil, drop-append, Bool-cases, ◌==◌,
  inl, inr,
}
use nps.Prelude.Words.{u32_mod, u64_mod}
use nps.Mux.Packet.Bytes.{le_bytes, le_value, length-le_bytes, le_value-le_bytes}
use nps.Mux.Packet.{
  Packet, Payload, nothing, bytes, window, ok, has_content, mux_msg_send_ok, maximum_segment_size,
  set_packet, encode, read_full, decoded, unpack_body, unpack_content, decode,
}

-- A payload that the code can hand over: a window is a uint64.
abbrev pub IsPayload : Payload → Type 0
IsPayload nothing = Unit
IsPayload (bytes content) = Unit
IsPayload (window w) = w < u64_mod

-- The packets of each kind of frame.
pub data IsSound (p : Packet) : Type 0 where
  message :
      has_content p.flag ≡ true
      → p.size ≡ length p.content
      → 0 < length p.content
      → length p.content ≤ maximum_segment_size
      → p.window ≡ 0
      → IsSound p
  credit :
      has_content p.flag ≡ false
      → (p.flag == mux_msg_send_ok) ≡ true
      → p.window < u64_mod
      → p.size ≡ 0
      → p.content ≡ []
      → IsSound p
  bare :
      has_content p.flag ≡ false
      → (p.flag == mux_msg_send_ok) ≡ false
      → p.window ≡ 0
      → p.size ≡ 0
      → p.content ≡ []
      → IsSound p

record IsAsSet (flag id : ℕ) (p : Packet) : Type 0 where
  flag_eq : p.flag ≡ flag
  id_eq : p.id ≡ id
  sound : IsSound p

set_packet-IsAsSet :
    (flag id : ℕ) (payload : Payload) (p : Packet)
    → IsPayload payload
    → set_packet flag id payload ≡ ok p
    → IsAsSet flag id p
unfolding set_packet
set_packet-IsAsSet flag id nothing p v e = record {
  flag_eq = ground arith;
  id_eq = ground arith;
  sound = bare (ground arith) (ground arith) (ground arith) (ground arith) (ground arith);
}
set_packet-IsAsSet flag id (bytes content) p v e = elim (Bool-cases (has_content flag)) [
  | inl c ↦ record {
    flag_eq = ground arith;
    id_eq = ground arith;
    sound = message (ground arith) (ground arith) (ground arith) (ground arith) (ground arith);
  }
  | inr c ↦ record {
    flag_eq = ground arith;
    id_eq = ground arith;
    sound = bare (ground arith) (ground arith) (ground arith) (ground arith) (ground arith);
  }
]
set_packet-IsAsSet flag id (window w) p v e = elim (Bool-cases (flag == mux_msg_send_ok)) [
  | inl c ↦ record {
    flag_eq = ground arith;
    id_eq = ground arith;
    sound = credit (ground arith) (ground arith) (ground arith) (ground arith) (ground arith);
  }
  | inr c ↦ record {
    flag_eq = ground arith;
    id_eq = ground arith;
    sound = bare (ground arith) (ground arith) (ground arith) (ground arith) (ground arith);
  }
]

pub read_full-append :
    (n : ℕ) (xs rest : List ℕ) → length xs ≡ n → read_full n (xs ++ rest) ≡ some (xs, rest)
unfolding read_full
read_full-append n xs rest e =
    rw (← e) (ground (arith, length-append xs rest, take-append xs rest, drop-append xs rest))

-- The five bytes in front of every frame.
abbrev header : Packet → List ℕ
header p = le_bytes 1 p.flag ++ le_bytes 4 p.id

-- The packet that UnPack starts from once it has the header.
abbrev opened : Packet → Packet
opened p = record { flag = p.flag; id = p.id; window = 0; size = 0; content = [] }

length-header : (p : Packet) → length (header p) ≡ 5
unfolding le_bytes
length-header p = refl

header-flag : (p : Packet) → p.flag < 256 → le_value (take 1 (header p)) ≡ p.flag
unfolding le_bytes
header-flag p h = le_value-le_bytes 1 p.flag h

header-id : (p : Packet) → p.id < u32_mod → le_value (drop 1 (header p)) ≡ p.id
unfolding le_bytes
header-id p h = le_value-le_bytes 4 p.id h

decode-header :
    (p : Packet) (rest : List ℕ)
    → p.flag < 256
    → p.id < u32_mod
    → decode (header p ++ rest) ≡ unpack_body (opened p) 5 rest
unfolding decode
decode-header p rest hf hi =
    rw (read_full-append 5 (header p) rest (length-header p), decode)
      (rw (header-flag p hf, header-id p hi, length-header p))

-- What follows the header is read back, with the count of its bytes.
Reads : Packet → List ℕ → Type 0
Reads p body =
    (encode p ≡ some (header p ++ body))
    × ((rest : List ℕ) → unpack_body (opened p) 5 (body ++ rest) ≡ decoded p (5 + length body) rest)

encode-message :
    (p : Packet)
    → has_content p.flag ≡ true
    → p.size ≡ length p.content
    → encode p ≡ some (header p ++ (le_bytes 2 p.size ++ p.content))
unfolding encode
encode-message p c size = rw (c, size) (ground (arith, take-length p.content))

unpack-message :
    (p : Packet) (rest : List ℕ)
    → has_content p.flag ≡ true
    → p.size ≡ length p.content
    → 0 < length p.content
    → length p.content ≤ maximum_segment_size
    → p.window ≡ 0
    → unpack_body (opened p) 5 ((le_bytes 2 p.size ++ p.content) ++ rest)
      ≡ decoded p (5 + length (le_bytes 2 p.size ++ p.content)) rest
unfolding unpack_body unpack_content
unpack-message p rest c size pos max w = ground (
  arith,
  append_assoc (le_bytes 2 p.size) p.content rest,
  read_full-append 2 (le_bytes 2 p.size) (p.content ++ rest) (length-le_bytes 2 p.size),
  le_value-le_bytes 2 p.size (omega arith),
  read_full-append p.size p.content rest (sym size),
  length-append (le_bytes 2 p.size) p.content,
  length-le_bytes 2 p.size,
)

unpack-credit :
    (p : Packet) (rest : List ℕ)
    → has_content p.flag ≡ false
    → (p.flag == mux_msg_send_ok) ≡ true
    → p.window < u64_mod
    → p.size ≡ 0
    → p.content ≡ []
    → unpack_body (opened p) 5 (le_bytes 8 p.window ++ rest)
      ≡ decoded p (5 + length (le_bytes 8 p.window)) rest
unfolding unpack_body
unpack-credit p rest c s w size content = ground (
  arith,
  read_full-append 8 (le_bytes 8 p.window) rest (length-le_bytes 8 p.window),
  le_value-le_bytes 8 p.window w,
)

IsSound-Reads : (p : Packet) → IsSound p → (body : List ℕ) × Reads p body
unfolding Reads encode unpack_body
IsSound-Reads p (message c size pos max w) = (
  le_bytes 2 p.size ++ p.content,
  (encode-message p c size, λ rest. unpack-message p rest c size pos max w),
)
IsSound-Reads p (credit c s w size content) =
    (le_bytes 8 p.window, (ground arith, λ rest. unpack-credit p rest c s w size content))
IsSound-Reads p (bare c s w size content) =
    ([], (ground (arith, append-nil (header p)), λ rest. ground arith))

-- For a flag of a byte, an id of 32 bits and a payload whose window has 64 bits: if Set accepts
-- them, Pack writes the packet, and UnPack reads it back from those bytes, whatever follows them,
-- with their number as its count.
pub decode-encode :
    (flag id : ℕ) (payload : Payload) (p : Packet)
    → flag < 256
    → id < u32_mod
    → IsPayload payload
    → set_packet flag id payload ≡ ok p
    → (s : List ℕ) × (encode p ≡ some s)
      × ((rest : List ℕ) → decode (s ++ rest) ≡ decoded p (length s) rest)
unfolding Reads
decode-encode flag id payload p hf hi hp e =
    let set : IsAsSet flag id p = set_packet-IsAsSet flag id payload p hp e in
    let (body, reads) = IsSound-Reads p set.sound in
    (
      header p ++ body,
      reads.0,
      λ rest. ground (
        arith,
        append_assoc (header p) body rest,
        decode-header p (body ++ rest) (rw set.flag_eq hf) (rw set.id_eq hi),
        reads.1 rest,
        length-append (header p) body,
        length-header p,
      ),
    )
