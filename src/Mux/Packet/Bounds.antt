-- ===== src/Mux/Packet/Bounds.antt =====
-- What UnPack of netpackager.go lets through.
use nps.Prelude.{
  ℕ, ◌+◌, ◌≤◌, ◌<◌, ◌≡◌, List, some, true, length, drop, arith, length-take, length-drop, drop-drop,
  Option-cases, Bool-cases, inl, inr, ◌==◌,
}
use nps.Mux.Packet.Bytes.{le_value}
use nps.Mux.Packet.{
  Packet, has_content, maximum_segment_size, read_full, decoded, unpack_body, unpack_content,
  header_packet, decode, mux_msg_send_ok,
}

-- A content frame has between one byte and a segment of content, and its size field is that length.
abbrev pub Fits : Packet → Type 0
Fits p =
    has_content p.flag ≡ true
    → (p.size ≡ length p.content)
      × (0 < length p.content)
      × (length p.content ≤ maximum_segment_size)

-- The stream `t` is what is left of `s` after `n` bytes.
abbrev pub After : ℕ → List ℕ → List ℕ → Type 0
After n s t = (t ≡ drop n s) × (n + length t ≡ length s)

After-trans : (m n : ℕ) (s t u : List ℕ) → After m s t → After n t u → After (m + n) s u
After-trans m n s t u h k = (ground (arith, drop-drop n m s), omega arith)

read_full-parts :
    (n : ℕ) (s xs rest : List ℕ)
    → read_full n s ≡ some (xs, rest)
    → (length xs ≡ n) × (rest ≡ drop n s) × (n + length rest ≡ length s)
unfolding read_full
read_full-parts n s xs rest e = ground (arith, length-take n s, length-drop n s)

read_full-After :
    (n : ℕ) (s xs rest : List ℕ)
    → read_full n s ≡ some (xs, rest)
    → After n s rest × (length xs ≡ n)
read_full-After n s xs rest e = let (a, b, c) = read_full-parts n s xs rest e in ((b, c), a)

unpack_content-After :
    (p q : Packet) (n m size : ℕ) (t rest : List ℕ)
    → unpack_content p n size t ≡ decoded q m rest
    → Fits q × (m ≡ n + (2 + size)) × After size t rest
unfolding unpack_content
unpack_content-After p q n m size t rest e = elim (Option-cases (read_full size t)) [
  | inl none_left ↦ absurd (ground arith)
  | inr (r, some_left) ↦
      let (after, len) = read_full-After size t r.0 r.1 some_left in
      (λ _. ground arith, ground arith, ground arith)
]

unpack_body-After :
    (p q : Packet) (n m : ℕ) (t rest : List ℕ)
    → unpack_body p n t ≡ decoded q m rest
    → (used : ℕ) × Fits q × (m ≡ n + used) × After used t rest
unfolding unpack_body
unpack_body-After p q n m t rest e = elim (Bool-cases (has_content p.flag)) [
  | inl c ↦ elim (Option-cases (read_full 2 t)) [
    | inl nothing_left ↦ absurd (ground arith)
    | inr (r, found) ↦
        let (after, len) = read_full-After 2 t r.0 r.1 found in
        let (fits, count, after') =
          unpack_content-After p q n m (le_value r.0) r.1 rest (ground arith) in
        (2 + le_value r.0, fits, count, After-trans 2 (le_value r.0) t r.1 rest after after')
  ]
  | inr c ↦ elim (Bool-cases (p.flag == mux_msg_send_ok)) [
    | inl w ↦ elim (Option-cases (read_full 8 t)) [
      | inl nothing_left ↦ absurd (ground arith)
      | inr (r, found) ↦
          let (after, len) = read_full-After 8 t r.0 r.1 found in
          (8, λ h. absurd (ground arith), ground arith, ground arith)
    ]
    | inr w ↦ (0, λ h. absurd (ground arith), ground arith, ground arith)
  ]
]

-- If UnPack accepts a packet, a content frame has one byte to a segment of content, as its size
-- says, and the count that UnPack returns is the number of bytes that it took off the stream.
pub decode-After :
    (s : List ℕ) (p : Packet) (n : ℕ) (rest : List ℕ)
    → decode s ≡ decoded p n rest
    → Fits p × After n s rest
unfolding decode
decode-After s p n rest e = elim (Option-cases (read_full 5 s)) [
  | inl nothing_left ↦ absurd (ground arith)
  | inr (r, found) ↦
      let (after, len) = read_full-After 5 s r.0 r.1 found in
      let (used, fits, count, after') =
        unpack_body-After (header_packet r.0) p 5 n r.1 rest (ground arith) in
      (fits, rw count (After-trans 5 used s r.1 rest after after'))
]
