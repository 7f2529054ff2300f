-- ===== src/Framed/Boundaries.antt =====
-- Read and Write of FramedConn (lib/conn/framed.go) together: the boundaries of datagrams.
use nps.Prelude.{
  ℕ, zero, suc, ◌%◌, ◌≤◌, ◌≡◌, refl, ap, ◌∙◌, List, [], ◌∷◌, ◌++◌, some, true, length, take, drop,
  ◌==◌, arith, Bool-cases, inl, inr, ge→ltb, append_assoc,
}
use nps.Prelude.Words.{u32_mod}
use nps.Mux.Packet.{read_full}
use nps.Mux.Packet.Bytes.{le_bytes, length-le_bytes, le_value-le_bytes}
use nps.Mux.Packet.RoundTrip.{read_full-append}
use nps.Framed.{
  Framed, Got, bytes, max_size, fill, send_header, send_payload, write, take_header, fetch,
  read_payload, after_header, after_fetch, read,
}

-- The stream of some datagrams.
abbrev pub frame : List ℕ → List ℕ
frame d = le_bytes 4 (length d) ++ d

abbrev pub frames : List (List ℕ) → List ℕ
frames [] = []
frames (d ∷ ds) = frame d ++ frames ds

abbrev pub IsDatagram : List ℕ → Type 0
IsDatagram d = length d ≤ max_size

-- A Write that no Read overlaps puts the frame of its datagram on the stream.
pub write-frame :
    (d : List ℕ) (f : Framed)
    → IsDatagram d
    → write d f
      ≡ (some (length d), record f { header = le_bytes 4 (length d); out = f.out ++ frame d })
unfolding write
write-frame d f h =
    rw (ge→ltb max_size (length d) h, small, append_assoc f.out (le_bytes 4 (length d)) d) refl
  where
    small : length d % u32_mod ≡ length d
    small = omega (arith, h)

-- A connection with nothing pending and this datagram next.
abbrev pub with_next : List ℕ → List ℕ → List ℕ → List ℕ → Framed
with_next header d rest out = record {
  pending = [];
  header = header;
  stream = frame d ++ rest;
  out = out;
}

abbrev pub fetched : List ℕ → List ℕ → List ℕ → Framed
fetched d rest out = record {
  pending = [];
  header = le_bytes 4 (length d);
  stream = d ++ rest;
  out = out;
}

fetch-next :
    (header d rest out : List ℕ) → fetch (with_next header d rest out) ≡ (true, fetched d rest out)
unfolding fetch take_header
fetch-next header d rest out = ap (take_header (with_next header d rest out)) (
    ap (read_full 4) (append_assoc (le_bytes 4 (length d)) d rest)
    ∙ read_full-append 4 (le_bytes 4 (length d)) (d ++ rest) (length-le_bytes 4 (length d)))

after_header-next :
    (d rest out : List ℕ) (room : ℕ)
    → IsDatagram d
    → after_header room (fetched d rest out)
      ≡ (bytes (take room d), record (fetched d rest out) { pending = drop room d; stream = rest })
unfolding after_header read_payload
after_header-next d rest out room h =
    rw (le_value-le_bytes 4 (length d) (omega (arith, h)), ge→ltb max_size (length d) h)
      (elim (Bool-cases (length d == 0)) [
        | inl empty ↦ rw (empty, no_bytes d empty) (nothing_fits room)
        | inr some_bytes ↦ rw (some_bytes, read_full-append (length d) d rest refl) refl
      ])
  where
    no_bytes : (xs : List ℕ) → (length xs == 0) ≡ true → xs ≡ []
    no_bytes [] e = refl
    no_bytes (x ∷ xs) e = absurd (ground (arith, e))

    nothing_fits :
        (room : ℕ)
        → ◌≡◌ {A = Got × Framed}
            (bytes [], fetched [] rest out)
            (bytes (take room []), record (fetched [] rest out) { pending = drop room [] })
    nothing_fits zero = refl
    nothing_fits (suc room) = refl

-- A read of the next datagram gives what fits, and keeps the rest for later.
pub read-next :
    (header d rest out : List ℕ) (room : ℕ)
    → IsDatagram d
    → read room (with_next header d rest out)
      ≡ (bytes (take room d), record (fetched d rest out) { pending = drop room d; stream = rest })
unfolding read after_fetch
read-next header d rest out room h =
    ap (after_fetch room) (fetch-next header d rest out) ∙ after_header-next d rest out room h

take-all : (room : ℕ) (xs : List ℕ) → length xs ≤ room → take room xs ≡ xs
take-all zero [] h = refl
take-all zero (x ∷ xs) h = absurd (omega arith)
take-all (suc room) [] h = refl
take-all (suc room) (x ∷ xs) h = ap (◌∷◌ x) (take-all room xs (omega (arith, h)))

-- A header that a Write has filled is decoded to the length of its datagram.
after_header-filled :
    (p : List ℕ) (f : Framed) (room : ℕ)
    → IsDatagram p
    → let filled = record f { header = le_bytes 4 (length p) } in
      after_header room filled ≡ read_payload (length p) room filled
unfolding after_header
after_header-filled p f room h =
    ap (λ n. read_payload n room (record f { header = le_bytes 4 (length p) }))
      (le_value-le_bytes 4 (length p) (omega (arith, h)))

-- For two datagrams within the limit, of which one comes in and is next and fits the buffer:
-- Write of the other and Read, one behind the other, or Read between the two writes of Write,
-- give the datagram that came in and put out the frame of the other. If Read reads the header
-- after Write has filled it and before Write sends it, Write sends the other datagram behind the
-- length of the one that came in; and if Write fills the header before Read decodes it, Read
-- takes the payload by the length of the other.
pub overlaps :
    (header p d rest out : List ℕ) (room : ℕ)
    → IsDatagram p
    → IsDatagram d
    → length d ≤ room
    → let f = with_next header d rest out in
      let written_first = read room (write p f).1 in
      let read_first = write p (read room f).1 in
      let between = read room (send_header (fill p f)) in
      let crossed = send_payload p (send_header (fetch (fill p f)).1) in
      ((written_first.0 ≡ bytes d) × (written_first.1.out ≡ out ++ frame p))
      × (((read room f).0 ≡ bytes d) × (read_first.1.out ≡ out ++ frame p))
      × ((between.0 ≡ bytes d) × ((send_payload p between.1).out ≡ out ++ frame p))
      × (((after_header room crossed).0 ≡ bytes d)
          × (crossed.out ≡ out ++ (le_bytes 4 (length d) ++ p)))
      × (after_header room (fill p (fetch f).1) ≡ read_payload (length p) room (fill p (fetch f).1))
unfolding fill send_header send_payload
overlaps header p d rest out room hp hd fits =
    rw
      (
        write-frame p (with_next header d rest out) hp,
        write-frame p _ hp,
        read-next header d rest out room hd,
        read-next (le_bytes 4 (length p)) d rest (out ++ frame p) room hd,
        small,
        read-next (le_bytes 4 (length p)) d rest (out ++ le_bytes 4 (length p)) room hd,
        fetch-next (le_bytes 4 (length p)) d rest out,
        take-all room d fits,
      )
      (
        (refl, refl),
        (refl, refl),
        (refl, append_assoc out (le_bytes 4 (length p)) p),
        (
          ap (λ r. r.0) (after_header-next d rest ((out ++ le_bytes 4 (length d)) ++ p) room hd)
              ∙ ap bytes (take-all room d fits),
          append_assoc out (le_bytes 4 (length d)) p,
        ),
        after_header-filled p (fetch (with_next header d rest out)).1 room hp,
      )
  where
    small : length p % u32_mod ≡ length p
    small = omega (arith, hp)
