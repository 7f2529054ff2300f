-- ===== src/Tests/Frames.antt =====
-- Frames and datagrams of a few bytes.
use nps.Prelude.{ℕ, ◌≡◌, refl, List, [], ◌∷◌, ◌++◌, some, length, arith}
use nps.Mux.Packet.{
  Packet, bytes, set_packet, encode, decode, decoded, has_content, read_full, unpack_body,
  unpack_content,
}
use nps.Mux.Packet.Bytes.{le_bytes, le_value}
use nps.Mux.Packet.RoundTrip.{decode-encode}
use nps.Mux.Packet.Bounds.{decode-After, Fits, After}
use nps.Framed.{
  Framed, Got, read, write, fill, fetch, send_header, send_payload, after_header, read_payload,
}
use nps.Framed.Boundaries.{with_next, frame, overlaps}

abbrev message : Packet
message = record { flag = 3; id = 7; window = 0; size = 2; content = 10 ∷ 20 ∷ [] }

abbrev wire : List ℕ
wire = 3 ∷ 7 ∷ 0 ∷ 0 ∷ 0 ∷ 2 ∷ 0 ∷ 10 ∷ 20 ∷ []

decode-encode_example :
    (s : List ℕ) × (encode message ≡ some s)
    × ((rest : List ℕ) → decode (s ++ rest) ≡ decoded message (length s) rest)
unfolding set_packet has_content
decode-encode_example =
    decode-encode 3 7 (bytes (10 ∷ 20 ∷ [])) message (omega arith) (omega arith) tt refl

decode-After_example : Fits message × After 9 (wire ++ (5 ∷ [])) (5 ∷ [])
unfolding decode read_full has_content unpack_body unpack_content le_value
decode-After_example = decode-After (wire ++ (5 ∷ [])) message 9 (5 ∷ []) refl

abbrev ours : List ℕ
ours = 1 ∷ 2 ∷ []

abbrev theirs : List ℕ
theirs = 7 ∷ 8 ∷ 9 ∷ []

abbrev start : Framed
start = with_next (0 ∷ 0 ∷ 0 ∷ 0 ∷ []) theirs (5 ∷ []) []

overlaps_example :
    let written_first = read 3 (write ours start).1 in
    let read_first = write ours (read 3 start).1 in
    let between = read 3 (send_header (fill ours start)) in
    let crossed = send_payload ours (send_header (fetch (fill ours start)).1) in
    ((written_first.0 ≡ Got.bytes theirs) × (written_first.1.out ≡ frame ours))
    × (((read 3 start).0 ≡ Got.bytes theirs) × (read_first.1.out ≡ frame ours))
    × ((between.0 ≡ Got.bytes theirs) × ((send_payload ours between.1).out ≡ frame ours))
    × (((after_header 3 crossed).0 ≡ Got.bytes theirs) × (crossed.out ≡ le_bytes 4 3 ++ ours))
    × (after_header 3 (fill ours (fetch start).1) ≡ read_payload 2 3 (fill ours (fetch start).1))
overlaps_example =
    overlaps (0 ∷ 0 ∷ 0 ∷ 0 ∷ []) ours theirs (5 ∷ []) [] 3 (omega arith) (omega arith)
      (omega arith)
