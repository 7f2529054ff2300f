-- ===== src/Framed.antt =====
-- FramedConn of lib/conn/framed.go: datagrams over a byte stream, each behind its length in four
-- bytes. The stream below delivers a list of bytes before it ends, and it takes all that is written.
-- The connection is not nil. Read and Write hold different mutexes: readMu and writeMu keep two calls
-- of one of them apart, and a Read and a Write may overlap between the steps below.
pub mod Boundaries
use nps.Prelude.{
  ℕ, ◌-◌, ◌%◌, ◌^◌, min, List, [], ◌∷◌, Option, none, some, Bool, true, false, ◌++◌, length, take,
  drop, ltb, ◌==◌, if◌then◌else◌,
}
use nps.Prelude.Words.{u32_mod}
use nps.Mux.Packet.{read_full}
use nps.Mux.Packet.Bytes.{le_bytes, le_value}

-- maxFramedDatagramSize
abbrev pub max_size : ℕ
max_size = 2 ^ 20

-- `stream` is what comes in, and `out` what has gone out. `header` is the one buffer into which Read
-- reads the length of a datagram and from which Write sends it.
pub record Framed : Type 0 where
  pub pending : List ℕ
  pub header : List ℕ
  pub stream : List ℕ
  pub out : List ℕ

-- The bytes of a read, or its error.
pub data Got : Type 0 where
  bytes : List ℕ → Got
  ended too_large : Got

-- PutUint32 in Write, and its two writes to the stream
unfoldable pub fill : List ℕ → Framed → Framed
fill p f = record f { header = le_bytes 4 (length p % u32_mod) }

unfoldable pub send_header : Framed → Framed
send_header f = record f { out = f.out ++ f.header }

unfoldable pub send_payload : List ℕ → Framed → Framed
send_payload p f = record f { out = f.out ++ p }

-- Write: the number of bytes, or none for a datagram that is too large.
unfoldable pub write : List ℕ → Framed → Option ℕ × Framed
unfolding fill send_header send_payload
write p f =
    if ltb max_size (length p)
    then (none, f)
    else (some (length p), send_payload p (send_header (fill p f)))

unfoldable pub take_header : Framed → Option (List ℕ × List ℕ) → Bool × Framed
take_header f none =
    (false, record f { header = f.stream ++ drop (length f.stream) f.header; stream = [] })
take_header f (some (header, rest)) = (true, record f { header = header; stream = rest })

-- ReadFull in Read, for the header; what came before an end of the stream stands in it.
unfoldable pub fetch : Framed → Bool × Framed
unfolding take_header
fetch f = take_header f (read_full 4 f.stream)

-- The part of Read after the header, for a datagram of this size and a buffer of `room` bytes.
unfoldable pub read_payload : ℕ → ℕ → Framed → Got × Framed
read_payload size room f =
    if ltb max_size size
    then (too_large, f)
    else if size == 0
    then (bytes [], f)
    else elim (read_full size f.stream) [
      | none ↦ (ended, record f { stream = [] })
      | some (buf, rest) ↦
          (bytes (take room buf), record f { pending = drop room buf; stream = rest })
    ]

-- Read from the decoding of the header on
unfoldable pub after_header : ℕ → Framed → Got × Framed
unfolding read_payload
after_header room f = read_payload (le_value f.header) room f

unfoldable pub after_fetch : ℕ → Bool × Framed → Got × Framed
unfolding after_header
after_fetch room (true, f) = after_header room f
after_fetch room (false, f) = (ended, f)

-- Read
unfoldable pub read : ℕ → Framed → Got × Framed
unfolding fetch after_fetch
read room f =
    if ltb 0 (length f.pending)
    then (bytes (take room f.pending), record f { pending = drop room f.pending })
    else after_fetch room (fetch f)
