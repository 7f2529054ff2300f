-- ===== src/Mux/Packet.antt =====
-- lib/nps_mux/netpackager.go: the frames of the mux. Bytes are numbers; id is an int32 kept as its
-- 32-bit pattern. The buffers of the pools (pool.go) have poolSizeWindow bytes. A writer takes all it
-- is given, and a reader is the list of the bytes that it will deliver before it ends.
pub mod Bytes
pub mod Bounds
pub mod RoundTrip
use nps.Prelude.{
  ℕ, ◌+◌, ◌-◌, ◌%◌, Option, none, some, List, [], ◌∷◌, ◌++◌, Bool, ◌||◌, length, take, drop, ltb,
  ◌==◌, if◌then◌else◌,
}
use nps.Prelude.Words.{u16_mod}
use Bytes.{le_bytes, le_value}

-- The constants of mux.go and pool.go.
abbrev pub mux_ping_flag : ℕ
mux_ping_flag = 0

abbrev pub mux_new_conn_ok : ℕ
mux_new_conn_ok = 1

abbrev pub mux_new_conn_fail : ℕ
mux_new_conn_fail = 2

abbrev pub mux_new_msg : ℕ
mux_new_msg = 3

abbrev pub mux_new_msg_part : ℕ
mux_new_msg_part = 4

abbrev pub mux_msg_send_ok : ℕ
mux_msg_send_ok = 5

abbrev pub mux_new_conn : ℕ
mux_new_conn = 6

abbrev pub mux_conn_close : ℕ
mux_conn_close = 7

abbrev pub mux_ping_return : ℕ
mux_ping_return = 8

abbrev pub pool_size_window : ℕ
pool_size_window = 4096 - 2 - 4 - 4 - 1

abbrev pub maximum_segment_size : ℕ
maximum_segment_size = pool_size_window

-- muxPackager, with the length and content of its basePackager
pub record Packet : Type 0 where
  pub flag : ℕ
  pub id : ℕ
  pub window : ℕ
  pub size : ℕ
  pub content : List ℕ

-- What Set is handed as interface{}.
pub data Payload : Type 0 where
  nothing : Payload
  bytes : List ℕ → Payload
  window : ℕ → Payload

pub data SetError : Type 0 where
  not_bytes zero_length too_large not_window : SetError

pub data SetResult : Type 0 where
  ok : Packet → SetResult
  err : SetError → SetResult

-- The case of the switches in Set, Pack and UnPack that carries content.
unfoldable pub has_content : ℕ → Bool
has_content flag =
    flag == mux_ping_flag
    || flag == mux_ping_return
    || flag == mux_new_msg
    || flag == mux_new_msg_part

-- basePackager.Set and setLength. A nil slice and one of length zero are both refused.
unfoldable pub set_content : Packet → List ℕ → SetResult
set_content p content =
    if length content == 0
    then err zero_length
    else if ltb maximum_segment_size (length content)
    then err too_large
    else ok (record p { size = length content % u16_mod; content = content })

unfoldable pub set_payload : Packet → Payload → SetResult
set_payload p (bytes content) =
    if has_content p.flag
    then set_content p content
    else if p.flag == mux_msg_send_ok
    then err not_window
    else ok p
set_payload p (window w) =
    if has_content p.flag
    then err not_bytes
    else if p.flag == mux_msg_send_ok
    then ok (record p { window = w })
    else ok p
set_payload p nothing =
    if has_content p.flag
    then err not_bytes
    else if p.flag == mux_msg_send_ok
    then err not_window
    else ok p

-- muxPackager.Set, after its reset
unfoldable pub set_packet : ℕ → ℕ → Payload → SetResult
unfolding set_payload set_content
set_packet flag id payload =
    set_payload (record { flag = flag; id = id; window = 0; size = 0; content = [] }) payload

-- muxPackager.Pack: what the writer gets, or none for an invalid packet.
pub encode : Packet → Option (List ℕ)
encode p =
    if has_content p.flag
    then (if ltb (length p.content) p.size
        then none
        else some (header ++ (le_bytes 2 p.size ++ take p.size p.content)))
    else if p.flag == mux_msg_send_ok
    then some (header ++ le_bytes 8 p.window)
    else some header
  where
    header : List ℕ
    header = le_bytes 1 p.flag ++ le_bytes 4 p.id

-- io.ReadFull: the next n bytes and the rest, or none when fewer are left.
unfoldable pub read_full : ℕ → List ℕ → Option (List ℕ × List ℕ)
read_full n s = if ltb (length s) n then none else some (take n s, drop n s)

pub data Decoded : Type 0 where
  -- the packet, the number of bytes that UnPack returns, and what is left to read
  decoded : Packet → ℕ → List ℕ → Decoded
  short empty_content oversized : Decoded

unfoldable pub unpack_content : Packet → ℕ → ℕ → List ℕ → Decoded
unpack_content p n size s =
    if size == 0
    then empty_content
    else if ltb pool_size_window size
    then oversized
    else if ltb maximum_segment_size size
    then oversized
    else elim (read_full size s) [
      | none ↦ short
      | some (content, rest) ↦
          decoded (record p { size = size; content = content }) (n + (2 + length content)) rest
    ]

unfoldable pub unpack_body : Packet → ℕ → List ℕ → Decoded
unpack_body p n s =
    if has_content p.flag
    then elim (read_full 2 s) [
      | none ↦ short
      | some (size, rest) ↦ unpack_content p n (le_value size) rest
    ]
    else if p.flag == mux_msg_send_ok
    then elim (read_full 8 s) [
      | none ↦ short
      | some (w, rest) ↦ decoded (record p { window = le_value w }) (n + length w) rest
    ]
    else decoded p n s

-- The packet of a header of five bytes.
abbrev pub header_packet : List ℕ → Packet
header_packet header = record {
  flag = le_value (take 1 header);
  id = le_value (drop 1 header);
  window = 0;
  size = 0;
  content = [];
}

-- muxPackager.UnPack of a packet from the pool, which is reset.
unfoldable pub decode : List ℕ → Decoded
decode s = elim (read_full 5 s) [
  | none ↦ short
  | some (header, rest) ↦ unpack_body (header_packet header) (length header) rest
]
