-- ===== src/Mux/Window/Send.antt =====
-- sendWindow of lib/nps_mux/conn.go. The word holds the size that the peer announced and the number
-- of bytes sent and not yet acknowledged. Calls are in the order of their compare-and-swaps.
pub mod Laws
pub mod Write
pub mod Credit
use nps.Prelude.{
  ℕ, zero, suc, ◌+◌, ◌-◌, ◌*◌, ◌%◌, ◌^◌, min, List, [], ◌∷◌, ◌++◌, Bool, true, false, ◌&&◌, not,
  length, take, drop, ltb, leb, ◌==◌, if◌then◌else◌,
}
use nps.Mux.Packet.{maximum_segment_size}
use nps.Mux.Window.{u31_mod, unpack, pack}

-- `token` tells whether the one place of setSizeCh is taken.
pub record SendWindow : Type 0 where
  pub max_size_done : ℕ
  pub closed : Bool
  pub token : Bool

-- New
unfoldable pub new : SendWindow
new = record {
  max_size_done = pack (maximum_segment_size * 30) 0 false;
  closed = false;
  token = false;
}

-- CloseWindow
unfoldable pub close_window : SendWindow → SendWindow
close_window w = record w { closed = true }

-- remainingSize
abbrev pub remaining_size : ℕ → ℕ → ℕ
remaining_size max_size send = max_size % u31_mod - send % u31_mod

-- SetSize, with the answer that it gives; `allow` leaves the token in the channel.
unfoldable pub set_size : SendWindow → ℕ → Bool × SendWindow
set_size w current =
    let (current_max, read, unused) = unpack current in
    let (max_size, send, wait) = unpack w.max_size_done in
    let new_wait = remaining_size current_max (send - read) == 0 && wait in
    if w.closed
    then (true, w)
    else if ltb send read
    then (false, w)
    else if read == 0 && current_max == max_size
    then (false, w)
    else (
      false,
      record w {
        max_size_done = pack current_max (send - read) new_wait;
        token = if wait && not new_wait then true else w.token;
      },
    )

-- The answers of WriteTo. Where it waits for credit, `blocked` is the window that it leaves: an old
-- token is taken, and the loop comes back to wait. `spins`: sent never gets past its overflow test.
-- `panics`: the end of the slice is a uint32 that has wrapped to below its start.
pub data WriteTo : Type 0 where
  closed_window drained panics spins : WriteTo
  blocked : SendWindow → WriteTo
  segment : List ℕ → Bool → SendWindow → WriteTo

-- sent, after the segment has been cut off
sent : SendWindow → List ℕ → Bool → ℕ → WriteTo
sent w seg part size =
    let (max_size, send, wait) = unpack w.max_size_done in
    if ltb ((send + size) % 2 ^ 32 % u31_mod) send
    then spins
    else segment seg part (record w { max_size_done = pack max_size (send + size) wait })

-- WriteTo; `rest` is buf[off:], so that off and its length are together len(buf), of which the code
-- takes uint32.
unfoldable pub write_to : SendWindow → ℕ → List ℕ → WriteTo
unfolding sent
write_to w off rest =
    let (max_size, send, wait) = unpack w.max_size_done in
    let remain = remaining_size max_size send in
    let size = min remain (min maximum_segment_size (length rest)) in
    if w.closed
    then closed_window
    else if leb ((off + length rest) % 2 ^ 32) off
    then drained
    else if remain == 0
    then blocked (record w { max_size_done = pack max_size send true; token = false })
    else if leb (2 ^ 32) (off + size)
    then panics
    else sent w (take size rest) (ltb size (length rest % 2 ^ 32)) size

-- A frame of data: muxNewMsgPart when `part`, muxNewMsg otherwise.
pub record Frame : Type 0 where
  pub buf : List ℕ
  pub part : Bool

-- How WriteFull stands when it returns or waits, with the bytes that it has not sent.
pub data Progress : Type 0 where
  finished closed_early broken spinning out_of_fuel : Progress
  waiting : List ℕ → Progress

pub record Written : Type 0 where
  pub frames : List Frame
  pub window : SendWindow
  pub progress : Progress

-- The loop of WriteFull up to its end or its first wait, while the mux takes every frame.
unfoldable pub write_full : ℕ → SendWindow → ℕ → List ℕ → Written
write_full zero w off rest = record { frames = []; window = w; progress = out_of_fuel }
write_full (suc fuel) w off rest = elim (write_to w off rest) [
  | closed_window ↦ record { frames = []; window = w; progress = closed_early }
  | drained ↦ record { frames = []; window = w; progress = finished }
  | panics ↦ record { frames = []; window = w; progress = broken }
  | spins ↦ record { frames = []; window = w; progress = spinning }
  | blocked w' ↦ record { frames = []; window = w'; progress = waiting rest }
  | segment seg part w' ↦
      let next = write_full fuel w' (off + length seg) (drop (length seg) rest) in
      record next { frames = record { buf = seg; part = part } ∷ next.frames }
]
