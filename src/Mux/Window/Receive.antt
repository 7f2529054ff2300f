-- ===== src/Mux/Window/Receive.antt =====
-- receiveWindow of lib/nps_mux/conn.go, with its receiveWindowQueue of queue.go. The word holds the
-- window size that this side grants and the bytes read and not yet reported. The queue's chain is the
-- list that Mux/Chain refines. A call is in the order of its locks and compare-and-swaps.
pub mod Queue
pub mod Load
pub mod Steps
pub mod Flow
pub mod Copying
pub mod Reading
pub mod Closing
pub mod HalfClosed
pub mod Draining
pub mod Message
use nps.Prelude.{
  ℕ, zero, suc, ◌+◌, ◌-◌, ◌*◌, ◌/◌, ◌%◌, ◌^◌, min, List, [], ◌∷◌, ◌++◌, Option, none, some, Bool,
  true, false, ◌&&◌, ◌||◌, length, take, drop, ltb, leb, ◌==◌, if◌then◌else◌,
}
use nps.Mux.Packet.{maximum_segment_size}
use nps.Mux.Window.{u31_mod, unpack, pack}
use nps.Mux.Window.Send.{Frame}
use Queue.{ReceiveQueue}
use Queue

pub record ReceiveWindow : Type 0 where
  pub max_size_done : ℕ
  pub queue : ReceiveQueue
  pub element : Option Frame
  pub off : ℕ
  -- count, an int8 from -9 to 0, by its distance from 0
  pub below : ℕ
  pub closed : Bool
  pub input_closed : Bool

abbrev pub initial_size : ℕ
initial_size = maximum_segment_size * 30

-- New; the first element is an empty one from the pool.
unfoldable pub new : ReceiveWindow
new = record {
  max_size_done = pack initial_size 0 false;
  queue = Queue.new;
  element = some (record { buf = []; part = false });
  off = 0;
  below = 0;
  closed = false;
  input_closed = false;
}

-- remainingSize: a difference of int64, or 0 where it is not positive
abbrev pub remaining_size : ReceiveWindow → ℕ → ℕ → ℕ
remaining_size w max_size delta = max_size - w.queue.length - delta

-- What the measured latency and bandwidths yield in calcSize, as uint32: the product of latency and
-- bandwidth, the latency gain, the gain of a window that is nearly empty (when it applies), and the
-- share of the greatest window (when both bandwidths are known).
pub record Estimate : Type 0 where
  pub bandwidth : ℕ
  pub latency : ℕ
  pub gain : Option ℕ
  pub limit : Option ℕ

pub or_gain : Option ℕ → ℕ → ℕ
or_gain none n = n
or_gain (some g) n = g

within_limit : Option ℕ → ℕ → ℕ
within_limit none n = n
within_limit (some limit) n = if ltb limit n then limit else n

-- The estimate before it is held against the size of now.
abbrev pub wanted : Estimate → ℕ
wanted e =
    let n = if ltb e.bandwidth initial_size then initial_size else e.bandwidth in
    or_gain e.gain (if ltb n e.latency then e.latency else n)

-- No less than a half, and no more than twice, or six times when it is the initial size.
unfoldable pub bounded : ℕ → ℕ → ℕ
bounded size want =
    let n = if ltb want (size / 2) then size / 2 else want in
    if ltb (2 * size) n
    then (if size == initial_size then (if ltb (size * 6) n then size * 6 else n) else 2 * size)
    else n

-- The size that calcSize sets.
unfoldable pub granted : ℕ → Estimate → ℕ
unfolding bounded or_gain within_limit
granted size e = within_limit e.limit (bounded size (wanted e))

-- calcSize
unfoldable pub calc_size : ReceiveWindow → Estimate → ReceiveWindow
calc_size w e =
    let (size, read, wait) = unpack w.max_size_done in
    if w.below == 0
    then record w { max_size_done = pack (granted size e) read wait; below = 9 }
    else record w { below = w.below - 1 }

pub data Write : Type 0 where
  refused : Write
  -- the window, and the words sent to the peer as muxMsgSendOk
  wrote : ReceiveWindow → List ℕ → Write

-- Write, after calcSize
unfoldable pub accept : ReceiveWindow → Frame → ReceiveWindow × List ℕ
accept w f =
    let (max_size, read, wait) = unpack w.max_size_done in
    let remain = remaining_size w max_size (length f.buf) in
    let queue = Queue.push w.queue f in
    if wait
    then (record w { queue = queue }, [])
    else if remain == 0
    then (record w { max_size_done = pack max_size read true; queue = queue }, [])
    else (
      record w { max_size_done = pack max_size 0 false; queue = queue },
      pack max_size read false ∷ [],
    )

wrote_to : ReceiveWindow × List ℕ → Write
wrote_to (w, credits) = wrote w credits

unfoldable pub write : ReceiveWindow → Frame → Estimate → Write
unfolding wrote_to
write w f e =
    if w.closed || w.input_closed
    then refused
    else if length f.buf == 0
    then refused
    else wrote_to (accept (calc_size w e) f)

-- The test of sendStatus: a waiting peer has room again, half of the window is read, or the queue is
-- empty.
abbrev pub reports : Bool → ℕ → ℕ → ℕ → Bool
reports wait remain max_size read =
    wait && ltb 0 remain || leb (max_size / 2) read || remain == max_size

-- sendStatus, for an element of so many bytes
unfoldable pub send_status : ReceiveWindow → ℕ → ReceiveWindow × List ℕ
send_status w l =
    let (max_size, read, wait) = unpack w.max_size_done in
    let remain = remaining_size w max_size 0 in
    if leb read ((read + l) % 2 ^ 32 % u31_mod)
    then (if reports wait remain max_size (read + l)
        then (
          record w { max_size_done = pack max_size 0 false },
          pack max_size (read + l) false ∷ [],
        )
        else (record w { max_size_done = pack max_size (read + l) wait }, []))
    else (record w { max_size_done = pack max_size l wait }, pack max_size read false ∷ [])

-- How a read ends: with bytes, at the end of the stream, or waiting for a frame.
pub data Ending : Type 0 where
  returned eof waiting : Ending

pub record Read : Type 0 where
  pub window : ReceiveWindow
  pub bytes : List ℕ
  pub credits : List ℕ
  pub ending : Ending

-- The copy from the element into `room` bytes, and the status when it is used up.
unfoldable pub copy_from : ReceiveWindow → Frame → ℕ → ReceiveWindow × List ℕ
copy_from w e room =
    let off = w.off + min room (length e.buf - w.off) in
    if off == length e.buf
    then send_status (record w { off = off }) (length e.buf)
    else (record w { off = off }, [])

abbrev pub copied : ℕ → Frame → ℕ → List ℕ
copied off e room = take (min room (length e.buf - off)) (drop off e.buf)

-- The loop from copyData on, where the element is used up, over the elements in the queue.
unfoldable pub read_elements : List Frame → ReceiveWindow → ℕ → Read
read_elements [] w room = record {
  window = record w { element = none; off = 0 };
  bytes = [];
  credits = [];
  ending = if w.queue.stopped then eof else waiting;
}
read_elements (e ∷ es) w room =
    let opened = record w { queue = Queue.popped w.queue e es; element = some e; off = 0 } in
    let (w', credits) = copy_from opened e room in
    let next = read_elements es w' (room - min room (length e.buf)) in
    if ltb (min room (length e.buf)) room && e.part
    then record next { bytes = copied 0 e room ++ next.bytes; credits = credits ++ next.credits }
    else record { window = w'; bytes = copied 0 e room; credits = credits; ending = returned }

-- readFromQueue, by whether there is an element with bytes left
unfoldable pub read_current : Option Frame → ReceiveWindow → ℕ → Read
unfolding read_elements
read_current none w room = read_elements w.queue.items w room
read_current (some e) w room =
    let (w', credits) = copy_from w e room in
    let left = room - min room (length e.buf - w.off) in
    let next = read_elements w.queue.items w' left in
    if w.off == length e.buf
    then read_elements w.queue.items w room
    else if ltb 0 left && e.part
    then record next {
      bytes = copied w.off e room ++ next.bytes;
      credits = credits ++ next.credits;
    }
    else record { window = w'; bytes = copied w.off e room; credits = credits; ending = returned }

-- Read of the window; the measurement of the bandwidth is left out.
unfoldable pub read : ReceiveWindow → ℕ → Read
unfolding read_current
read w room =
    if w.closed
    then record { window = w; bytes = []; credits = []; ending = eof }
    else read_current w.element w room

-- Stop, and what release leaves once the window is closed
unfoldable pub stop : ReceiveWindow → ReceiveWindow
stop w = record w { queue = Queue.stop w.queue; input_closed = true }
