-- ===== src/Tests/Windows.antt =====
-- Runs of the windows, and of a link that carries five bytes.
use nps.Prelude.{
  ℕ, ◌+◌, ◌<◌, ◌≤◌, ◌≡◌, refl, List, [], ◌∷◌, ◌++◌, true, false, arith, none, some, ◌⊎◌,
}
use nps.Mux.Window.{unpack, pack}
use nps.Mux.Window.Send
use nps.Mux.Window.Send.{SendWindow, Frame, set_size, write_to, write_full}
use nps.Mux.Window.Send.Laws.{size_of, sent_of, waits}
use nps.Mux.Window.Send.Write.{Wrote, write_full-Wrote}
use nps.Mux.Window.Send.Credit.{set_size-wakes}
use nps.Mux.Window.Receive
use nps.Mux.Window.Receive.Queue
use nps.Mux.Window.Receive.{ReceiveWindow, Estimate, write, Write, wrote, read}
use nps.Mux.Window.Receive.Load.{IsLive, total, load, unread, content, reported}
use nps.Mux.Window.Receive.Flow.{Takes, write-Takes}
use nps.Mux.Window.Receive.Message.{Answers, read-Answers}
use nps.Mux.Window.Link
use nps.Mux.Window.Link.{Link, Move, writes, delivers, acknowledges, reads, run}
use nps.Mux.Window.Link.Credit.{run-in_order, run-at_rest, new-Healthy}

-- A window of ten bytes that is used up, and its writer waits.
abbrev full : SendWindow
full = record { max_size_done = pack 10 10 true; closed = false; token = false }

set_size-wakes_example :
    let w = (set_size full (pack 10 4 false)).1 in
    ((waits w ≡ true) × (size_of w ≤ sent_of w))
    ⊎ ((waits w ≡ false) × (sent_of w < size_of w) × (w.token ≡ true))
unfolding pack unpack
set_size-wakes_example = set_size-wakes full (pack 10 4 false) refl refl (omega arith)

abbrev five : List ℕ
five = 1 ∷ 2 ∷ 3 ∷ 4 ∷ 5 ∷ []

write_full-Wrote_example : Wrote Send.new five (write_full 6 Send.new 0 five)
unfolding Send.new
write_full-Wrote_example = write_full-Wrote 6 Send.new 0 five refl (omega arith) (omega arith)

abbrev estimate : Estimate
estimate = record { bandwidth = 0; latency = 0; gain = none; limit = none }

abbrev frame : Frame
frame = record { buf = five; part = false }

new-IsLive : IsLive Receive.new
unfolding Link.new
new-IsLive = new-Healthy.live

write-Takes_example : Takes Receive.new frame (write Receive.new frame estimate)
unfolding Receive.new Queue.new unpack pack
write-Takes_example = write-Takes Receive.new frame estimate new-IsLive (omega arith) (omega arith)

-- A window with two bytes left of an element, a frame of the same message, and one of the next.
abbrev halfway : ReceiveWindow
halfway = record {
  max_size_done = 0;
  queue = record {
    length = 8;
    items = record { buf = 4 ∷ 5 ∷ 6 ∷ []; part = false } ∷ frame ∷ [];
    stopped = false;
  };
  element = some (record { buf = 1 ∷ 2 ∷ 3 ∷ []; part = true });
  off = 1;
  below = 0;
  closed = false;
  input_closed = false;
}

read-Answers_example : Answers halfway 4 (read halfway 4)
unfolding unpack
read-Answers_example =
    read-Answers halfway 4
      (record {
        is_open = (refl, refl, refl);
        counted = refl;
        filled = (omega arith, (omega arith, tt));
        inside = omega arith;
        flushed = λ e. refl;
      })
      (omega arith) (omega arith)

abbrev moves : List Move
moves =
    writes 0 five ∷ delivers estimate ∷ acknowledges ∷ reads 8 ∷ acknowledges ∷ acknowledges ∷ []

run-in_order_example :
    let k = run Link.new moves in
    (sent_of k.sender ≡ total k.frames + load k.receiver + reported k.acks)
    × (k.sent ≡ k.got ++ (unread k.receiver ++ content k.frames))
run-in_order_example = run-in_order moves

run-at_rest_example :
    (sent_of (run Link.new moves).sender ≡ 0)
    × ((run Link.new moves).got ≡ (run Link.new moves).sent)
unfolding Link.run Link.new Send.new Receive.new Queue.new unpack pack write_to set_size
    Receive.write Receive.accept Receive.calc_size Receive.granted Receive.bounded Receive.read
    Queue.push Queue.popped Receive.copy_from Receive.send_status
run-at_rest_example = run-at_rest moves refl refl refl
