-- ===== src/Mux/Window/Link.antt =====
-- One direction of a connection of lib/nps_mux/conn.go: the sender's window, the receiver's window,
-- and what is under way between them. The mux keeps frames in order and acknowledgements in order.
pub mod Healthy
pub mod Credit
use nps.Prelude.{ℕ, List, [], ◌∷◌, ◌++◌, Bool}
use nps.Mux.Window.Send
use nps.Mux.Window.Send.{
  SendWindow, Frame, WriteTo, closed_window, drained, panics, spins, blocked, segment, write_to,
  set_size,
}
use nps.Mux.Window.Receive
use nps.Mux.Window.Receive.{ReceiveWindow, Estimate, Write, refused, wrote, write, Read, read}

-- `sent` and `got` record the bytes that have left the writer and those that readers were given.
pub record Link : Type 0 where
  pub sender : SendWindow
  pub receiver : ReceiveWindow
  pub frames : List Frame
  pub acks : List ℕ
  pub sent : List ℕ
  pub got : List ℕ

unfoldable pub new : Link
new = record {
  sender = Send.new;
  receiver = Receive.new;
  frames = [];
  acks = [];
  sent = [];
  got = [];
}

-- One turn of WriteFull with the offset and the bytes that are left, the arrival of the oldest frame or
-- acknowledgement, and a read into so many bytes.
pub data Move : Type 0 where
  writes : ℕ → List ℕ → Move
  delivers : Estimate → Move
  acknowledges : Move
  reads : ℕ → Move

-- The frame is muxNewMsgPart or muxNewMsg, as WriteFull sends it.
unfoldable pub after_write : Link → WriteTo → Link
after_write k (segment seg part w) = record k {
  sender = w;
  frames = k.frames ++ (record { buf = seg; part = part } ∷ []);
  sent = k.sent ++ seg;
}
after_write k (blocked w) = record k { sender = w }
after_write k closed_window = k
after_write k drained = k
after_write k panics = k
after_write k spins = k

-- What the mux's reader does with the answer of Write. On a refusal it closes the connection; the
-- windows stay as they are, and the link is not followed further.
unfoldable pub after_delivery : Link → List Frame → Write → Link
after_delivery k rest (wrote w credits) = record k {
  receiver = w;
  frames = rest;
  acks = k.acks ++ credits;
}
after_delivery k rest refused = record k { frames = rest }

unfoldable pub after_read : Link → Read → Link
after_read k r = record k {
  receiver = r.window;
  acks = k.acks ++ r.credits;
  got = k.got ++ r.bytes;
}

-- newMsg, for the oldest frame
unfoldable pub deliver : Link → List Frame → Estimate → Link
unfolding after_delivery
deliver k [] e = k
deliver k (f ∷ rest) e = after_delivery k rest (write k.receiver f e)

-- The reader's case of muxMsgSendOk, for the oldest acknowledgement
unfoldable pub acknowledge : Link → List ℕ → Link
acknowledge k [] = k
acknowledge k (a ∷ rest) = record k { sender = (set_size k.sender a).1; acks = rest }

unfoldable pub step : Link → Move → Link
unfolding after_write after_read deliver acknowledge
step k (writes off rest) = after_write k (write_to k.sender off rest)
step k (delivers e) = deliver k k.frames e
step k acknowledges = acknowledge k k.acks
step k (reads room) = after_read k (read k.receiver room)

unfoldable pub run : Link → List Move → Link
unfolding step
run k [] = k
run k (m ∷ ms) = run (step k m) ms
