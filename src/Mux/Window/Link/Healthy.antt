-- ===== src/Mux/Window/Link/Healthy.antt =====
-- The state of a link between its moves, and the count of the sender.
use nps.Prelude.{
  ℕ, ◌+◌, ◌≤◌, ◌≡◌, refl, ap, Option, none, some, length-append, length-drop, List, [], ◌∷◌, ◌++◌,
  true, false, length, All, arith,
}
use nps.Mux.Window.{pack_parts, unpack_bounds}
use nps.Mux.Window.Send.{SendWindow, Frame}
use nps.Mux.Window.Send.Laws.{size_of, sent_of, waits, advanced, parked}
use nps.Mux.Window.Receive.{ReceiveWindow}
use nps.Mux.Window.Receive.Load.{
  total, content, load, held, held_in, left_in, IsWithin, unread, reported, NotEmpty, IsLive,
}
use nps.Mux.Window.Link.{Link}

pub record Healthy (k : Link) : Type 0 where
  pub is_open : k.sender.closed ≡ false
  pub live : IsLive k.receiver
  pub filled : All NotEmpty k.frames
  -- what the sender counts is in a frame, in the receiver's window, or in an acknowledgement
  pub counted : sent_of k.sender ≡ total k.frames + load k.receiver + reported k.acks
  -- the writer's bytes were read, or wait to be read, or are in a frame
  pub in_order : k.sent ≡ k.got ++ (unread k.receiver ++ content k.frames)

length-content : (fs : List Frame) → length (content fs) ≡ total fs
length-content [] = refl
length-content (f ∷ fs) = omega (arith, length-append f.buf (content fs), length-content fs)

held_in-left :
    (off : ℕ) (element : Option Frame)
    → IsWithin off element
    → length (left_in off element) ≡ 0
    → held_in off element ≡ 0
held_in-left off none inside e = refl
held_in-left off (some f) inside e = ground (arith, length-drop off f.buf)

-- A window that is read to its end has nothing to report.
pub load-all_read : (w : ReceiveWindow) → IsLive w → unread w ≡ [] → load w ≡ 0
load-all_read w v e = omega (arith, none_left, v.flushed none_left)
  where
    both : length (left_in w.off w.element) + total w.queue.items ≡ 0
    both = omega (
      arith,
      length-append (left_in w.off w.element) (content w.queue.items),
      length-content w.queue.items,
      ap length e,
    )

    none_left : total w.queue.items + held w ≡ 0
    none_left = omega (arith, both, held_in-left w.off w.element v.inside (omega (arith, both)))

pub cuts-sent :
    (w : SendWindow) (n : ℕ) → sent_of w + n ≤ size_of w → sent_of (advanced w n) ≡ sent_of w + n
cuts-sent w n h =
    (pack_parts (size_of w) (sent_of w + n) (waits w) (unpack_bounds w.max_size_done).0
      (omega (arith, unpack_bounds w.max_size_done))).1

pub parked-sent : (w : SendWindow) → sent_of (parked w) ≡ sent_of w
parked-sent w =
    (pack_parts (size_of w) (sent_of w) true (unpack_bounds w.max_size_done).0
      (unpack_bounds w.max_size_done).1).1
