-- ===== src/Mux/Window/Send/Laws.antt =====
-- WriteTo of sendWindow (lib/nps_mux/conn.go).
use nps.Prelude.{
  ℕ, ◌+◌, ◌-◌, ◌≤◌, ◌<◌, ◌≡◌, min, List, Bool, true, false, length, take, ltb, leb, ◌==◌, ◌%◌, ◌^◌,
  arith, if_both,
}
use nps.Mux.Packet.{maximum_segment_size}
use nps.Mux.Window.{u31_mod, unpack, pack, unpack_bounds}
use nps.Mux.Window.Send.{
  SendWindow, remaining_size, WriteTo, drained, panics, blocked, segment, write_to,
}

-- The parts of the word.
abbrev pub size_of : SendWindow → ℕ
size_of w = (unpack w.max_size_done).0

abbrev pub sent_of : SendWindow → ℕ
sent_of w = (unpack w.max_size_done).1

abbrev pub waits : SendWindow → Bool
waits w = (unpack w.max_size_done).2

-- The window after a segment of so many bytes, and after it has begun to wait.
abbrev pub advanced : SendWindow → ℕ → SendWindow
advanced w n = record w { max_size_done = pack (size_of w) (sent_of w + n) (waits w) }

abbrev pub parked : SendWindow → SendWindow
parked w = record w { max_size_done = pack (size_of w) (sent_of w) true; token = false }

-- What WriteTo may answer on an open window, whatever the length of the buffer.
pub data Sends (w : SendWindow) (rest : List ℕ) : WriteTo → Type 0 where
  drains : Sends w rest drained
  breaks : Sends w rest panics
  blocks : size_of w ≤ sent_of w → Sends w rest (blocked (parked w))
  cuts :
      (n : ℕ) (part : Bool)
      → 0 < n
      → n ≤ maximum_segment_size
      → n ≤ length rest
      → sent_of w + n ≤ size_of w
      → Sends w rest (segment (take n rest) part (advanced w n))

-- Both numbers of a word have 31 bits, so the masks of remainingSize change nothing.
pub remaining : (w : SendWindow) → remaining_size (size_of w) (sent_of w) ≡ size_of w - sent_of w
remaining w = omega (arith, unpack_bounds w.max_size_done)

pub write_to-blocked :
    (w : SendWindow) (off : ℕ) (rest : List ℕ)
    → w.closed ≡ false
    → 0 < length rest
    → off + length rest < 2 ^ 32
    → size_of w ≤ sent_of w
    → write_to w off rest ≡ blocked (parked w)
unfolding write_to
write_to-blocked w off rest c h short full = ground (arith, unpack_bounds w.max_size_done)

abbrev pub cut : SendWindow → List ℕ → ℕ
cut w rest = min (size_of w - sent_of w) (min maximum_segment_size (length rest))

pub write_to-segment :
    (w : SendWindow) (off : ℕ) (rest : List ℕ)
    → w.closed ≡ false
    → 0 < length rest
    → off + length rest < 2 ^ 32
    → sent_of w < size_of w
    → write_to w off rest
      ≡ segment (take (cut w rest) rest) (ltb (cut w rest) (length rest)) (advanced w (cut w rest))
unfolding write_to
write_to-segment w off rest c h short room =
    rw (remaining w) (ground (arith, unpack_bounds w.max_size_done))

-- On an open window, WriteTo either waits, and then the window is used up, or cuts off a segment
-- of one byte at least that fits the rest, a frame and the window, and counts it, or it sends
-- nothing.
pub write_to-Sends :
    (w : SendWindow) (off : ℕ) (rest : List ℕ)
    → w.closed ≡ false
    → Sends w rest (write_to w off rest)
unfolding write_to
write_to-Sends w off rest c =
    if_both (Sends w rest) w.closed (λ h. absurd (cc (c, h)))
      λ open_window.
        if_both (Sends w rest) (leb ((off + length rest) % 2 ^ 32) off) (λ h. drains)
          λ some_left. rw (remaining w) (
            if_both (Sends w rest) (size_of w - sent_of w == 0) (λ h. blocks (ground (arith, h)))
              λ room.
                if_both (Sends w rest) (leb (2 ^ 32) (off + cut w rest)) (λ h. breaks)
                  λ inside.
                    if_both (Sends w rest)
                      (ltb ((sent_of w + cut w rest) % 2 ^ 32 % u31_mod) (sent_of w))
                      (λ h. absurd (ground (arith, h, unpack_bounds w.max_size_done)))
                      (λ h.
                        cuts (cut w rest) _ (ground (arith, some_left, room)) (omega arith)
                          (omega arith) (ground (arith, room))))
