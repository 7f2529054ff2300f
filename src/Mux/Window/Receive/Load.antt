-- ===== src/Mux/Window/Receive/Load.antt =====
-- What a receive window carries: the unread bytes in order, and the load, which is the number of
-- bytes that the sender still counts as sent.
use nps.Prelude.{
  ℕ, ◌+◌, ◌≤◌, ◌<◌, ◌≡◌, refl, sym, ap, ◌∙◌, List, [], ◌∷◌, ◌++◌, Option, none, some, false, length,
  drop, ◌==◌, if◌then◌else◌, arith, All, append_assoc,
}
use nps.Mux.Window.{unpack}
use nps.Mux.Window.Send.{Frame}
use nps.Mux.Window.Receive.{ReceiveWindow}

abbrev pub total : List Frame → ℕ
total [] = 0
total (f ∷ fs) = length f.buf + total fs

abbrev pub content : List Frame → List ℕ
content [] = []
content (f ∷ fs) = f.buf ++ content fs

pub total-append : (xs ys : List Frame) → total (xs ++ ys) ≡ total xs + total ys
total-append [] ys = omega arith
total-append (x ∷ xs) ys = omega (arith, total-append xs ys)

pub content-append : (xs ys : List Frame) → content (xs ++ ys) ≡ content xs ++ content ys
content-append [] ys = refl
content-append (x ∷ xs) ys =
    ap (◌++◌ x.buf) (content-append xs ys) ∙ sym (append_assoc x.buf (content xs) (content ys))

-- The bytes read and not yet reported.
abbrev pub read_of : ReceiveWindow → ℕ
read_of w = (unpack w.max_size_done).1

-- An element counts in full until its last byte is read.
abbrev pub held_in : ℕ → Option Frame → ℕ
held_in off none = 0
held_in off (some e) = if off == length e.buf then 0 else length e.buf

abbrev pub held : ReceiveWindow → ℕ
held w = held_in w.off w.element

abbrev pub load : ReceiveWindow → ℕ
load w = total w.queue.items + held w + read_of w

abbrev pub left_in : ℕ → Option Frame → List ℕ
left_in off none = []
left_in off (some e) = drop off e.buf

abbrev pub unread : ReceiveWindow → List ℕ
unread w = left_in w.off w.element ++ content w.queue.items

-- The bytes that a list of acknowledgements reports.
abbrev pub reported : List ℕ → ℕ
reported [] = 0
reported (a ∷ as_) = (unpack a).1 + reported as_

pub reported-append : (xs ys : List ℕ) → reported (xs ++ ys) ≡ reported xs + reported ys
reported-append [] ys = omega arith
reported-append (x ∷ xs) ys = omega (arith, reported-append xs ys)

abbrev pub IsWithin : ℕ → Option Frame → Type 0
IsWithin off none = Unit
IsWithin off (some e) = off ≤ length e.buf

abbrev pub NotEmpty : Frame → Type 0
NotEmpty f = 0 < length f.buf

-- An open window whose counts agree. Once all is read, all is reported.
pub record IsLive (w : ReceiveWindow) : Type 0 where
  pub is_open : (w.closed ≡ false) × (w.input_closed ≡ false) × (w.queue.stopped ≡ false)
  pub counted : w.queue.length ≡ total w.queue.items
  pub filled : All NotEmpty w.queue.items
  pub inside : IsWithin w.off w.element
  pub flushed : total w.queue.items + held w ≡ 0 → read_of w ≡ 0
