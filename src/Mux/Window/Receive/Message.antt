-- ===== src/Mux/Window/Receive/Message.antt =====
-- How much Read of receiveWindow (lib/nps_mux/conn.go) hands over: up to the end of a message, which
-- is a frame that has no part behind it.
use nps.Prelude.{
  ℕ, zero, suc, ◌-◌, ◌<◌, ◌≡◌, refl, sym, ap, ◌∙◌, min, List, [], ◌∷◌, ◌++◌, Option, none, some,
  true, false, ◌&&◌, ◌⊎◌, length, take, drop, ltb, ◌==◌, arith, inl, inr, if_both, if◌then◌else◌,
  append-nil, length-drop, Bool-cases,
}
use nps.Mux.Window.{u31_mod}
use nps.Mux.Window.Send.{Frame}
use nps.Mux.Window.Receive.Queue.{ReceiveQueue}
use nps.Mux.Window.Receive.Queue
use nps.Mux.Window.Receive.{
  ReceiveWindow, Read, returned, waiting, copy_from, copied, read_elements, read_current, read,
}
use nps.Mux.Window.Receive.Load.{unread, load, IsLive}
use nps.Mux.Window.Receive.Copying.{Reads}
use nps.Mux.Window.Receive.Reading.{read-Reads}
use nps.Mux.Window.Receive.HalfClosed.{copy_from-queue}
use nps.Mux.Window.Receive.Draining.{IsDry, IsFed, read-IsDry, read-IsFed}

-- The bytes up to the end of the message, or of what has come of it.
abbrev pub message : List Frame → List ℕ
message [] = []
message (e ∷ es) = e.buf ++ (if e.part then message es else [])

abbrev pub message_from : Option Frame → ℕ → List Frame → List ℕ
message_from none off es = message es
message_from (some e) off es =
    if off == length e.buf
    then message es
    else drop off e.buf ++ (if e.part then message es else [])

abbrev pub next_message : ReceiveWindow → List ℕ
next_message w = message_from w.element w.off w.queue.items

-- Taking over the end of the first of two lists.
take-past :
    (n m k : ℕ) (xs ys : List ℕ)
    → m ≡ min n (length xs)
    → k ≡ n - m
    → take n (xs ++ ys) ≡ take m xs ++ take k ys
take-past n zero k [] ys h h' = ap (λ j. take j ys) (omega (arith, h'))
take-past n (suc m) k [] ys h h' = absurd (omega (arith, h))
take-past zero zero zero (x ∷ xs) ys h h' = refl
take-past zero zero (suc k) (x ∷ xs) ys h h' = absurd (omega (arith, h'))
take-past zero (suc m) k (x ∷ xs) ys h h' = absurd (omega (arith, h))
take-past (suc n) zero k (x ∷ xs) ys h h' = absurd (omega (arith, h))
take-past (suc n) (suc m) k (x ∷ xs) ys h h' =
    ap (◌∷◌ x) (take-past n m k xs ys (omega (arith, h)) (omega (arith, h')))

copied-length :
    (off : ℕ) (e : Frame) (room : ℕ)
    → min room (length e.buf - off) ≡ min room (length (drop off e.buf))
copied-length off e room = omega (arith, length-drop off e.buf)

-- The room is used up, or the message ends with the element.
copied-all :
    (off : ℕ) (e : Frame) (room left : ℕ) (more : List ℕ)
    → left ≡ room - min room (length e.buf - off)
    → (ltb 0 left && e.part) ≡ false
    → copied off e room ≡ take room (drop off e.buf ++ (if e.part then more else []))
copied-all off e room left more h stop = sym (
    take-past room (min room (length e.buf - off)) left (drop off e.buf)
      (if e.part then more else []) (copied-length off e room) h
    ∙ ap (◌++◌ (copied off e room)) (
        nothing left (
          if_both (λ l. (left ≡ 0) ⊎ (l ≡ [])) e.part (λ h. inl (ground (arith, stop, h)))
            (λ h. inr refl)))
    ∙ append-nil (copied off e room))
  where
    nothing : (k : ℕ) → {l : List ℕ} → (k ≡ 0) ⊎ (l ≡ []) → take k l ≡ []
    nothing k (inl e) = rw e refl
    nothing zero (inr e) = refl
    nothing (suc k) (inr e) = rw e refl

-- There is room for more of the message.
copied-on :
    (off : ℕ) (e : Frame) (room left : ℕ) (more bytes : List ℕ)
    → left ≡ room - min room (length e.buf - off)
    → (ltb 0 left && e.part) ≡ true
    → bytes ≡ take left more
    → copied off e room ++ bytes ≡ take room (drop off e.buf ++ (if e.part then more else []))
copied-on off e room left more bytes h on same = sym (
    take-past room (min room (length e.buf - off)) left (drop off e.buf)
      (if e.part then more else []) (copied-length off e room) h
    ∙ ap (◌++◌ (copied off e room)) (
        if_both (λ l. take left l ≡ bytes) e.part (λ h. sym same)
          (λ h. absurd (ground (arith, on, h)))))

more_room :
    (room : ℕ) (e : Frame)
    → (ltb (min room (length e.buf)) room && e.part)
      ≡ (ltb 0 (room - min room (length e.buf)) && e.part)
more_room room e = ap (λ b. b && e.part) (ground arith)

take-nil : (n : ℕ) → take {A = ℕ} n [] ≡ []
take-nil zero = refl
take-nil (suc n) = refl

read_elements-message :
    (es : List Frame) (w : ReceiveWindow) (room : ℕ)
    → (read_elements es w room).bytes ≡ take room (message es)
unfolding read_elements
read_elements-message [] w room = sym (take-nil room)
read_elements-message (e ∷ es) w room =
    let opened = record w { queue = Queue.popped w.queue e es; element = some e; off = 0 } in
    let left = room - min room (length e.buf) in
    let rest = read_elements-message es (copy_from opened e room).0 left in
    if_both (λ (r : Read). r.bytes ≡ take room (message (e ∷ es)))
      (ltb (min room (length e.buf)) room && e.part)
      (λ on.
        copied-on 0 e room left (message es) _ (omega arith) (sym (more_room room e) ∙ on) rest)
      (λ stop. copied-all 0 e room left (message es) (omega arith) (sym (more_room room e) ∙ stop))

read_current-message :
    (o : Option Frame) (w : ReceiveWindow) (room : ℕ)
    → (read_current o w room).bytes ≡ take room (message_from o w.off w.queue.items)
unfolding read_current
read_current-message none w room = read_elements-message w.queue.items w room
read_current-message (some e) w room =
    let left = room - min room (length e.buf - w.off) in
    elim (Bool-cases (w.off == length e.buf)) [
      | inl done ↦ rw done (read_elements-message w.queue.items w room)
      | inr unfinished ↦ rw unfinished (
          if_both
            (λ (r : Read).
              r.bytes
              ≡ take room (drop w.off e.buf ++ (if e.part then message w.queue.items else [])))
            (ltb 0 left && e.part)
            (λ on.
              copied-on w.off e room left (message w.queue.items) _ refl on
                (read_elements-message w.queue.items (copy_from w e room).0 left))
            (λ stop. copied-all w.off e room left (message w.queue.items) refl stop))
    ]

-- How a read of a window that is not stopped ends.
abbrev Returns : Read → Type 0
Returns r = (r.ending ≡ returned) ⊎ (r.ending ≡ waiting)

read_elements-Returns :
    (es : List Frame) (w : ReceiveWindow) (room : ℕ)
    → w.queue.stopped ≡ false
    → Returns (read_elements es w room)
unfolding read_elements Queue.popped
read_elements-Returns [] w room going = rw going (inr refl)
read_elements-Returns (e ∷ es) w room going =
    let opened = record w { queue = Queue.popped w.queue e es; element = some e; off = 0 } in
    if_both Returns (ltb (min room (length e.buf)) room && e.part)
      (λ h.
        read_elements-Returns es (copy_from opened e room).0 (room - min room (length e.buf))
          (ap (λ (q : ReceiveQueue). q.stopped) (copy_from-queue opened e room) ∙ going))
      (λ h. inl refl)

read_current-Returns :
    (o : Option Frame) (w : ReceiveWindow) (room : ℕ)
    → w.queue.stopped ≡ false
    → Returns (read_current o w room)
unfolding read_current
read_current-Returns none w room going = read_elements-Returns w.queue.items w room going
read_current-Returns (some e) w room going =
    let left = room - min room (length e.buf - w.off) in
    if_both Returns (w.off == length e.buf) (λ h. read_elements-Returns w.queue.items w room going)
      λ h.
        if_both Returns (ltb 0 left && e.part)
          (λ h.
            read_elements-Returns w.queue.items (copy_from w e room).0 left
              (ap (λ (q : ReceiveQueue). q.stopped) (copy_from-queue w e room) ∙ going))
          (λ h. inl refl)

-- What Read answers to a slice of `room` bytes.
pub record Answers (w : ReceiveWindow) (room : ℕ) (r : Read) : Type 0 where
  pub reads : Reads w r.window r.bytes r.credits
  pub amount : r.bytes ≡ take room (next_message w)
  pub ends :
      ((r.ending ≡ returned) × (0 < length r.bytes))
      ⊎ ((r.ending ≡ waiting) × (unread r.window ≡ []))

ends-by :
    (r : Read)
    → Returns r
    → IsDry r
    → IsFed r
    → ((r.ending ≡ returned) × (0 < length r.bytes))
      ⊎ ((r.ending ≡ waiting) × (unread r.window ≡ []))
ends-by r (inl e) dry (inl other) = absurd (other e)
ends-by r (inl e) dry (inr full) = inl (e, full)
ends-by r (inr e) (inl other) f = absurd (cc (sym e ∙ other))
ends-by r (inr e) (inr dry) f = inr (e, dry)

-- If a receive window is live, its load fits in 31 bits and the slice is not empty, Read hands
-- over the unread bytes up to the end of the message, or as many of them as the slice holds,
-- leaves a live window with the others in order, and keeps the load up to what it reports; it
-- returns with one byte at least, or it waits for a frame and no byte is unread.
pub read-Answers :
    (w : ReceiveWindow) (room : ℕ)
    → IsLive w
    → load w < u31_mod
    → 0 < room
    → Answers w room (read w room)
unfolding read
read-Answers w room v small some_room = record {
  reads = read-Reads w room v small;
  amount =
      if_both (λ (r : Read). r.bytes ≡ take room (next_message w)) w.closed
        (λ h. absurd (cc (v.is_open.0, h))) (λ h. read_current-message w.element w room);
  ends =
      ends-by (read w room)
        (if_both Returns w.closed (λ h. absurd (cc (v.is_open.0, h)))
          (λ h. read_current-Returns w.element w room v.is_open.2))
        (read-IsDry w room v.is_open.0) (read-IsFed w room some_room v);
}
