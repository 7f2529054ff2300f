-- ===== src/Mux/Window/Receive/Draining.antt =====
-- The end of a half-closed stream (lib/nps_mux/conn.go): each read takes something, or all that is
-- left.
use nps.Prelude.{
  ℕ, ◌-◌, ◌<◌, ◌≡◌, ◌≢◌, refl, sym, ap, ◌∙◌, min, List, [], ◌∷◌, ◌++◌, Option, none, some, false,
  ◌&&◌, ◌⊎◌, length, drop, ltb, ◌==◌, arith, All, inl, inr, subst, if_both, length-take,
  length-drop, length-append, append-nil,
}
use nps.Mux.Window.{u31_mod}
use nps.Mux.Window.Send.{Frame}
use nps.Mux.Window.Receive.Queue.{ReceiveQueue}
use nps.Mux.Window.Receive.Queue
use nps.Mux.Window.Receive.{
  ReceiveWindow, Read, Ending, returned, eof, waiting, copy_from, copied, read_elements,
  read_current, read, stop,
}
use nps.Mux.Window.Receive.Load.{content, unread, load, IsWithin, NotEmpty, IsLive}
use nps.Mux.Window.Receive.Reading.{read-Reads}
use nps.Mux.Window.Receive.HalfClosed.{at_end, copy_from-queue, stopped, read-stop}

-- Nothing is left when a read does not return by itself.
abbrev pub IsDry : Read → Type 0
IsDry r = (r.ending ≡ returned) ⊎ (unread r.window ≡ [])

read_elements-IsDry :
    (es : List Frame) (w : ReceiveWindow) (room : ℕ)
    → w.queue.items ≡ es
    → IsDry (read_elements es w room)
unfolding read_elements Queue.popped
read_elements-IsDry [] w room q = inr (ap content q)
read_elements-IsDry (e ∷ es) w room q =
    let opened = record w { queue = Queue.popped w.queue e es; element = some e; off = 0 } in
    if_both IsDry (ltb (min room (length e.buf)) room && e.part)
      (λ h.
        read_elements-IsDry es (copy_from opened e room).0 (room - min room (length e.buf))
          (ap (λ (q : ReceiveQueue). q.items) (copy_from-queue opened e room)))
      (λ h. inl refl)

read_current-IsDry :
    (o : Option Frame) (w : ReceiveWindow) (room : ℕ) → IsDry (read_current o w room)
unfolding read_current
read_current-IsDry none w room = read_elements-IsDry w.queue.items w room refl
read_current-IsDry (some e) w room =
    let left = room - min room (length e.buf - w.off) in
    if_both IsDry (w.off == length e.buf) (λ h. read_elements-IsDry w.queue.items w room refl)
      λ h.
        if_both IsDry (ltb 0 left && e.part)
          (λ h.
            read_elements-IsDry w.queue.items (copy_from w e room).0 left
              (ap (λ (q : ReceiveQueue). q.items) (copy_from-queue w e room)))
          (λ h. inl refl)

-- What returns by itself has bytes.
abbrev pub IsFed : Read → Type 0
IsFed r = r.ending ≢ returned ⊎ (0 < length r.bytes)

copied_some :
    (off : ℕ) (e : Frame) (room : ℕ)
    → 0 < room
    → off < length e.buf
    → 0 < length (copied off e room)
copied_some off e room some_room inside =
    omega
      (arith, length-take (min room (length e.buf - off)) (drop off e.buf), length-drop off e.buf)

fed :
    (off : ℕ) (e : Frame) (room : ℕ) (more : List ℕ)
    → 0 < room
    → off < length e.buf
    → 0 < length (copied off e room ++ more)
fed off e room more some_room inside =
    omega (arith, length-append (copied off e room) more, copied_some off e room some_room inside)

read_elements-IsFed :
    (es : List Frame) (w : ReceiveWindow) (room : ℕ)
    → 0 < room
    → All NotEmpty es
    → IsFed (read_elements es w room)
unfolding read_elements
read_elements-IsFed [] w room some_room filled =
    inl (if_both (λ x. x ≢ returned) w.queue.stopped (λ h e. cc e) (λ h e. cc e))
read_elements-IsFed (e ∷ es) w room some_room filled =
    if_both IsFed (ltb (min room (length e.buf)) room && e.part)
      (λ h. inr (fed 0 e room _ some_room filled.0))
      (λ h. inr (copied_some 0 e room some_room filled.0))

read_current-IsFed :
    (o : Option Frame) (w : ReceiveWindow) (room : ℕ)
    → 0 < room
    → IsWithin w.off o
    → All NotEmpty w.queue.items
    → IsFed (read_current o w room)
unfolding read_current
read_current-IsFed none w room some_room inside filled =
    read_elements-IsFed w.queue.items w room some_room filled
read_current-IsFed (some e) w room some_room inside filled =
    let left = room - min room (length e.buf - w.off) in
    if_both IsFed (w.off == length e.buf)
      (λ h. read_elements-IsFed w.queue.items w room some_room filled)
      λ h.
        if_both IsFed (ltb 0 left && e.part)
          (λ h'. inr (fed w.off e room _ some_room (ground (arith, h, inside))))
          (λ h'. inr (copied_some w.off e room some_room (ground (arith, h, inside))))

pub read-IsDry : (w : ReceiveWindow) (room : ℕ) → w.closed ≡ false → IsDry (read w room)
unfolding read
read-IsDry w room up =
    if_both IsDry w.closed (λ h. absurd (cc (up, h))) (λ h. read_current-IsDry w.element w room)

pub read-IsFed : (w : ReceiveWindow) (room : ℕ) → 0 < room → IsLive w → IsFed (read w room)
unfolding read
read-IsFed w room some_room v =
    if_both IsFed w.closed (λ h. absurd (cc (v.is_open.0, h)))
      (λ h. read_current-IsFed w.element w room some_room v.inside v.filled)

-- What a read leaves of a window that is half closed: it takes the next bytes and leaves the window
-- half closed, or it takes all that is left and the stream is at its end.
pub data HalfRead (w : ReceiveWindow) (r : Read) : Type 0 where
  goes_on :
      (w' : ReceiveWindow)
      → r.ending ≡ returned
      → r.window ≡ stop w'
      → IsLive w'
      → load w' < u31_mod
      → 0 < length r.bytes
      → r.bytes ++ unread w' ≡ unread w
      → HalfRead w r
  at_its_end : r.ending ≡ eof → r.bytes ≡ unread w → HalfRead w r

all_read :
    (w : ReceiveWindow) (r : Read)
    → r.bytes ++ unread r.window ≡ unread w
    → unread r.window ≡ []
    → r.bytes ≡ unread w
all_read w r order dry = sym (append-nil r.bytes) ∙ ap (◌++◌ r.bytes) (sym dry) ∙ order

by_ending :
    (w : ReceiveWindow) (r : Read) (e : Ending)
    → r.ending ≡ e
    → IsLive r.window
    → load r.window < u31_mod
    → r.bytes ++ unread r.window ≡ unread w
    → IsDry r
    → IsFed r
    → HalfRead w (stopped r)
unfolding stopped
by_ending w r returned h v small order dry (inl other) = absurd (other h)
by_ending w r returned h v small order dry (inr full) =
    goes_on r.window (ap at_end h) refl v small full order
by_ending w r eof h v small order (inl dry) f = absurd (cc (sym h ∙ dry))
by_ending w r eof h v small order (inr dry) f = at_its_end (ap at_end h) (all_read w r order dry)
by_ending w r waiting h v small order (inl dry) f = absurd (cc (sym h ∙ dry))
by_ending w r waiting h v small order (inr dry) f =
    at_its_end (ap at_end h) (all_read w r order dry)

-- Reading a half-closed window.
pub read-HalfRead :
    (w : ReceiveWindow) (room : ℕ)
    → IsLive w
    → load w < u31_mod
    → 0 < room
    → HalfRead w (read (stop w) room)
read-HalfRead w room v small some_room =
    let reads = read-Reads w room v small in
    subst (HalfRead w) (sym (read-stop w room v.is_open.2)) (
      by_ending w (read w room) (read w room).ending refl reads.live
        (omega (arith, reads.load_kept, small)) reads.in_order (read-IsDry w room v.is_open.0)
        (read-IsFed w room some_room v))
