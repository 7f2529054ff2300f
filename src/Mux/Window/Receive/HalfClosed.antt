-- ===== src/Mux/Window/Receive/HalfClosed.antt =====
-- A receive window that the peer will not fill any more (Stop of receiveWindow, lib/nps_mux/conn.go)
-- is read as before, up to the end of the stream.
use nps.Prelude.{
  ℕ, ◌+◌, ◌-◌, ◌≡◌, refl, ap, ◌∙◌, min, List, [], ◌∷◌, ◌++◌, Option, none, some, Bool, true, false,
  ◌&&◌, length, leb, ltb, ◌==◌, if◌then◌else◌, if_both, ◌%◌, ◌^◌,
}
use nps.Mux.Window.{u31_mod, unpack}
use nps.Mux.Window.Send.{Frame}
use nps.Mux.Window.Receive.Queue.{ReceiveQueue}
use nps.Mux.Window.Receive.Queue
use nps.Mux.Window.Receive.{
  ReceiveWindow, Read, Ending, returned, eof, waiting, send_status, copy_from, copied,
  read_elements, read_current, read, stop, reports, remaining_size,
}

-- The same read of the stopped window: where it would wait, the stream is at its end.
abbrev pub at_end : Ending → Ending
at_end waiting = eof
at_end eof = eof
at_end returned = returned

unfoldable pub stopped : Read → Read
unfolding stop
stopped r = record r { window = stop r.window; ending = at_end r.ending }

-- A function of two conditionals with the same test.
if_same {ℓ κ} :
    {A : Type ℓ} {B : Type κ} (f : A → B) (b : Bool) {x y : A} {u v : B}
    → u ≡ f x
    → v ≡ f y
    → (if b then u else v) ≡ f (if b then x else y)
if_same f true h h' = h
if_same f false h h' = h'

abbrev stop_first : ReceiveWindow × List ℕ → ReceiveWindow × List ℕ
unfolding stop
stop_first (w, credits) = (stop w, credits)

send_status-stop :
    (w : ReceiveWindow) (l : ℕ) → send_status (stop w) l ≡ stop_first (send_status w l)
unfolding send_status stop Queue.stop
send_status-stop w l =
    let (max_size, read, wait) = unpack w.max_size_done in
    if_same stop_first (leb read ((read + l) % 2 ^ 32 % u31_mod))
      (if_same stop_first (reports wait (remaining_size w max_size 0) max_size (read + l)) refl
        refl)
      refl

copy_from-stop :
    (w : ReceiveWindow) (e : Frame) (room : ℕ)
    → copy_from (stop w) e room ≡ stop_first (copy_from w e room)
unfolding copy_from stop Queue.stop
copy_from-stop w e room =
    let off = w.off + min room (length e.buf - w.off) in
    if_same stop_first (off == length e.buf)
      (send_status-stop (record w { off = off }) (length e.buf)) refl

send_status-queue : (w : ReceiveWindow) (l : ℕ) → (send_status w l).0.queue ≡ w.queue
unfolding send_status
send_status-queue w l =
    let (max_size, read, wait) = unpack w.max_size_done in
    if_both (λ (r : ReceiveWindow × List ℕ). r.0.queue ≡ w.queue)
      (leb read ((read + l) % 2 ^ 32 % u31_mod))
      (λ h.
        if_both (λ (r : ReceiveWindow × List ℕ). r.0.queue ≡ w.queue)
          (reports wait (remaining_size w max_size 0) max_size (read + l)) (λ h. refl) (λ h. refl))
      (λ h. refl)

pub copy_from-queue :
    (w : ReceiveWindow) (e : Frame) (room : ℕ) → (copy_from w e room).0.queue ≡ w.queue
unfolding copy_from
copy_from-queue w e room =
    let off = w.off + min room (length e.buf - w.off) in
    if_both (λ (r : ReceiveWindow × List ℕ). r.0.queue ≡ w.queue) (off == length e.buf)
      (λ h. send_status-queue (record w { off = off }) (length e.buf)) (λ h. refl)

read_elements-stop :
    (es : List Frame) (w : ReceiveWindow) (room : ℕ)
    → w.queue.stopped ≡ false
    → read_elements es (stop w) room ≡ stopped (read_elements es w room)
unfolding read_elements stop Queue.stop Queue.popped stopped
read_elements-stop [] w room going = rw going refl
read_elements-stop (e ∷ es) w room going =
    let opened = record w { queue = Queue.popped w.queue e es; element = some e; off = 0 } in
    let copy = copy_from opened e room in
    let left = room - min room (length e.buf) in
    ap
      (λ (c : ReceiveWindow × List ℕ).
        let next = read_elements es c.0 left in
        if ltb (min room (length e.buf)) room && e.part
        then record next { bytes = copied 0 e room ++ next.bytes; credits = c.1 ++ next.credits }
        else record { window = c.0; bytes = copied 0 e room; credits = c.1; ending = returned })
      (copy_from-stop opened e room)
    ∙ if_same stopped (ltb (min room (length e.buf)) room && e.part)
        (ap
          (λ (n : Read). record n {
            bytes = copied 0 e room ++ n.bytes;
            credits = copy.1 ++ n.credits;
          })
          (read_elements-stop es copy.0 left
            (ap (λ (q : ReceiveQueue). q.stopped) (copy_from-queue opened e room) ∙ going)))
        refl

read_current-stop :
    (o : Option Frame) (w : ReceiveWindow) (room : ℕ)
    → w.queue.stopped ≡ false
    → read_current o (stop w) room ≡ stopped (read_current o w room)
unfolding read_current stop Queue.stop stopped
read_current-stop none w room going = read_elements-stop w.queue.items w room going
read_current-stop (some e) w room going =
    let copy = copy_from w e room in
    let left = room - min room (length e.buf - w.off) in
    if_same stopped (w.off == length e.buf) (read_elements-stop w.queue.items w room going) (
      ap
        (λ (c : ReceiveWindow × List ℕ).
          let next = read_elements w.queue.items c.0 left in
          if ltb 0 left && e.part
          then record next {
            bytes = copied w.off e room ++ next.bytes;
            credits = c.1 ++ next.credits;
          }
          else record {
            window = c.0;
            bytes = copied w.off e room;
            credits = c.1;
            ending = returned;
          })
        (copy_from-stop w e room)
      ∙ if_same stopped (ltb 0 left && e.part)
          (ap
            (λ (n : Read). record n {
              bytes = copied w.off e room ++ n.bytes;
              credits = copy.1 ++ n.credits;
            })
            (read_elements-stop w.queue.items copy.0 left
              (ap (λ (q : ReceiveQueue). q.stopped) (copy_from-queue w e room) ∙ going)))
          refl)

pub read-stop :
    (w : ReceiveWindow) (room : ℕ)
    → w.queue.stopped ≡ false
    → read (stop w) room ≡ stopped (read w room)
unfolding read stop Queue.stop stopped
read-stop w room going = if_same stopped w.closed refl (read_current-stop w.element w room going)
