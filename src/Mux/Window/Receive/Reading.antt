-- ===== src/Mux/Window/Receive/Reading.antt =====
-- Read of receiveWindow (lib/nps_mux/conn.go) as a whole.
use nps.Prelude.{
  ℕ, ◌+◌, ◌-◌, ◌<◌, ◌≡◌, refl, sym, ap, ap₂, ◌∙◌, min, List, [], ◌∷◌, ◌++◌, Option, none, some,
  false, ◌&&◌, length, ltb, ◌==◌, arith, All, append_assoc, Bool-cases, inl, inr, subst,
}
use nps.Mux.Window.{u31_mod}
use nps.Mux.Window.Send.{Frame}
use nps.Mux.Window.Receive.Queue.{ReceiveQueue}
use nps.Mux.Window.Receive.Queue
use nps.Mux.Window.Receive.{
  ReceiveWindow, Read, copy_from, copied, read_elements, read_current, read,
}
use nps.Mux.Window.Receive.Load.{
  total, content, held_in, load, unread, reported-append, NotEmpty, IsLive,
}
use nps.Mux.Window.Receive.Copying.{
  at, Reads, UsedUp, taken, copy_from-Reads, copy_from-same, drop-length-at,
}

-- An element that did not fill the room is used up.
copy-UsedUp :
    (w : ReceiveWindow) (e : Frame) (off room : ℕ)
    → load (at w e off) < u31_mod
    → off < length e.buf
    → min room (length e.buf - off) < room
    → let w' = (copy_from (at w e off) e room).0 in (w'.queue ≡ w.queue) × UsedUp w'
copy-UsedUp w e off room small inside all =
    let (queue, element, moved, closed) =
      copy_from-same w e off room (ground arith) (omega arith) in
    (
      queue,
      rw (element, moved)
          (ground arith, drop-length-at (off + taken e off room) e.buf (omega arith)),
    )

-- One part of a read after another.
Reads-trans :
    (w w' w'' : ReceiveWindow) (bytes more credits later : List ℕ)
    → Reads w w' bytes credits
    → Reads w' w'' more later
    → Reads w w'' (bytes ++ more) (credits ++ later)
Reads-trans w w' w'' bytes more credits later a b = record {
  live = b.live;
  load_kept = omega (arith, a.load_kept, b.load_kept, reported-append credits later);
  in_order = append_assoc bytes more (unread w'') ∙ ap (◌++◌ bytes) b.in_order ∙ a.in_order;
}

abbrev ReadsAll : ReceiveWindow → Read → Type 0
ReadsAll w r = Reads w r.window r.bytes r.credits

-- The next element is opened.
open-Reads :
    (w : ReceiveWindow) (e : Frame) (es : List Frame)
    → w.queue.items ≡ e ∷ es
    → IsLive w
    → UsedUp w
    → Reads w (at (record w { queue = Queue.popped w.queue e es }) e 0) [] []
unfolding Queue.popped
open-Reads w e es q v used = record {
  live = record {
    is_open = v.is_open;
    counted = ground (arith, counts, v.counted);
    filled = each.1;
    inside = omega arith;
    flushed = λ none_left. absurd (omega (arith, held_all, each.0));
  };
  load_kept = omega (arith, counts, held_all, used.0);
  in_order = sym (ap₂ ◌++◌ used.1 (ap content q));
}
  where
    counts : total w.queue.items ≡ length e.buf + total es
    counts = ap total q

    each : NotEmpty e × All NotEmpty es
    each = subst (All NotEmpty) q v.filled

    held_all : held_in 0 (some e) ≡ length e.buf
    held_all = ground (arith, each.0)

read_elements-Reads :
    (es : List Frame) (w : ReceiveWindow) (room : ℕ)
    → w.queue.items ≡ es
    → IsLive w
    → UsedUp w
    → load w < u31_mod
    → ReadsAll w (read_elements es w room)
unfolding read_elements Queue.popped
read_elements-Reads [] w room q v used small = record {
  live = record {
    is_open = v.is_open;
    counted = v.counted;
    filled = v.filled;
    inside = tt;
    flushed = λ none_left. v.flushed (omega (arith, used.0, ap total q));
  };
  load_kept = omega (arith, used.0);
  in_order = sym (ap (λ l. l ++ content w.queue.items) used.1);
}
read_elements-Reads (e ∷ es) w room q v used small =
    elim (Bool-cases (ltb (min room (length e.buf)) room && e.part)) [
      | inl more ↦ rw more (
          Reads-trans w copy.0 next.window (copied 0 e room) next.bytes copy.1 next.credits first (
            let (queue, used) = copy-UsedUp opened e 0 room small' pos (ground arith) in
            read_elements-Reads es copy.0 (room - min room (length e.buf)) (ap (λ q. q.items) queue)
              first.live used (omega (arith, first.load_kept))))
      | inr stop ↦ rw stop first
    ]
  where
    opened : ReceiveWindow
    opened = record w { queue = Queue.popped w.queue e es }

    opening : Reads w (at opened e 0) [] []
    opening = open-Reads w e es q v used

    pos : 0 < length e.buf
    pos = (subst (All NotEmpty) q v.filled).0

    copy : ReceiveWindow × List ℕ
    copy = copy_from (at opened e 0) e room

    next : Read
    next = read_elements es copy.0 (room - min room (length e.buf))

    small' : load (at opened e 0) < u31_mod
    small' = omega (arith, opening.load_kept)

    first : Reads w copy.0 (copied 0 e room) copy.1
    first =
        Reads-trans w (at opened e 0) copy.0 [] (copied 0 e room) [] copy.1 opening
          (copy_from-Reads opened e 0 room opening.live pos small')

-- An element is read on, and the queue after it.
current-Reads :
    (w : ReceiveWindow) (e : Frame) (off room : ℕ)
    → IsLive (at w e off)
    → load (at w e off) < u31_mod
    → ReadsAll (at w e off) (read_current (some e) (at w e off) room)
unfolding read_current
current-Reads w e off room v small = elim (Bool-cases (off == length e.buf)) [
  | inl done ↦ rw done (
      read_elements-Reads w.queue.items (at w e off) room refl v
        (ground arith, drop-length-at off e.buf (ground arith)) small)
  | inr unfinished ↦ rw unfinished (elim (Bool-cases (ltb 0 left && e.part)) [
    | inl more ↦ rw more (
        let inside : off < length e.buf = ground (arith, v.inside) in
        let first = copy_from-Reads w e off room v inside small in
        let (queue, used) = copy-UsedUp w e off room small inside (ground arith) in
        Reads-trans (at w e off) copy.0 next.window (copied off e room) next.bytes copy.1
          next.credits first
          (read_elements-Reads w.queue.items copy.0 left (ap (λ q. q.items) queue) first.live used
            (omega (arith, first.load_kept))))
    | inr stop ↦ rw stop (copy_from-Reads w e off room v (ground (arith, v.inside)) small)
  ])
]
  where
    left : ℕ
    left = room - min room (length e.buf - off)

    copy : ReceiveWindow × List ℕ
    copy = copy_from (at w e off) e room

    next : Read
    next = read_elements w.queue.items copy.0 left

read_current-Reads :
    (current : Option Frame) (w : ReceiveWindow) (room : ℕ)
    → w.element ≡ current
    → IsLive w
    → load w < u31_mod
    → ReadsAll w (read_current current w room)
unfolding read_current
read_current-Reads none w room same v small =
    read_elements-Reads w.queue.items w room refl v (rw same (refl, refl)) small
read_current-Reads (some e) w room same v small =
    subst (λ x. IsLive x → load x < u31_mod → ReadsAll x (read_current (some e) x room))
      (ap (λ x. record w { element = x }) (sym same)) (current-Reads w e w.off room) v small

read-is_open :
    (w : ReceiveWindow) (room : ℕ) → w.closed ≡ false → read w room ≡ read_current w.element w room
unfolding read
read-is_open w room e = ground arith

-- If a receive window is live and its load fits in 31 bits, Read leaves a live window, hands over
-- the next unread bytes in order, and keeps the load up to what it reports.
pub read-Reads :
    (w : ReceiveWindow) (room : ℕ) → IsLive w → load w < u31_mod → ReadsAll w (read w room)
read-Reads w room v small =
    subst (ReadsAll w) (sym (read-is_open w room v.is_open.0))
      (read_current-Reads w.element w room refl v small)
