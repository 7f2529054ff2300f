-- ===== src/Mux/Window/Receive/Copying.antt =====
-- readFromQueue of conn.go on one element: the copy, and the status when it is used up.
use nps.Prelude.{
  ℕ, ◌+◌, ◌-◌, ◌≤◌, ◌<◌, ◌≡◌, ◌≢◌, refl, sym, ap, ◌∙◌, min, List, [], ◌++◌, some, length, drop,
  ◌==◌, arith, append_assoc, Bool-cases, inl, inr, drop-drop, take-append-drop, drop-length,
}
use nps.Mux.Window.{u31_mod}
use nps.Mux.Window.Send.{Frame}
use nps.Mux.Window.Receive.{ReceiveWindow, send_status, copy_from, copied}
use nps.Mux.Window.Receive.Load.{
  content, read_of, held, held_in, load, left_in, unread, reported, IsLive,
}
use nps.Mux.Window.Receive.Steps.{send_status-Rewords}

-- A window with an element, read up to an offset.
abbrev pub at : ReceiveWindow → Frame → ℕ → ReceiveWindow
at w e off = record w { element = some e; off = off }

-- What a read, or a part of it, leaves, hands over and reports.
pub record Reads (w : ReceiveWindow) (w' : ReceiveWindow) (bytes : List ℕ) (credits : List ℕ)
    : Type 0 where
  pub live : IsLive w'
  pub load_kept : load w' + reported credits ≡ load w
  pub in_order : bytes ++ unread w' ≡ unread w

-- Nothing is left of the element.
abbrev pub UsedUp : ReceiveWindow → Type 0
UsedUp w = (held w ≡ 0) × (left_in w.off w.element ≡ [])

abbrev pub taken : Frame → ℕ → ℕ → ℕ
taken e off room = min room (length e.buf - off)

copied-left :
    (e : Frame) (off room : ℕ) (rest : List ℕ)
    → copied off e room ++ (drop (off + taken e off room) e.buf ++ rest) ≡ drop off e.buf ++ rest
copied-left e off room rest =
    sym (append_assoc (copied off e room) (drop (off + taken e off room) e.buf) rest)
    ∙ ap (λ l. l ++ rest)
        (ap (◌++◌ (copied off e room)) (sym (drop-drop (taken e off room) off e.buf))
          ∙ take-append-drop (taken e off room) (drop off e.buf))

-- The element is used up.
copy-last :
    (w : ReceiveWindow) (e : Frame) (off room : ℕ)
    → IsLive (at w e off)
    → off < length e.buf
    → load (at w e off) < u31_mod
    → off + taken e off room ≡ length e.buf
    → let r = send_status (at w e (off + taken e off room)) (length e.buf) in
      Reads (at w e off) r.0 (copied off e room) r.1
copy-last w e off room v unfinished small last =
    let (s, empties) =
      send_status-Rewords (at w e (off + taken e off room)) (length e.buf)
        (omega (arith, held_all)) in
    rw s.result (record {
      live = record {
        is_open = v.is_open;
        counted = v.counted;
        filled = v.filled;
        inside = omega arith;
        flushed = λ none_left. empties (omega (arith, v.counted));
      };
      load_kept = omega (arith, s.progress, held_all, held_none);
      in_order = copied-left e off room (content w.queue.items);
    })
  where
    held_all : held_in off (some e) ≡ length e.buf
    held_all = ground arith

    held_none : held_in (off + taken e off room) (some e) ≡ 0
    held_none = ground arith

copy-more :
    (w : ReceiveWindow) (e : Frame) (off room : ℕ)
    → IsLive (at w e off)
    → off < length e.buf
    → off + taken e off room ≢ length e.buf
    → Reads (at w e off) (at w e (off + taken e off room)) (copied off e room) []
copy-more w e off room v unfinished more = record {
  live = record {
    is_open = v.is_open;
    counted = v.counted;
    filled = v.filled;
    inside = omega arith;
    flushed = λ none_left. absurd (ground arith);
  };
  load_kept = ground arith;
  in_order = copied-left e off room (content w.queue.items);
}

pub copy_from-Reads :
    (w : ReceiveWindow) (e : Frame) (off room : ℕ)
    → IsLive (at w e off)
    → off < length e.buf
    → load (at w e off) < u31_mod
    → let r = copy_from (at w e off) e room in Reads (at w e off) r.0 (copied off e room) r.1
unfolding copy_from
copy_from-Reads w e off room v unfinished small =
    elim (Bool-cases (off + taken e off room == length e.buf)) [
      | inl last ↦ rw last (copy-last w e off room v unfinished small (ground arith))
      | inr more ↦ rw more (copy-more w e off room v unfinished (ground arith))
    ]

-- The queue stays, and an element that did not fill the room is used up.
pub copy_from-same :
    (w : ReceiveWindow) (e : Frame) (off room : ℕ)
    → read_of w + length e.buf < u31_mod
    → off ≤ length e.buf
    → let w' = (copy_from (at w e off) e room).0 in
      (w'.queue ≡ w.queue)
      × (w'.element ≡ some e)
      × (w'.off ≡ off + taken e off room)
      × (w'.closed ≡ w.closed)
unfolding copy_from
copy_from-same w e off room small inside =
    elim (Bool-cases (off + taken e off room == length e.buf)) [
      | inl last ↦
          rw
            (
              last,
              (send_status-Rewords (at w e (off + taken e off room)) (length e.buf) small).0.result,
            )
            (refl, refl, refl, refl)
      | inr more ↦ rw more (refl, refl, refl, refl)
    ]

pub drop-length-at : (n : ℕ) (xs : List ℕ) → n ≡ length xs → drop n xs ≡ []
drop-length-at n xs e = rw e (drop-length xs)
