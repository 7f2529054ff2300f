-- ===== src/Mux/Window/Send/Write.antt =====
-- WriteFull of sendWindow (lib/nps_mux/conn.go).
use native.Mathlib.Decide.{dec_lt}
use nps.Prelude.{
  ℕ, zero, suc, ◌+◌, ◌^◌, ◌≤◌, ◌<◌, ◌≡◌, refl, sym, ◌∙◌, List, [], ◌∷◌, ◌++◌, true, false, length,
  take, drop, ltb, arith, length-take, length-drop, take-append-drop,
}
use nps.Mux.Packet.{maximum_segment_size}
use nps.Mux.Window.{pack_parts, unpack_bounds}
use nps.Mux.Window.Send.{
  SendWindow, drained, write_to, Frame, Progress, finished, closed_early, broken, spinning,
  out_of_fuel, waiting, Written, write_full,
}
use nps.Mux.Window.Send.Laws.{
  size_of, sent_of, waits, advanced, parked, cut, write_to-blocked, write_to-segment,
}

-- The frames cut the bytes in order, none empty and none too long, up to what is left, and each
-- says whether bytes follow it.
abbrev pub Cut : List ℕ → List Frame → List ℕ → Type 0
Cut rest [] left = rest ≡ left
Cut rest (f ∷ fs) left =
    (more : List ℕ) × (rest ≡ f.buf ++ more)
    × (0 < length f.buf)
    × (length f.buf ≤ maximum_segment_size)
    × (f.part ≡ ltb 0 (length more))
    × Cut more fs left

abbrev pub total : List Frame → ℕ
total [] = 0
total (f ∷ fs) = length f.buf + total fs

-- How a write ends: all is sent, or it waits for credit with the window used up.
abbrev pub Ends : SendWindow → List ℕ → List Frame → SendWindow → Progress → Type 0
Ends w rest frames w' finished = Cut rest frames []
Ends w rest frames w' (waiting left) =
    Cut rest frames left × (0 < length left) × (size_of w' ≤ sent_of w') × (waits w' ≡ true)
Ends w rest frames w' closed_early = ⊥
Ends w rest frames w' broken = ⊥
Ends w rest frames w' spinning = ⊥
Ends w rest frames w' out_of_fuel = ⊥

pub record Wrote (w : SendWindow) (rest : List ℕ) (r : Written) : Type 0 where
  pub ends : Ends w rest r.frames r.window r.progress
  pub counted : sent_of r.window ≡ sent_of w + total r.frames
  pub within : sent_of w ≤ size_of w → sent_of r.window ≤ size_of r.window
  pub same_size : size_of r.window ≡ size_of w

advanced_parts :
    (w : SendWindow) (n : ℕ)
    → sent_of w + n ≤ size_of w
    → (size_of (advanced w n) ≡ size_of w)
      × (sent_of (advanced w n) ≡ sent_of w + n)
      × (waits (advanced w n) ≡ waits w)
advanced_parts w n h =
    pack_parts (size_of w) (sent_of w + n) (waits w) (unpack_bounds w.max_size_done).0
      (omega (arith, unpack_bounds w.max_size_done))

parked_parts :
    (w : SendWindow)
    → (size_of (parked w) ≡ size_of w)
      × (sent_of (parked w) ≡ sent_of w)
      × (waits (parked w) ≡ true)
parked_parts w =
    pack_parts (size_of w) (sent_of w) true (unpack_bounds w.max_size_done).0
      (unpack_bounds w.max_size_done).1

write_to-drained :
    (w : SendWindow) (off : ℕ) → w.closed ≡ false → off < 2 ^ 32 → write_to w off [] ≡ drained
unfolding write_to
write_to-drained w off c short = ground arith

-- A segment in front of what a later write does.
Cut-cons :
    (n : ℕ) (rest left : List ℕ) (fs : List Frame)
    → 0 < n
    → n ≤ maximum_segment_size
    → n ≤ length rest
    → Cut (drop n rest) fs left
    → Cut rest (record { buf = take n rest; part = ltb n (length rest) } ∷ fs) left
Cut-cons n rest left fs pos small fits c = (
  drop n rest,
  sym (take-append-drop n rest),
  omega (arith, length-take n rest),
  omega (arith, length-take n rest),
  ground (arith, length-drop n rest),
  c,
)

Wrote-cons :
    (w : SendWindow) (n : ℕ) (rest : List ℕ) (r : Written)
    → 0 < n
    → n ≤ maximum_segment_size
    → n ≤ length rest
    → sent_of w + n ≤ size_of w
    → Wrote (advanced w n) (drop n rest) r
    → Wrote w rest
        (record r { frames = record { buf = take n rest; part = ltb n (length rest) } ∷ r.frames })
Wrote-cons w n rest r pos small fits room later = record {
  ends = ends r.frames r.window r.progress later.ends;
  counted = omega (arith, later.counted, advanced_parts w n room, length-take n rest);
  within = λ open_room. omega (arith, later.within (omega (arith, advanced_parts w n room)));
  same_size = later.same_size ∙ (advanced_parts w n room).0;
}
  where
    ends :
        (fs : List Frame) (w' : SendWindow) (p : Progress)
        → Ends (advanced w n) (drop n rest) fs w' p
        → Ends w rest (record { buf = take n rest; part = ltb n (length rest) } ∷ fs) w' p
    ends fs w' finished e = Cut-cons n rest [] fs pos small fits e
    ends fs w' (waiting left) e = (Cut-cons n rest left fs pos small fits e.0, e.1, e.2, e.3)
    ends fs w' closed_early e = e
    ends fs w' broken e = e
    ends fs w' spinning e = e
    ends fs w' out_of_fuel e = e

-- On an open window, for a buffer of less than 2 ^ 32 bytes and with fuel for more turns than
-- bytes, WriteFull ends or comes to wait for credit, never out of fuel: its frames are the bytes
-- cut in order, or a first part of them when it waits, they are counted in the window, and the
-- window is not exceeded if it was not before.
pub write_full-Wrote :
    (fuel : ℕ) (w : SendWindow) (off : ℕ) (rest : List ℕ)
    → w.closed ≡ false
    → off + length rest < 2 ^ 32
    → length rest < fuel
    → Wrote w rest (write_full fuel w off rest)
unfolding write_full
write_full-Wrote zero w off rest c short h = elim h [ ]
write_full-Wrote (suc fuel) w off [] c short h =
    rw (write_to-drained w off c (omega arith), write_full)
      (record { ends = refl; counted = omega arith; within = λ fits. fits; same_size = refl })
write_full-Wrote (suc fuel) w off (x ∷ xs) c short h = elim (dec_lt (sent_of w) (size_of w)) [
  | yes room ↦
      let n : ℕ = cut w (x ∷ xs) in
      let taken : length (take n (x ∷ xs)) ≡ n = omega (arith, length-take n (x ∷ xs)) in
      rw (write_to-segment w off (x ∷ xs) c (omega arith) short room, write_full, taken)
        (Wrote-cons w n (x ∷ xs) (write_full fuel (advanced w n) (off + n) (drop n (x ∷ xs)))
          (omega arith) (omega arith) (omega arith) (omega arith)
          (write_full-Wrote fuel (advanced w n) (off + n) (drop n (x ∷ xs)) c
            (omega (arith, length-drop n (x ∷ xs))) (omega (arith, length-drop n (x ∷ xs)))))
  | no full ↦
      rw (write_to-blocked w off (x ∷ xs) c (omega arith) short (omega arith), write_full)
        (record {
          ends = (refl, omega arith, omega (arith, parked_parts w), (parked_parts w).2);
          counted = omega (arith, parked_parts w);
          within = λ fits. omega (arith, parked_parts w);
          same_size = (parked_parts w).0;
        })
]
