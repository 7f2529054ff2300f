-- ===== src/Mux/Priority/Refine.antt =====
-- tryPopLocked and push of priorityQueue (queue.go) on the lists that its chains contain.
use native.Mathlib.Decide.{dec_lt}
use nps.Prelude.{
  ℕ, ◌<◌, ◌≡◌, refl, List, [], ◌∷◌, some, arith, Bool-cases, inl, inr, ap, lt→ltb, ge→ltb,
}
use nps.Mux.Chain
use nps.Mux.Chain.{Chain, Taken, nothing, stuck, taken}
use nps.Mux.Chain.Contains.{Contains, new-Contains, push-Contains, pop-Pops}
use nps.Mux.Packet.{Packet}
use nps.Mux.Priority.{
  Queue, max_starving, bump, new, is_ping, is_opening, push_locked, try_pop, or_else, middle_if,
}
use nps.Mux.Priority.Views.{
  View, put, serve, next, Shows, took_highest-eq, took_middle-taken, took_middle-nothing, Answers,
  last, lower, upper, upper-waits,
}

serve-opening :
    (ms ls : List Packet) (p : Packet) (n : ℕ)
    → n < max_starving
    → serve [] (p ∷ ms) ls n
      ≡ (some p, record { highest = []; middle = ms; lowest = ls; starving = bump n })
serve-opening ms [] p n h = refl
serve-opening ms (l ∷ ls) p n h = rw (lt→ltb n max_starving h)

upper-Answers :
    (q : Queue) (ms ls : List Packet) (n : ℕ)
    → Shows q (record { highest = []; middle = ms; lowest = ls; starving = n })
    → Answers (upper q) (serve [] ms ls n)
unfolding upper middle_if or_else
upper-Answers q ms ls n s = elim (dec_lt n max_starving) [
  | yes few ↦ early ms s few
  | no many ↦
      rw (ge→ltb q.starving max_starving (omega (arith, s.starving)), middle_if, or_else)
        (upper-waits q ms ls n (inr (omega arith)) s)
]
  where
    early :
        (ms : List Packet)
        → Shows q (record { highest = []; middle = ms; lowest = ls; starving = n })
        → n < max_starving
        → Answers (upper q) (serve [] ms ls n)
    early [] s few =
        let (a, c) = pop-Pops q.middle [] s.middle in
        rw
          (
            lt→ltb q.starving max_starving (omega (arith, s.starving)),
            middle_if,
            took_middle-nothing q (Chain.pop q.middle) a,
          )
          (upper-waits (record q { middle = (Chain.pop q.middle).1 }) [] ls n (inl refl)
            (record { highest = s.highest; middle = c; lowest = s.lowest; starving = s.starving }))
    early (p ∷ ms) s few =
        let (a, c) = pop-Pops q.middle (p ∷ ms) s.middle in
        rw
          (
            lt→ltb q.starving max_starving (omega (arith, s.starving)),
            middle_if,
            took_middle-taken q p (Chain.pop q.middle) a,
            serve-opening ms ls p n few,
          )
          (
            refl,
            record {
              highest = s.highest;
              middle = c;
              lowest = s.lowest;
              starving = ap bump s.starving;
            },
          )

-- If the queue shows three lists and a count, a pop answers as the lists do: a ping first, then
-- an opening frame while the count is below eight, then data; and the queue shows what they
-- become.
pub try_pop-Answers : (q : Queue) (v : View) → Shows q v → Answers (try_pop q) (next v)
unfolding try_pop upper lower last
try_pop-Answers q v s = by_highest v.highest s.highest
  where
    by_highest :
        (hs : List Packet)
        → Contains q.highest hs
        → Answers (try_pop q) (serve hs v.middle v.lowest v.starving)
    by_highest [] h =
        let (a, c) = pop-Pops q.highest [] h in
        rw (took_highest-eq q nothing (Chain.pop q.highest) a) (
          upper-Answers (record q { highest = (Chain.pop q.highest).1 }) v.middle v.lowest
            v.starving
            (record { highest = c; middle = s.middle; lowest = s.lowest; starving = s.starving }))
    by_highest (p ∷ hs) h =
        let (a, c) = pop-Pops q.highest (p ∷ hs) h in
        rw (took_highest-eq q (taken p) (Chain.pop q.highest) a) (
          refl,
          record { highest = c; middle = s.middle; lowest = s.lowest; starving = s.starving },
        )

-- A push puts the packet at the end of the list of its kind.
pub push_locked-Shows :
    (q : Queue) (v : View) (p : Packet) → Shows q v → Shows (push_locked q p) (put v p)
unfolding push_locked
push_locked-Shows q v p s = elim (Bool-cases (is_ping p.flag)) [
  | inl ping ↦ rw ping (record {
    highest = push-Contains q.highest v.highest p s.highest;
    middle = s.middle;
    lowest = s.lowest;
    starving = s.starving;
  })
  | inr other ↦ elim (Bool-cases (is_opening p.flag)) [
    | inl opening ↦
        rw (other, opening)
          (record {
            highest = s.highest;
            middle = push-Contains q.middle v.middle p s.middle;
            lowest = s.lowest;
            starving = s.starving;
          })
    | inr message ↦
        rw (other, message)
          (record {
            highest = s.highest;
            middle = s.middle;
            lowest = push-Contains q.lowest v.lowest p s.lowest;
            starving = s.starving;
          })
  ]
]

-- A new queue shows nothing.
pub new-Shows : Shows new (record { highest = []; middle = []; lowest = []; starving = 0 })
unfolding new
new-Shows = record {
  highest = new-Contains Packet 2 (omega arith);
  middle = new-Contains Packet 5 (omega arith);
  lowest = new-Contains Packet 8 (omega arith);
  starving = refl;
}
