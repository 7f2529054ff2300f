-- ===== src/Mux/Priority/Views.antt =====
-- The three lists that a priorityQueue shows, and the parts of tryPopLocked.
use nps.Prelude.{
  ℕ, ◌/◌, ◌<◌, ◌≡◌, refl, List, [], ◌∷◌, ◌++◌, Option, none, some, true, arith, ltb, Bool-cases,
  inl, inr, ap, ◌≤◌, ◌⊎◌, lt→ltb, ge→ltb, if◌then◌else◌,
}
use nps.Mux.Chain
use nps.Mux.Chain.{Chain, Taken, nothing, stuck, taken}
use nps.Mux.Chain.Contains.{Contains, pop-Pops}
use nps.Mux.Packet.{Packet}
use nps.Mux.Priority.{
  Queue, max_starving, bump, is_ping, is_opening, took_highest, took_middle, took_lowest, or_else,
  middle_if,
}

-- The abstract queue.
pub record View : Type 0 where
  pub highest : List Packet
  pub middle : List Packet
  pub lowest : List Packet
  pub starving : ℕ

abbrev pub put : View → Packet → View
put v p =
    if is_ping p.flag
    then record v { highest = v.highest ++ (p ∷ []) }
    else if is_opening p.flag
    then record v { middle = v.middle ++ (p ∷ []) }
    else record v { lowest = v.lowest ++ (p ∷ []) }

-- Pings first, then an opening frame unless too many have overtaken the data, then data, and an
-- opening frame again when there is no data.
abbrev pub serve : List Packet → List Packet → List Packet → ℕ → Option Packet × View
serve (p ∷ hs) ms ls n = (some p, record { highest = hs; middle = ms; lowest = ls; starving = n })
serve [] (p ∷ ms) [] n =
    (some p, record { highest = []; middle = ms; lowest = []; starving = bump n })
serve [] (p ∷ ms) (l ∷ ls) n =
    if ltb n max_starving
    then (some p, record { highest = []; middle = ms; lowest = l ∷ ls; starving = bump n })
    else (some l, record { highest = []; middle = p ∷ ms; lowest = ls; starving = n / 2 })
serve [] [] (l ∷ ls) n =
    (some l, record { highest = []; middle = []; lowest = ls; starving = n / 2 })
serve [] [] [] n = (none, record { highest = []; middle = []; lowest = []; starving = n })

abbrev pub next : View → Option Packet × View
next v = serve v.highest v.middle v.lowest v.starving

pub record Shows (q : Queue) (v : View) : Type 0 where
  pub highest : Contains q.highest v.highest
  pub middle : Contains q.middle v.middle
  pub lowest : Contains q.lowest v.lowest
  pub starving : q.starving ≡ v.starving

abbrev pub reply : Option Packet → Taken Packet
reply none = nothing
reply (some p) = taken p

-- One pop from a chain that answers `r`.
pub took_highest-eq :
    (q : Queue) (a : Taken Packet) (r : Taken Packet × Chain Packet)
    → r.0 ≡ a
    → took_highest q r ≡ (a, record q { highest = r.1 })
unfolding took_highest
took_highest-eq q a r e = rw e refl

pub took_middle-taken :
    (q : Queue) (p : Packet) (r : Taken Packet × Chain Packet)
    → r.0 ≡ taken p
    → took_middle q r ≡ (taken p, record q { middle = r.1; starving = bump q.starving })
unfolding took_middle
took_middle-taken q p r e = ground arith

pub took_middle-nothing :
    (q : Queue) (r : Taken Packet × Chain Packet)
    → r.0 ≡ nothing
    → took_middle q r ≡ (nothing, record q { middle = r.1 })
unfolding took_middle
took_middle-nothing q r e = ground arith

took_lowest-taken :
    (q : Queue) (p : Packet) (r : Taken Packet × Chain Packet)
    → r.0 ≡ taken p
    → took_lowest q r ≡ (taken p, record q { lowest = r.1; starving = q.starving / 2 })
unfolding took_lowest
took_lowest-taken q p r e = ground arith

took_lowest-nothing :
    (q : Queue) (r : Taken Packet × Chain Packet)
    → r.0 ≡ nothing
    → took_lowest q r ≡ (nothing, record q { lowest = r.1 })
unfolding took_lowest
took_lowest-nothing q r e = ground arith

abbrev pub Answers : Taken Packet × Queue → Option Packet × View → Type 0
Answers r s = (r.0 ≡ reply s.0) × Shows r.1 s.1

-- The last two stages of a pop.
unfoldable pub last : Queue → Taken Packet × Queue
last q = middle_if (ltb 0 q.starving) q

unfoldable pub lower : Queue → Taken Packet × Queue
lower q = or_else (took_lowest q (Chain.pop q.lowest)) last

last-empty :
    (q : Queue) (n : ℕ)
    → Shows q (record { highest = []; middle = []; lowest = []; starving = n })
    → Answers (last q) (serve [] [] [] n)
unfolding last middle_if
last-empty q n s = elim (Bool-cases (ltb 0 q.starving)) [
  | inl pos ↦
      let (a, c) = pop-Pops q.middle [] s.middle in
      rw (pos, middle_if, took_middle-nothing q (Chain.pop q.middle) a)
        (refl, record { highest = s.highest; middle = c; lowest = s.lowest; starving = s.starving })
  | inr none_left ↦ rw (none_left, middle_if) (refl, s)
]

lower-empty :
    (q : Queue) (n : ℕ)
    → Shows q (record { highest = []; middle = []; lowest = []; starving = n })
    → Answers (lower q) (serve [] [] [] n)
unfolding lower or_else
lower-empty q n s =
    let (a, c) = pop-Pops q.lowest [] s.lowest in
    rw (took_lowest-nothing q (Chain.pop q.lowest) a) (
      last-empty (record q { lowest = (Chain.pop q.lowest).1 }) n
        (record { highest = s.highest; middle = s.middle; lowest = c; starving = s.starving }))

lower-data :
    (q : Queue) (ms ls : List Packet) (l : Packet) (n : ℕ)
    → Shows q (record { highest = []; middle = ms; lowest = l ∷ ls; starving = n })
    → Answers
        (lower q)
        (some l, record { highest = []; middle = ms; lowest = ls; starving = n / 2 })
unfolding lower or_else
lower-data q ms ls l n s =
    let (a, c) = pop-Pops q.lowest (l ∷ ls) s.lowest in
    rw (took_lowest-taken q l (Chain.pop q.lowest) a) (
      refl,
      record {
        highest = s.highest;
        middle = s.middle;
        lowest = c;
        starving = ap (λ k. k / 2) s.starving;
      },
    )

last-late :
    (q : Queue) (ms : List Packet) (p : Packet) (n : ℕ)
    → 0 < n
    → Shows q (record { highest = []; middle = p ∷ ms; lowest = []; starving = n })
    → Answers (last q) (serve [] (p ∷ ms) [] n)
unfolding last middle_if
last-late q ms p n pos s =
    let (a, c) = pop-Pops q.middle (p ∷ ms) s.middle in
    let some_waited : ltb 0 q.starving ≡ true = lt→ltb 0 q.starving (omega (arith, s.starving)) in
    rw (some_waited, middle_if, took_middle-taken q p (Chain.pop q.middle) a)
      (
        refl,
        record {
          highest = s.highest;
          middle = c;
          lowest = s.lowest;
          starving = ap bump s.starving;
        },
      )

lower-late :
    (q : Queue) (ms : List Packet) (p : Packet) (n : ℕ)
    → 0 < n
    → Shows q (record { highest = []; middle = p ∷ ms; lowest = []; starving = n })
    → Answers (lower q) (serve [] (p ∷ ms) [] n)
unfolding lower or_else
lower-late q ms p n pos s =
    let (a, c) = pop-Pops q.lowest [] s.lowest in
    rw (took_lowest-nothing q (Chain.pop q.lowest) a) (
      last-late (record q { lowest = (Chain.pop q.lowest).1 }) ms p n pos
        (record { highest = s.highest; middle = s.middle; lowest = c; starving = s.starving }))

-- What is left of a pop when there is no ping.
unfoldable pub upper : Queue → Taken Packet × Queue
upper q = or_else (middle_if (ltb q.starving max_starving) q) lower

-- The middle chain is passed over.
pub upper-waits :
    (q : Queue) (ms ls : List Packet) (n : ℕ)
    → (ms ≡ []) ⊎ (max_starving ≤ n)
    → Shows q (record { highest = []; middle = ms; lowest = ls; starving = n })
    → Answers (lower q) (serve [] ms ls n)
upper-waits q [] [] n w s = lower-empty q n s
upper-waits q [] (l ∷ ls) n w s = lower-data q [] ls l n s
upper-waits q (p ∷ ms) [] n (inl w) s = absurd (ground arith)
upper-waits q (p ∷ ms) [] n (inr w) s = lower-late q ms p n (omega arith) s
upper-waits q (p ∷ ms) (l ∷ ls) n (inl w) s = absurd (ground arith)
upper-waits q (p ∷ ms) (l ∷ ls) n (inr w) s =
    rw (ge→ltb n max_starving w) (lower-data q (p ∷ ms) ls l n s)
