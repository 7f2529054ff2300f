-- ===== src/Mux/Priority/Fair.antt =====
-- Sequences of calls of priorityQueue (lib/nps_mux/queue.go), and the order of the frames.
use native.Mathlib.Decide.{dec_lt}
use nps.Prelude.{
  ℕ, suc, ◌+◌, ◌≤◌, ◌<◌, ◌≡◌, refl, List, [], ◌∷◌, ◌++◌, Option, none, some, false, arith, All,
  length, Bool-cases, inl, inr, lt→ltb, ge→ltb, ◌-◌, subst, sym, ap, ◌%◌,
}
use nps.Mux.Chain.{Taken, nothing, stuck, taken}
use nps.Mux.Packet.{Packet}
use nps.Mux.Priority.{Queue, max_starving, is_ping, is_opening, push_locked, try_pop}
use nps.Mux.Priority.Refine.{try_pop-Answers, push_locked-Shows}
use nps.Mux.Priority.Views.{View, put, next, Shows, reply}

-- What producers and the writer do to the open queue, in the order of the lock.
pub data Event : Type 0 where
  pushed : Packet → Event
  popping : Event

-- The packets that the pops return.
collect : Taken Packet → List Packet → List Packet
collect (taken p) out = p ∷ out
collect nothing out = out
collect stuck out = out

pub run : Queue → List Event → List Packet
unfolding collect
run q [] = []
run q (pushed p ∷ es) = run (push_locked q p) es
run q (popping ∷ es) = collect (try_pop q).0 (run (try_pop q).1 es)

abbrev given : Option Packet → List Packet → List Packet
given none out = out
given (some p) out = p ∷ out

pub run_view : View → List Event → List Packet
run_view v [] = []
run_view v (pushed p ∷ es) = run_view (put v p) es
run_view v (popping ∷ es) = given (next v).0 (run_view (next v).1 es)

collect-reply : (o : Option Packet) (out : List Packet) → collect (reply o) out ≡ given o out
unfolding collect
collect-reply none out = refl
collect-reply (some p) out = refl

-- If the queue shows three lists and a count, any sequence of pushes and pops returns the packets
-- that the lists return.
pub run-Shows : (q : Queue) (v : View) (es : List Event) → Shows q v → run q es ≡ run_view v es
unfolding run run_view
run-Shows q v [] s = refl
run-Shows q v (pushed p ∷ es) s =
    run-Shows (push_locked q p) (put v p) es (push_locked-Shows q v p s)
run-Shows q v (popping ∷ es) s =
    let (a, s') = try_pop-Answers q v s in
    rw (a, run-Shows (try_pop q).1 (next v).1 es s') (collect-reply (next v).0 _)

abbrev pub pops : List Event → ℕ
pops [] = 0
pops (pushed p ∷ es) = pops es
pops (popping ∷ es) = suc (pops es)

abbrev pub NoPing : Event → Type 0
NoPing (pushed p) = is_ping p.flag ≡ false
NoPing popping = Unit

-- The packet is among those returned, behind at most so many others.
abbrev pub ServedWithin : ℕ → Packet → List Packet → Type 0
ServedWithin k x out =
    (before : List Packet) × (after : List Packet) × (out ≡ before ++ (x ∷ after))
    × (length before ≤ k)

-- The abstract queue when no ping waits.
abbrev calm : List Packet → List Packet → ℕ → View
calm ms ls n = record { highest = []; middle = ms; lowest = ls; starving = n }

-- A push that is no ping keeps the oldest data in front.
put-calm :
    (ms ls : List Packet) (n : ℕ) (p : Packet)
    → is_ping p.flag ≡ false
    → (ms' : List Packet) × (ls' : List Packet) × ((l : Packet)
        → put (calm ms (l ∷ ls) n) p ≡ calm ms' (l ∷ ls') n)
put-calm ms ls n p quiet = elim (Bool-cases (is_opening p.flag)) [
  | inl opening ↦ (ms ++ (p ∷ []), ls, λ l. rw (quiet, opening))
  | inr message ↦ (ms, ls ++ (p ∷ []), λ l. rw (quiet, message))
]

within-calm :
    (es : List Event) (ms ls : List Packet) (l : Packet) (n : ℕ)
    → All NoPing es
    → 0 < pops es
    → max_starving < n + pops es
    → ServedWithin (max_starving - n) l (run_view (calm ms (l ∷ ls) n) es)
unfolding run_view
within-calm [] ms ls l n quiet some_pop enough = absurd (omega arith)
within-calm (pushed p ∷ es) ms ls l n quiet some_pop enough =
    let (ms', ls', e) = put-calm ms ls n p quiet.0 in
    rw (e l) (within-calm es ms' ls' l n quiet.1 some_pop enough)
within-calm (popping ∷ es) [] ls l n quiet some_pop enough = ([], _, refl, omega arith)
within-calm (popping ∷ es) (m ∷ ms) ls l n quiet some_pop enough = elim (dec_lt n max_starving) [
  | yes few ↦
      let counted : (n + 1) % 256 ≡ n + 1 = omega arith in
      let (before, after, e, k) =
        within-calm es ms ls l (n + 1) quiet.1 (omega arith) (omega arith) in
      rw (lt→ltb n max_starving few, counted) (m ∷ before, after, ap (◌∷◌ m) e, omega arith)
  | no many ↦ rw (ge→ltb n max_starving (omega arith)) ([], _, refl, omega arith)
]

-- If no ping waits or comes in and data waits, then in any sequence of pushes and pops whose pops
-- and count together exceed eight, with one pop at least, the oldest data packet is returned,
-- behind at most eight less the count others.
pub within :
    (q : Queue) (v : View) (es : List Event) (l : Packet) (ls : List Packet)
    → Shows q v
    → v.highest ≡ []
    → v.lowest ≡ l ∷ ls
    → All NoPing es
    → 0 < pops es
    → max_starving < v.starving + pops es
    → ServedWithin (max_starving - v.starving) l (run q es)
within q v es l ls s calm_now waiting quiet some_pop enough = rw (run-Shows q v es s) (
    subst (λ w. ServedWithin (max_starving - v.starving) l (run_view w es))
      (λ i. record {
        highest = sym calm_now i;
        middle = v.middle;
        lowest = sym waiting i;
        starving = v.starving;
      })
      (within-calm es v.middle ls l v.starving quiet some_pop enough))
