-- ===== src/Mux/Accept/Order.antt =====
-- Sequences of calls of connQueue (lib/nps_mux/queue.go), and the order of their answers.
use nps.Prelude.{
  ℕ, ◌≡◌, refl, ap, ◌∙◌, List, [], ◌∷◌, ◌++◌, Bool, true, false, if◌then◌else◌, Bool-cases, inl,
  inr, arith,
}
use nps.Mux.Chain
use nps.Mux.Chain.{Chain, Taken, nothing, stuck, taken}
use nps.Mux.Chain.Contains.{Contains, push-Contains, pop-Pops}
use nps.Mux.Accept.{ConnQueue, push, Accepted, connection, stopped, waits, try_pop, pop, close}

-- What producers, Accept and the mux's end do, in the order of the lock.
pub data Event : Type 0 where
  arrives : ℕ → Event
  accepts ends : Event

-- What Accept is answered.
unfoldable pub run : ConnQueue → List Event → List Accepted
run q [] = []
run q (arrives c ∷ es) = run (push q c).1 es
run q (accepts ∷ es) = (pop q).0 ∷ run (pop q).1 es
run q (ends ∷ es) = run (close q) es

-- The same on the list of the connections that wait.
unfoldable pub run_list : Bool → List ℕ → List Event → List Accepted
run_list stop xs [] = []
run_list stop xs (arrives c ∷ es) = run_list stop (if stop then xs else xs ++ (c ∷ [])) es
run_list stop [] (accepts ∷ es) = (if stop then stopped else waits) ∷ run_list stop [] es
run_list stop (x ∷ xs) (accepts ∷ es) = connection x ∷ run_list stop xs es
run_list stop xs (ends ∷ es) = run_list true xs es

push-ended : (q : ConnQueue) (c : ℕ) → q.stop ≡ true → (push q c).1 ≡ q
unfolding push
push-ended q c e = ground arith

push-going :
    (q : ConnQueue) (c : ℕ)
    → q.stop ≡ false
    → (push q c).1 ≡ record q { chain = Chain.push q.chain c }
unfolding push
push-going q c e = ground arith

if-true : (x y : List ℕ) (b : Bool) → b ≡ true → x ≡ (if b then x else y)
if-true x y b e = rw e refl

if-false : (x y : List ℕ) (b : Bool) → b ≡ false → y ≡ (if b then x else y)
if-false x y b e = rw e refl

-- If the queue contains some connections, any sequence of arrivals, Accepts and Stops is answered
-- as by their list: in order, no new ones after Stop, those left at Stop still handed out, and a
-- wait only on an empty queue that is not stopped.
pub run-list :
    (es : List Event) (q : ConnQueue) (xs : List ℕ)
    → Contains q.chain xs
    → run q es ≡ run_list q.stop xs es
unfolding run run_list push pop close
run-list [] q xs h = refl
run-list (arrives c ∷ es) q xs h = elim (Bool-cases q.stop) [
  | inl ended ↦
      ap (λ k. run k es) (push-ended q c ended)
      ∙ run-list es q xs h
      ∙ ap (λ ys. run_list q.stop ys es) (if-true xs (xs ++ (c ∷ [])) q.stop ended)
  | inr going ↦
      ap (λ k. run k es) (push-going q c going)
      ∙ run-list es (record q { chain = Chain.push q.chain c }) (xs ++ (c ∷ []))
          (push-Contains q.chain xs c h)
      ∙ ap (λ ys. run_list q.stop ys es) (if-false xs (xs ++ (c ∷ [])) q.stop going)
]
run-list (accepts ∷ es) q [] h =
    let (e, h') = pop-Pops q.chain [] h in
    rw e (ap (◌∷◌ (if q.stop then stopped else waits)) (run-list es (try_pop q).1 [] h'))
run-list (accepts ∷ es) q (x ∷ xs) h =
    let (e, h') = pop-Pops q.chain (x ∷ xs) h in
    rw e (ap (◌∷◌ (connection x)) (run-list es (try_pop q).1 xs h'))
run-list (ends ∷ es) q xs h = run-list es (close q) xs h
