-- ===== src/Mux/Chain.antt =====
-- bufChain of lib/nps_mux/queue.go: rings linked from the one that is read (the tail) to the one
-- that is written (the head); a full head gets a successor of twice its size. A call runs under its
-- queue's lock: the flag newChain is clear when a push starts, and no other consumer moves the tail.
pub mod Contains
use nps.Prelude.{
  ℕ, ◌*◌, Option, none, some, List, [], ◌∷◌, ◌++◌, Bool, true, false, length, leb, if◌then◌else◌,
}
use nps.Mux.Deque.{Deque, Popped, empty, spins, popped, dequeue_limit, make, push_head, pop_tail}

-- The links from the tail's ring to the head's, as a list of the rings before the head.
pub record Chain {ℓ} (A : Type ℓ) : Type ℓ where
  pub older : List (Deque A)
  pub head : Deque A

-- What popTail of the chain answers: (nil, false), a value, or nothing for ever.
pub data Taken {ℓ} (A : Type ℓ) : Type ℓ where
  nothing stuck : Taken A
  taken : A → Taken A

-- The size of the next ring.
unfoldable pub next_size : ℕ → ℕ
next_size size = if leb dequeue_limit (size * 2) then dequeue_limit else size * 2

module _ {ℓ} {A : Type ℓ} where
  -- new(initSize)
  unfoldable pub new : ℕ → Chain A
  new size = record { older = []; head = make size }

  place : Chain A → A → Deque A × Bool → Chain A
  place c val (d, true) = record c { head = d }
  place c val (d, false) = record {
    older = c.older ++ (d ∷ []);
    head = (push_head (make (next_size (length d.vals))) val).0;
  }

  pub push : Chain A → A → Chain A
  unfolding place
  push c val = place c val (push_head c.head val)

  pop_from : List (Deque A) → Deque A → Taken A × Chain A
  pop_from [] head = elim (pop_tail head) [
    | empty ↦ (nothing, record { older = []; head = head })
    | spins ↦ (stuck, record { older = []; head = head })
    | popped val d ↦ (taken val, record { older = []; head = d })
  ]
  pop_from (d ∷ ds) head = elim (pop_tail d) [
    | empty ↦ pop_from ds head
    | spins ↦ (stuck, record { older = d ∷ ds; head = head })
    | popped val e ↦ (taken val, record { older = e ∷ ds; head = head })
  ]

  pub pop : Chain A → Taken A × Chain A
  unfolding pop_from
  pop c = pop_from c.older c.head
