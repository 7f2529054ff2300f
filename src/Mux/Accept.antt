-- ===== src/Mux/Accept.antt =====
-- connQueue of lib/nps_mux/queue.go: the connections that wait for Accept, each by a number, in one
-- chain. A call holds the queue's lock; where Pop would wait, the model says so.
pub mod Order
use nps.Prelude.{ℕ, Bool, true, false, if◌then◌else◌}
use nps.Mux.Chain
use nps.Mux.Chain.{Chain, Taken, nothing, stuck, taken}

pub record ConnQueue : Type 0 where
  pub chain : Chain ℕ
  pub stop : Bool

-- New
unfoldable pub new : ConnQueue
new = record { chain = Chain.new 32; stop = false }

-- What becomes of a connection: it waits for Accept, or it is closed.
pub data Fate : Type 0 where
  queued closed : Fate

-- Push
unfoldable pub push : ConnQueue → ℕ → Fate × ConnQueue
push q connection =
    if q.stop then (closed, q) else (queued, record q { chain = Chain.push q.chain connection })

-- What Pop does: it returns a connection, returns nil, waits to be woken, or spins in a ring.
pub data Accepted : Type 0 where
  connection : ℕ → Accepted
  stopped waits hangs : Accepted

-- The end of Pop's loop, by what tryPopLocked found.
unfoldable pub accepted : Bool → Taken ℕ → Accepted
accepted stop (taken c) = connection c
accepted stop nothing = if stop then stopped else waits
accepted stop stuck = hangs

-- tryPopLocked and TryPop
unfoldable pub try_pop : ConnQueue → Taken ℕ × ConnQueue
try_pop q = let (r, chain) = Chain.pop q.chain in (r, record q { chain = chain })

-- Pop
unfoldable pub pop : ConnQueue → Accepted × ConnQueue
unfolding accepted try_pop
pop q = let (r, q') = try_pop q in (accepted q'.stop r, q')

-- Stop
unfoldable pub close : ConnQueue → ConnQueue
close q = record q { stop = true }
