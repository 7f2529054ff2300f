-- ===== src/Mux/Priority.antt =====
-- priorityQueue of lib/nps_mux/queue.go: three chains of packets, served by urgency, with a count
-- that keeps the middle chain from holding up the lowest for ever. A call holds the queue's lock;
-- where Pop would wait on the condition variable, the model says so.
pub mod Views
pub mod Refine
pub mod Fair
use nps.Prelude.{ℕ, ◌+◌, ◌/◌, ◌%◌, Bool, true, false, ◌||◌, ltb, ◌==◌, if◌then◌else◌}
use nps.Mux.Chain
use nps.Mux.Chain.{Chain, Taken, nothing, stuck, taken}
use nps.Mux.Packet.{
  Packet, mux_ping_flag, mux_ping_return, mux_new_conn, mux_new_conn_ok, mux_new_conn_fail,
}

pub record Queue : Type 0 where
  pub highest : Chain Packet
  pub middle : Chain Packet
  pub lowest : Chain Packet
  pub starving : ℕ
  pub stop : Bool

-- maxStarving; the counter is a uint8
abbrev pub max_starving : ℕ
max_starving = 8

abbrev pub bump : ℕ → ℕ
bump starving = (starving + 1) % 256

-- New
pub new : Queue
new = record {
  highest = Chain.new 4;
  middle = Chain.new 32;
  lowest = Chain.new 256;
  starving = 0;
  stop = false;
}

-- The cases of the switch in push.
unfoldable pub is_ping : ℕ → Bool
is_ping flag = flag == mux_ping_flag || flag == mux_ping_return

unfoldable pub is_opening : ℕ → Bool
is_opening flag = flag == mux_new_conn || flag == mux_new_conn_ok || flag == mux_new_conn_fail

pub push_locked : Queue → Packet → Queue
push_locked q p =
    if is_ping p.flag
    then record q { highest = Chain.push q.highest p }
    else if is_opening p.flag
    then record q { middle = Chain.push q.middle p }
    else record q { lowest = Chain.push q.lowest p }

-- Push; the flag says whether the packet was taken in, and not released to its pool.
pub push : Queue → Packet → Queue × Bool
unfolding push_locked
push q p = if q.stop then (q, false) else (push_locked q p, true)

-- A pop from each of the chains, with what a packet does to the count.
pub took_highest : Queue → Taken Packet × Chain Packet → Taken Packet × Queue
took_highest q (r, c) = (r, record q { highest = c })

pub took_middle : Queue → Taken Packet × Chain Packet → Taken Packet × Queue
took_middle q (taken p, c) = (taken p, record q { middle = c; starving = bump q.starving })
took_middle q (nothing, c) = (nothing, record q { middle = c })
took_middle q (stuck, c) = (stuck, record q { middle = c })

pub took_lowest : Queue → Taken Packet × Chain Packet → Taken Packet × Queue
took_lowest q (taken p, c) = (
  taken p,
  record q { lowest = c; starving = if ltb 0 q.starving then q.starving / 2 else q.starving },
)
took_lowest q (nothing, c) = (nothing, record q { lowest = c })
took_lowest q (stuck, c) = (stuck, record q { lowest = c })

-- Go on when nothing was found.
pub or_else : Taken Packet × Queue → (Queue → Taken Packet × Queue) → Taken Packet × Queue
or_else (nothing, q) next = next q
or_else (taken p, q) next = (taken p, q)
or_else (stuck, q) next = (stuck, q)

pub middle_if : Bool → Queue → Taken Packet × Queue
middle_if true q = took_middle q (Chain.pop q.middle)
middle_if false q = (nothing, q)

-- tryPopLocked and TryPop
pub try_pop : Queue → Taken Packet × Queue
unfolding or_else
try_pop q0 = or_else (took_highest q0 (Chain.pop q0.highest)) λ q1.
    or_else (middle_if (ltb q1.starving max_starving) q1)
      λ q2. or_else (took_lowest q2 (Chain.pop q2.lowest)) λ q3. middle_if (ltb 0 q3.starving) q3

-- What Pop does: it returns a packet, returns nil, waits to be woken, or spins in a ring.
pub data Popped : Type 0 where
  packet : Packet → Popped
  stopped waits hangs : Popped

answer : Bool → Taken Packet → Popped
answer stop (taken p) = packet p
answer stop nothing = if stop then stopped else waits
answer stop stuck = hangs

pub pop : Queue → Popped × Queue
unfolding answer
pop q = let (r, q') = try_pop q in (answer q'.stop r, q')

-- Stop
pub close : Queue → Queue
close q = record q { stop = true }
