-- ===== src/Mux/Window/Receive/Queue.antt =====
-- receiveWindowQueue of lib/nps_mux/queue.go: the elements that wait to be read, with the sum of
-- their lengths as a uint32. Notifications only wake a waiting reader, and are left out.
use nps.Prelude.{
  ℕ, ◌+◌, ◌-◌, ◌%◌, ◌^◌, List, [], ◌∷◌, ◌++◌, Bool, true, false, length, leb, if◌then◌else◌,
}
use nps.Mux.Window.Send.{Frame}

pub record ReceiveQueue : Type 0 where
  pub length : ℕ
  pub items : List Frame
  pub stopped : Bool

unfoldable pub new : ReceiveQueue
new = record { length = 0; items = []; stopped = false }

-- Push of an element that is not nil; a stopped queue discards it.
unfoldable pub push : ReceiveQueue → Frame → ReceiveQueue
push q e =
    if q.stopped
    then q
    else record q { length = (q.length + length e.buf) % 2 ^ 32; items = q.items ++ (e ∷ []) }

-- popLocked, once the chain has given up its oldest element
unfoldable pub popped : ReceiveQueue → Frame → List Frame → ReceiveQueue
popped q e rest = record q {
  length = if leb (length e.buf) q.length then q.length - length e.buf else 0;
  items = rest;
}

-- Stop
unfoldable pub stop : ReceiveQueue → ReceiveQueue
stop q = record q { stopped = true }
