-- ===== src/Mux/Window/Receive/Closing.antt =====
-- CloseWindow and release of receiveWindow (lib/nps_mux/conn.go).
use nps.Prelude.{List, [], ◌∷◌, none, true}
use nps.Mux.Window.Send.{Frame}
use nps.Mux.Window.Receive.Queue.{ReceiveQueue}
use nps.Mux.Window.Receive.Queue
use nps.Mux.Window.Receive.{ReceiveWindow, stop}

-- The loop of release, over the elements in the queue.
unfoldable pub release_items : List Frame → ReceiveQueue → ReceiveQueue
release_items [] q = q
release_items (e ∷ es) q = release_items es (Queue.popped q e es)

-- release; the buffers go back to their pool
unfoldable pub release : ReceiveWindow → ReceiveWindow
unfolding release_items
release w = record w { element = none; queue = release_items w.queue.items w.queue }

-- CloseWindow
unfoldable pub close_window : ReceiveWindow → ReceiveWindow
unfolding release stop
close_window w = release (stop (record w { closed = true }))
