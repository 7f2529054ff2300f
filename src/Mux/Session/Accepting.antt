-- ===== src/Mux/Session/Accepting.antt =====
-- The connections that the peer opens: the goroutine of readSession that takes them from
-- newConnQueue, releaseNewConnQueue and Accept (lib/nps_mux/mux.go).
use nps.Prelude.{ℕ, List, [], ◌∷◌, if◌then◌else◌}
use nps.Mux.Packet.{nothing, mux_new_conn_ok}
use nps.Mux.Session.ConnMap
use nps.Mux.Session.{
  Loop, idle, pops, holds, offers, confirms, ended, Mux, conn_at, send_info, close_conn,
  close_conns,
}

-- The end of the goroutine: releaseNewConnQueue
unfoldable pub end_loop : Mux → Mux
end_loop m = close_conns (record m { loop = ended; new_conn_queue = [] }) m.new_conn_queue

-- After Pop: nil, and what it would wait for; or a connection and the second test
unfoldable pub popped : Mux → List ℕ → Mux
unfolding end_loop
popped m [] = if m.queue_stop then end_loop m else m
popped m (c ∷ rest) =
    let m' = record m { new_conn_queue = rest } in
    if m.is_close then end_loop (close_conn m' c) else record m' { loop = holds c }

-- A turn of the goroutine, by where it stands; an offer goes on by Accept.
unfoldable pub turn_at : Mux → Loop → Mux
unfolding end_loop popped
turn_at m idle = if m.is_close then end_loop m else record m { loop = pops }
turn_at m pops = popped m m.new_conn_queue
turn_at m (holds c) = record m {
  conn_map = ConnMap.set m.conn_map (conn_at m c).id c;
  loop = offers c;
}
turn_at m (offers c) = if m.is_close then end_loop (close_conn m c) else m
turn_at m (confirms c) =
    (send_info (record m { loop = idle }) mux_new_conn_ok (conn_at m c).id nothing).1
turn_at m ended = m

unfoldable pub turn : Mux → Mux
unfolding turn_at
turn m = turn_at m m.loop

-- What Accept answers.
pub data Accepted : Type 0 where
  mux_closed waits : Accepted
  accepted : ℕ → Accepted

-- The selects of Accept, by where the goroutine stands; when both cases are ready, newConnCh
-- receives.
unfoldable pub receive : Mux → Loop → Accepted × Mux
receive m (offers c) =
    let m' = record m { loop = confirms c } in
    if m.is_close then (mux_closed, close_conn m' c) else (accepted c, m')
receive m idle = (waits, m)
receive m pops = (waits, m)
receive m (holds c) = (waits, m)
receive m (confirms c) = (waits, m)
receive m ended = (waits, m)

-- Accept past its first tests
unfoldable pub select : Mux → Accepted × Mux
unfolding receive
select m = receive m m.loop

-- Accept
unfoldable pub accept : Mux → Accepted × Mux
unfolding select
accept m = if m.is_close then (mux_closed, m) else select m
