-- ===== src/Mux/Session/Arrivals.antt =====
-- The packets that arrive: the reader of readSession and newMsg, closeRemoteInput with its timer,
-- and the pings (lib/nps_mux/mux.go and conn.go).
use nps.Prelude.{
  ℕ, ◌+◌, ◌-◌, ◌%◌, ◌^◌, Option, none, some, List, [], ◌∷◌, ◌++◌, true, ◌||◌, length, ltb, ◌==◌,
  if◌then◌else◌,
}
use nps.Mux.Packet.{
  Packet, bytes, window, mux_ping_flag, mux_new_conn_ok, mux_new_conn_fail, mux_new_msg,
  mux_new_msg_part, mux_msg_send_ok, mux_new_conn, mux_conn_close, mux_ping_return,
}
use nps.Mux.Window.Send
use nps.Mux.Window.Receive.{Estimate, Write, refused, wrote}
use nps.Mux.Window.Receive
use nps.Mux.Session.ConnMap
use nps.Mux.Session.{Mux, new_conn, conn_at, put_conn, send_info, close, close_conn}

-- The packets with which receiveWindow reports to its peer.
unfoldable pub report : Mux → ℕ → List ℕ → Mux
report m id [] = m
report m id (w ∷ ws) = report (send_info m mux_msg_send_ok id (window w)).1 id ws

-- The end of newMsg, and the reader's case of it
unfoldable pub delivered : Mux → ℕ → Write → Mux
unfolding report
delivered m c refused = close_conn m c
delivered m c (wrote w credits) =
    let conn = conn_at m c in report (put_conn m c (record conn { receiver = w })) conn.id credits

-- newMsg with the reader's case of it
unfoldable pub new_msg : Mux → ℕ → Packet → Estimate → Mux
unfolding delivered
new_msg m c p e =
    let conn = conn_at m c in
    if conn.is_close
    then close_conn m c
    else delivered m c (
        Receive.write conn.receiver (record { buf = p.content; part = p.flag == mux_new_msg_part })
          e)

-- closeRemoteInput
unfoldable pub close_remote_input : Mux → ℕ → Mux
close_remote_input m c =
    let conn = conn_at m c in
    if conn.is_close
    then m
    else put_conn m c
        (record conn { closing = true; receiver = Receive.stop conn.receiver; drain_timer = true })

-- The function of the drain timer, if it runs
unfoldable pub drain : Mux → ℕ → Mux
drain m c = if (conn_at m c).drain_timer then close_conn m c else m

-- The reader's case of muxNewConn, with Push of newConnQueue
unfoldable pub new_remote : Mux → ℕ → Mux
unfolding new_conn
new_remote m id =
    let c = length m.conns in
    let m' = record m { conns = m.conns ++ (new_conn id ∷ []) } in
    if m.is_close || m.queue_stop
    then close_conn m' c
    else record m' { new_conn_queue = m.new_conn_queue ++ (c ∷ []) }

-- The second switch of the reader, for a connection that is not closed. A full status channel takes
-- no more, so the reader never waits for it.
unfoldable pub for_conn : Mux → ℕ → Packet → Estimate → Mux
unfolding new_msg close_remote_input
for_conn m c p e =
    let conn = conn_at m c in
    if p.flag == mux_new_msg || p.flag == mux_new_msg_part
    then new_msg m c p e
    else if p.flag == mux_new_conn_ok
    then put_conn m c (record conn { status_ok = true })
    else if p.flag == mux_new_conn_fail
    then put_conn m c (record conn { status_fail = true })
    else if p.flag == mux_msg_send_ok
    then put_conn m c (record conn { sender = (Send.set_size conn.sender p.window).1 })
    else if p.flag == mux_conn_close
    then close_remote_input m c
    else m

unfoldable pub looked_up : Mux → Option ℕ → Packet → Estimate → Mux
unfolding for_conn
looked_up m none p e = m
looked_up m (some c) p e = if (conn_at m c).is_close then m else for_conn m c p e

-- A packet that the reader has unpacked. The return of a ping goes to its goroutine, which clears
-- pingCheckTime; on a closed mux nobody takes it.
unfoldable pub arrive : Mux → Packet → Estimate → Mux
unfolding looked_up new_remote
arrive m p e =
    if p.flag == mux_new_conn
    then new_remote m p.id
    else if p.flag == mux_ping_flag
    then (send_info m mux_ping_return (2 ^ 32 - 1) (bytes p.content)).1
    else if p.flag == mux_ping_return
    then (if m.is_close then m else record m { ping_check_time = 0 })
    else looked_up m (ConnMap.get m.conn_map p.id) p e

-- A tick of the goroutine that pings, `now` being the text of the time
unfoldable pub tick : Mux → List ℕ → Mux
tick m now =
    if m.is_close
    then m
    else if ltb m.ping_check_threshold m.ping_check_time
    then (close m).1
    else let m' = (send_info m mux_ping_flag (2 ^ 32 - 1) (bytes now)).1 in
      record m' { ping_check_time = (m'.ping_check_time + 1) % 2 ^ 32 }
