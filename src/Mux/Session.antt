-- ===== src/Mux/Session.antt =====
-- Mux of lib/nps_mux/mux.go with its connections (conn.go and map.go): the state, what is sent, and
-- how a connection and the mux are closed. A connection is its place in `conns`. The goroutines take
-- turns; a turn ends where another goroutine's change would be seen.
pub mod ConnMap
pub mod Opening
pub mod Accepting
pub mod Arrivals
pub mod Calls
pub mod Tracked
pub mod Shutting
pub mod Growing
pub mod Keeping
pub mod Roaming
pub mod Waiting
pub mod Handling
pub mod Numbers
pub mod Reading
pub mod Draining
pub mod Steps
pub mod Reached
pub mod Released
pub mod Settled
pub mod Pings
pub mod Isolated
use nps.Prelude.{ℕ, List, [], ◌∷◌, Bool, true, false, get_or, set, if◌then◌else◌}
use nps.Mux.Packet.{Packet, Payload, nothing, SetResult, ok, err, set_packet, mux_conn_close}
use nps.Mux.Priority
use nps.Mux.Window.Send
use nps.Mux.Window.Send.{SendWindow}
use nps.Mux.Window.Receive.{ReceiveWindow}
use nps.Mux.Window.Receive
use nps.Mux.Window.Receive.Closing
use ConnMap.{connections}
use ConnMap

-- conn. `status_ok` and `status_fail` tell whether the one place of connStatusOkCh and
-- connStatusFailCh is taken, and `drain_timer` whether the timer runs. closeProcess sets is_close
-- and nothing else does, so the Once of Close is spent when it is set.
pub record Conn : Type 0 where
  pub id : ℕ
  pub is_close : Bool
  pub closing : Bool
  pub status_ok : Bool
  pub status_fail : Bool
  pub drain_timer : Bool
  pub sender : SendWindow
  pub receiver : ReceiveWindow

-- NewConn of conn.go
unfoldable pub new_conn : ℕ → Conn
new_conn id = record {
  id = id;
  is_close = false;
  closing = false;
  status_ok = false;
  status_fail = false;
  drain_timer = false;
  sender = Send.new;
  receiver = Receive.new;
}

-- The goroutine that takes connections from newConnQueue: at the test of its loop, in Pop, with a
-- connection not in the map yet, before newConnCh, before it sends muxNewConnOk, or at its end.
pub data Loop : Type 0 where
  idle pops ended : Loop
  holds offers confirms : ℕ → Loop

-- Mux. newConnQueue is the list of its connections (Mux/Accept), and queue_stop its flag; closeChan
-- is closed together with is_close.
pub record Mux : Type 0 where
  pub is_close : Bool
  pub conns : List Conn
  pub conn_map : List (ℕ × ℕ)
  pub id : ℕ
  pub write_queue : Priority.Queue
  pub new_conn_queue : List ℕ
  pub queue_stop : Bool
  pub loop : Loop
  pub ping_check_time : ℕ
  pub ping_check_threshold : ℕ

-- NewMux, for the threshold of the pings
unfoldable pub new : ℕ → Mux
new threshold = record {
  is_close = false;
  conns = [];
  conn_map = [];
  id = 0;
  write_queue = Priority.new;
  new_conn_queue = [];
  queue_stop = false;
  loop = idle;
  ping_check_time = 0;
  ping_check_threshold = threshold;
}

-- The connection at a place; beyond the last there is none, and that one counts as closed.
abbrev pub no_conn : Conn
unfolding new_conn
no_conn = record (new_conn 0) { is_close = true }

unfoldable pub conn_at : Mux → ℕ → Conn
conn_at m c = get_or m.conns c no_conn

abbrev pub put_conn : Mux → ℕ → Conn → Mux
put_conn m c conn = record m { conns = set m.conns c conn }

-- sendInfo, once the packet is made
unfoldable pub send_packet : Mux → Packet → Bool × Mux
send_packet m p =
    if m.is_close
    then (false, m)
    else (true, record m { write_queue = (Priority.push m.write_queue p).0 })

-- sendInfo of muxConnClose, whose Set cannot fail
unfoldable pub send_close : Mux → ℕ → Mux
unfolding send_packet
send_close m id =
    (send_packet m
      (record { flag = mux_conn_close; id = id; window = 0; size = 0; content = [] })).1

-- What closeProcess leaves of the connection.
unfoldable pub shut : Conn → Conn
shut conn = record conn {
  is_close = true;
  drain_timer = false;
  sender = Send.close_window conn.sender;
  receiver = Receive.Closing.close_window conn.receiver;
}

-- closeProcess
unfoldable pub close_process : Mux → ℕ → Mux
unfolding send_close shut
close_process m c =
    let conn = conn_at m c in
    let gone = record m {
      conns = set m.conns c (shut conn);
      conn_map = ConnMap.delete m.conn_map conn.id;
    } in
    if m.is_close then gone else send_close gone conn.id

-- Close of conn
unfoldable pub close_conn : Mux → ℕ → Mux
unfolding close_process
close_conn m c = if (conn_at m c).is_close then m else close_process m c

unfoldable pub close_conns : Mux → List ℕ → Mux
close_conns m [] = m
close_conns m (c ∷ cs) = close_conns (close_conn m c) cs

-- Close, for a mux that is open, and its connMap.Close
unfoldable pub close_open : Mux → Mux
unfolding close_conns connections
close_open m =
    close_conns
      (record m {
        is_close = true;
        write_queue = Priority.close m.write_queue;
        queue_stop = true;
        conn_map = [];
      })
      (connections m.conn_map)

-- Close of Mux; the flag says that it was open
unfoldable pub close : Mux → Bool × Mux
unfolding close_open
close m = if m.is_close then (false, m) else (true, close_open m)

unfoldable pub send_result : Mux → SetResult → Bool × Mux
unfolding send_packet close
send_result m (ok p) = send_packet m p
send_result m (err e) = (false, (close m).1)

-- sendInfo
unfoldable pub send_info : Mux → ℕ → ℕ → Payload → Bool × Mux
unfolding send_result
send_info m flag id payload = send_result m (set_packet flag id payload)
