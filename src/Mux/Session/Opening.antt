-- ===== src/Mux/Session/Opening.antt =====
-- Opening a connection: getId and NewConn of Mux (lib/nps_mux/mux.go).
use nps.Prelude.{
  ℕ, zero, suc, ◌+◌, ◌-◌, ◌^◌, Option, none, some, List, [], ◌∷◌, ◌++◌, Bool, true, false, length,
  ltb, if◌then◌else◌,
}
use nps.Mux.Packet.{nothing, mux_new_conn}
use nps.Mux.Session.ConnMap
use nps.Mux.Session.{Mux, new_conn, conn_at, put_conn, send_info, close_conn}

-- math.MaxInt32
abbrev pub max_int32 : ℕ
max_int32 = 2 ^ 31 - 1

-- The counter as a turn of getId leaves it.
abbrev pub next_id : ℕ → ℕ
next_id current = (if ltb (max_int32 - current) 10000 then 0 else current) + 1

-- The number, unless the map has it already.
unfoldable pub unless_taken : Option ℕ → ℕ → Option ℕ → Option ℕ
unless_taken none id later = some id
unless_taken (some c) id later = later

-- getId; without another goroutine the swap succeeds. The number is also the new counter.
unfoldable pub get_id : ℕ → List (ℕ × ℕ) → ℕ → Option ℕ
unfolding unless_taken
get_id zero m current = none
get_id (suc fuel) m current =
    let id = next_id current in unless_taken (ConnMap.get m id) id (get_id fuel m id)

-- What NewConn answers: an error since the mux is closed, since the peer rejected or did not answer,
-- or the connection; until then it waits. `spins`: getId has found no number.
pub data Opened : Type 0 where
  mux_closed rejected timed_out spins : Opened
  waits opened : ℕ → Opened

-- The mux once the connection is made and Set.
unfoldable pub with_conn : Mux → ℕ → Mux
unfolding new_conn
with_conn m id = record m {
  id = id;
  conns = m.conns ++ (new_conn id ∷ []);
  conn_map = ConnMap.set m.conn_map id (length m.conns);
}

-- After sendInfo
unfoldable pub sent : ℕ → Bool × Mux → Opened × Mux
sent c (true, m) = (waits c, m)
sent c (false, m) = (mux_closed, close_conn m c)

unfoldable pub begin : Mux → Option ℕ → Opened × Mux
unfolding sent with_conn
begin m none = (spins, m)
begin m (some id) = sent (length m.conns) (send_info (with_conn m id) mux_new_conn id nothing)

-- NewConn past its first test, up to the last select
unfoldable pub start : Mux → Opened × Mux
start m = begin m (get_id (suc (length m.conn_map)) m.conn_map m.id)

-- NewConn up to the last select
unfoldable pub connect : Mux → Opened × Mux
unfolding start
connect m = if m.is_close then (mux_closed, m) else start m

-- The cases of the selects.
pub data Signal : Type 0 where
  by_ok by_fail by_close by_timer : Signal

-- The rest of NewConn, when a select takes the case; a case that is not ready leaves it waiting.
unfoldable pub settle : Mux → ℕ → Signal → Opened × Mux
settle m c by_ok =
    let conn = conn_at m c in
    let m' = put_conn m c (record conn { status_ok = false }) in
    if conn.status_ok
    then (if m.is_close then (mux_closed, close_conn m' c) else (opened c, m'))
    else (waits c, m)
settle m c by_fail =
    let conn = conn_at m c in
    let m' = put_conn m c (record conn { status_fail = false }) in
    if conn.status_fail then (rejected, close_conn m' c) else (waits c, m)
settle m c by_close = if m.is_close then (mux_closed, close_conn m c) else (waits c, m)
settle m c by_timer = (timed_out, close_conn m c)
