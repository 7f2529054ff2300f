-- ===== src/Mux/Session/Steps.antt =====
-- What can happen to a Mux (lib/nps_mux) in one step, in the order in which the steps take effect.
use nps.Prelude.{ℕ, ◌≡◌, ◌≢◌, List, some, Bool}
use nps.Mux.Packet.{Packet, mux_new_conn}
use nps.Mux.Window.Receive.{Estimate}
use nps.Mux.Session.{Mux, new, conn_at, close, close_conn}
use nps.Mux.Session.Opening.{Signal, start, connect, settle}
use nps.Mux.Session.Accepting.{turn, select, accept}
use nps.Mux.Session.Arrivals.{arrive, drain, tick}
use nps.Mux.Session.Calls.{read, write, write_session}
use nps.Mux.Session.Growing.{IsUnused}
use nps.Mux.Session.Keeping.{Arriving, start_id}

-- `starts` and `selects` are NewConn and Accept past the test that the mux is open, which may be
-- closed by now. What NewConn and the peer may do is limited: neither gives a connection a number
-- that an arriving one, or for the peer an open one, has.
pub data Step : Mux → Mux → Type 0 where
  connects :
      (m : Mux)
      → ((id c : ℕ) → start_id m ≡ some id → Arriving m c → (conn_at m c).id ≢ id)
      → Step m (connect m).1
  starts :
      (m : Mux)
      → ((id c : ℕ) → start_id m ≡ some id → Arriving m c → (conn_at m c).id ≢ id)
      → Step m (start m).1
  settles : (m : Mux) (c : ℕ) (s : Signal) → Step m (settle m c s).1
  turns : (m : Mux) → Step m (turn m)
  accepts : (m : Mux) → Step m (accept m).1
  selects : (m : Mux) → Step m (select m).1
  arrives :
      (m : Mux) (p : Packet) (e : Estimate)
      → (p.flag ≡ mux_new_conn → IsUnused m p.id)
      → Step m (arrive m p e)
  drains : (m : Mux) (c : ℕ) → Step m (drain m c)
  ticks : (m : Mux) (now : List ℕ) → Step m (tick m now)
  reads : (m : Mux) (c room : ℕ) → Step m (read m c room).1
  writes : (m : Mux) (c : ℕ) (buf : List ℕ) → Step m (write m c buf).1
  closes : (m : Mux) (c : ℕ) → Step m (close_conn m c)
  sends : (m : Mux) (broken : Bool) → Step m (write_session m broken).1
  ends : (m : Mux) → Step m (close m).1

-- The states that a new mux comes to.
pub data Reaches (threshold : ℕ) : Mux → Type 0 where
  begins : Reaches threshold (new threshold)
  goes : (m m' : Mux) → Reaches threshold m → Step m m' → Reaches threshold m'
