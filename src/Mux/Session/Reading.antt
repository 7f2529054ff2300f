-- ===== src/Mux/Session/Reading.antt =====
-- Read of conn (lib/nps_mux/conn.go), one call after another, and what it does to its connection.
use nps.Prelude.{
  ℕ, ◌<◌, ◌≡◌, refl, ap, ◌∙◌, List, [], ◌∷◌, ◌++◌, Bool, true, arith, if_both, get_or,
  get_or-set_self, ◌==◌,
}
use nps.Mux.Packet.{window, mux_msg_send_ok, set_packet, set_payload, has_content}
use nps.Mux.Window.Receive.{ReceiveWindow, Read, Ending, returned, eof, waiting, stop}
use nps.Mux.Window.Receive
use nps.Mux.Session.{Conn, Mux, no_conn, conn_at, put_conn, send_packet, send_result, send_info}
use nps.Mux.Session.Arrivals.{report}
use nps.Mux.Session.Calls.{Got, conn_closed, no_room, got, taken, read}
use nps.Mux.Session.Tracked.{IsOpen}
use nps.Mux.Session.Shutting.{open-lt-length}

-- The bytes of an answer.
abbrev pub bytes_of : Got → List ℕ
bytes_of conn_closed = []
bytes_of no_room = []
bytes_of (got bs e) = bs

-- One Read after another, into slices of these sizes, with all the bytes that they return.
unfoldable pub read_all : Mux → ℕ → List ℕ → List ℕ × Mux
read_all m c [] = ([], m)
read_all m c (room ∷ rooms) =
    let (bs, m') = read_all (read m c room).1 c rooms in (bytes_of (read m c room).0 ++ bs, m')

pub send_window-conns :
    (m : Mux) (id w : ℕ) → (send_info m mux_msg_send_ok id (window w)).1.conns ≡ m.conns
unfolding send_info send_result set_packet set_payload has_content send_packet
send_window-conns m id w =
    if_both (λ (r : Bool × Mux). r.1.conns ≡ m.conns) m.is_close (λ h. refl) (λ h. refl)

pub report-conns : (m : Mux) (id : ℕ) (ws : List ℕ) → (report m id ws).conns ≡ m.conns
unfolding report
report-conns m id [] = refl
report-conns m id (w ∷ ws) =
    report-conns (send_info m mux_msg_send_ok id (window w)).1 id ws ∙ send_window-conns m id w

pub put_self : (m : Mux) (c : ℕ) (conn : Conn) → IsOpen m c → conn_at (put_conn m c conn) c ≡ conn
unfolding conn_at
put_self m c conn o = get_or-set_self m.conns c conn no_conn (open-lt-length m.conns c o)

read-closed :
    (m : Mux) (c room : ℕ) → (conn_at m c).is_close ≡ true → read m c room ≡ (conn_closed, m)
unfolding read
read-closed m c room e =
    if_both (λ r. r ≡ (conn_closed, m)) (conn_at m c).is_close (λ h. refl) (λ h. absurd (cc (h, e)))

-- A closed connection returns nothing more.
pub read_all-closed :
    (m : Mux) (c : ℕ) (rooms : List ℕ)
    → (conn_at m c).is_close ≡ true
    → read_all m c rooms ≡ ([], m)
unfolding read_all
read_all-closed m c [] e = refl
read_all-closed m c (room ∷ rooms) e =
    ap (λ (r : Got × Mux). let (bs, m') = read_all r.1 c rooms in (bytes_of r.0 ++ bs, m'))
      (read-closed m c room e)
    ∙ read_all-closed m c rooms e

pub read-taken :
    (m : Mux) (c room : ℕ)
    → IsOpen m c
    → 0 < room
    → read m c room ≡ taken m c (Receive.read (conn_at m c).receiver room)
unfolding read
read-taken m c room o some_room =
    let to = taken m c (Receive.read (conn_at m c).receiver room) in
    if_both (λ r. r ≡ to) (conn_at m c).is_close (λ h. absurd (cc (o, h)))
      λ h. if_both (λ r. r ≡ to) (room == 0) (λ h. absurd (ground (arith, h))) (λ h. refl)

-- The mux after the answer, before what the end of the stream does.
abbrev pub answered : Mux → ℕ → Read → Mux
answered m c r =
    report (put_conn m c (record (conn_at m c) { receiver = r.window })) (conn_at m c).id r.credits

pub answered_self :
    (m : Mux) (c : ℕ) (r : Read)
    → IsOpen m c
    → conn_at (answered m c r) c ≡ record (conn_at m c) { receiver = r.window }
unfolding conn_at
answered_self m c r o =
    ap (λ (cs : List Conn). get_or cs c no_conn)
      (report-conns (put_conn m c (record (conn_at m c) { receiver = r.window })) (conn_at m c).id
        r.credits)
    ∙ put_self m c (record (conn_at m c) { receiver = r.window }) o
