-- ===== src/Mux/Session/Calls.antt =====
-- What the users of a connection call: Read and Write of conn (lib/nps_mux/conn.go), and the writer
-- of the mux (mux.go).
use nps.Prelude.{
  ℕ, suc, Option, none, some, List, [], ◌∷◌, Bool, true, false, length, ◌==◌, if◌then◌else◌,
}
use nps.Mux.Packet.{bytes, encode, mux_new_msg, mux_new_msg_part}
use nps.Mux.Priority.{Popped, packet, stopped, waits, hangs}
use nps.Mux.Priority
use nps.Mux.Window.Send.{Frame, Written}
use nps.Mux.Window.Send
use nps.Mux.Window.Receive.{returned, eof, waiting, Ending}
use nps.Mux.Window.Receive
use nps.Mux.Window.Receive.Closing
use nps.Mux.Session.{Mux, conn_at, put_conn, send_info, close, close_conn}
use nps.Mux.Session.Arrivals.{report}

-- The answers of Read: an error since the connection is closed, no byte for no room, or bytes and how
-- the read of the window ended.
pub data Got : Type 0 where
  conn_closed no_room : Got
  got : List ℕ → Ending → Got

-- The close that follows the end of the stream, of the window and then of the connection
unfoldable pub after_end : Mux → ℕ → Ending → Mux
after_end m c eof =
    let conn = conn_at m c in
    close_conn
      (put_conn m c (record conn { receiver = Receive.Closing.close_window conn.receiver })) c
after_end m c returned = m
after_end m c waiting = m

unfoldable pub taken : Mux → ℕ → Receive.Read → Got × Mux
unfolding after_end
taken m c r =
    let conn = conn_at m c in
    (
      got r.bytes r.ending,
      after_end (report (put_conn m c (record conn { receiver = r.window })) conn.id r.credits) c
          r.ending,
    )

-- Read, into a slice of so many bytes that is not nil
unfoldable pub read : Mux → ℕ → ℕ → Got × Mux
unfolding taken
read m c room =
    let conn = conn_at m c in
    if conn.is_close
    then (conn_closed, m)
    else if room == 0
    then (no_room, m)
    else taken m c (Receive.read conn.receiver room)

-- sendInfo of the segments, until one is refused
unfoldable pub send_frames : Mux → ℕ → List Frame → Mux
send_frames m id [] = m
send_frames m id (f ∷ fs) =
    let (ok, m') =
      send_info m (if f.part then mux_new_msg_part else mux_new_msg) id (bytes f.buf) in
    let later = send_frames m' id fs in if ok then later else m'

-- The answers of Write: an error, or how WriteFull stands.
pub data Put : Type 0 where
  conn_closed closed_by_peer : Put
  empty : Put
  put : Send.Progress → Put

-- Write, up to its end or its first wait, while the mux takes every frame
unfoldable pub write : Mux → ℕ → List ℕ → Put × Mux
unfolding send_frames
write m c buf =
    let conn = conn_at m c in
    let w = Send.write_full (suc (length buf)) conn.sender 0 buf in
    if conn.is_close
    then (conn_closed, m)
    else if conn.closing
    then (closed_by_peer, m)
    else if length buf == 0
    then (empty, m)
    else (
      put w.progress,
      send_frames (put_conn m c (record conn { sender = w.window })) conn.id w.frames,
    )

-- What a turn of writeSession does: it puts bytes on the wire, waits, or ends.
pub data Wrote : Type 0 where
  wire : List ℕ → Wrote
  idle ended : Wrote

-- Pack of a packet, `broken` when the wire does not take it
unfoldable pub packed : Mux → Bool → Option (List ℕ) → Wrote × Mux
packed m false (some bs) = (wire bs, m)
packed m true (some bs) = (ended, (close m).1)
packed m broken none = (ended, (close m).1)

unfoldable pub written : Mux → Bool → Popped → Wrote × Mux
unfolding packed
written m broken (packet p) = if m.is_close then (ended, m) else packed m broken (encode p)
written m broken stopped = (ended, m)
written m broken waits = (idle, m)
written m broken hangs = (idle, m)

-- A turn of writeSession; releaseWriteQueue, which follows the end, returns the packets to their pool
unfoldable pub write_session : Mux → Bool → Wrote × Mux
unfolding written
write_session m broken =
    let (answer, queue) = Priority.pop m.write_queue in
    if m.is_close then (ended, m) else written (record m { write_queue = queue }) broken answer
