-- ===== src/Mux/Session/Handling.antt =====
-- The reader, the pings, and Read and Write (lib/nps_mux) keep connections in their places.
use nps.Prelude.{
  ℕ, ◌≡◌, refl, sym, ap, Option, none, some, List, [], ◌∷◌, ◌++◌, Bool, true, false, ◌||◌, ◌⊎◌, inl,
  inr, length, ◌==◌, ◌^◌, ◌-◌, if◌then◌else◌, subst, suc, arith, if_both, if_either, ==_iff,
}
use nps.Mux.Packet.{
  Packet, window, mux_msg_send_ok, mux_new_msg, mux_new_msg_part, bytes, mux_new_conn,
  mux_new_conn_ok, mux_new_conn_fail, mux_conn_close, mux_ping_flag, mux_ping_return, encode,
}
use nps.Mux.Priority.{Popped, packet, stopped, waits, hangs}
use nps.Mux.Priority
use nps.Mux.Window.Send
use nps.Mux.Window.Send.{Frame}
use nps.Mux.Window.Receive.{Estimate, Write, refused, wrote, Ending, returned, eof, waiting}
use nps.Mux.Window.Receive
use nps.Mux.Session.ConnMap.{In, In-append, In-split}
use nps.Mux.Session.{Conn, Mux, conn_at, put_conn, new_conn, send_info}
use nps.Mux.Session.Arrivals.{
  report, delivered, new_msg, close_remote_input, drain, new_remote, for_conn, looked_up, arrive,
  tick,
}
use nps.Mux.Session.Calls.{
  Got, after_end, taken, read, send_frames, Put, write, Wrote, packed, written, write_session,
}
use nps.Mux.Session.Tracked.{
  Live, Located, queued, held, offered, mapped, Inv, Alike-Inv, put_conn-Alike, requeued-Alike,
}
use nps.Mux.Session.Shutting.{close_conn-Inv, close_any-Inv, close-Inv, send_info-Inv}
use nps.Mux.Session.Growing.{IsUnused, added, added_self, added-Inv}

put-Inv :
    (m : Mux) (c : ℕ) (conn : Conn)
    → conn.is_close ≡ (conn_at m c).is_close
    → conn.id ≡ (conn_at m c).id
    → Inv m []
    → Inv (put_conn m c conn) []
put-Inv m c conn e i v = Alike-Inv m _ [] (put_conn-Alike m c conn e i) v

report-Inv : (m : Mux) (id : ℕ) (ws : List ℕ) → Inv m [] → Inv (report m id ws) []
unfolding report
report-Inv m id [] v = v
report-Inv m id (w ∷ ws) v =
    report-Inv (send_info m mux_msg_send_ok id (window w)).1 id ws
      (send_info-Inv m mux_msg_send_ok id (window w) v)

delivered-Inv : (m : Mux) (c : ℕ) (r : Write) → Inv m [] → Inv (delivered m c r) []
unfolding delivered
delivered-Inv m c refused v = close_any-Inv m c [] v
delivered-Inv m c (wrote w credits) v =
    report-Inv _ (conn_at m c).id credits
      (put-Inv m c (record (conn_at m c) { receiver = w }) refl refl v)

new_msg-Inv : (m : Mux) (c : ℕ) (p : Packet) (e : Estimate) → Inv m [] → Inv (new_msg m c p e) []
unfolding new_msg
new_msg-Inv m c p e v =
    if_both (λ k. Inv k []) (conn_at m c).is_close (λ h. close_any-Inv m c [] v)
      λ h.
        delivered-Inv m c
          (Receive.write (conn_at m c).receiver
            (record { buf = p.content; part = p.flag == mux_new_msg_part }) e)
          v

close_remote_input-Inv : (m : Mux) (c : ℕ) → Inv m [] → Inv (close_remote_input m c) []
unfolding close_remote_input
close_remote_input-Inv m c v =
    if_both (λ k. Inv k []) (conn_at m c).is_close (λ h. v) (λ h. put-Inv m c _ refl refl v)

pub drain-Inv : (m : Mux) (c : ℕ) → Inv m [] → Inv (drain m c) []
unfolding drain
drain-Inv m c v =
    if_both (λ k. Inv k []) (conn_at m c).drain_timer (λ h. close_any-Inv m c [] v) (λ h. v)

-- A new connection waits in the queue, which is not closed yet.
enqueued-Inv :
    (m : Mux) (c : ℕ)
    → m.is_close ≡ false
    → Live m c
    → Inv m (c ∷ [])
    → Inv (record m { new_conn_queue = m.new_conn_queue ++ (c ∷ []) }) []
unfolding conn_at
enqueued-Inv m c up lc v = record {
  tracked = λ d o. inr (placed d (v.tracked d o));
  distinct = λ d k ld lk. v.distinct d k (live d ld) (live k lk);
  stops = v.stops;
  finished = λ e. absurd (cc (up, (v.finished e).0));
}
  where
    later : Mux
    later = record m { new_conn_queue = m.new_conn_queue ++ (c ∷ []) }

    placed : (d : ℕ) → In d (c ∷ []) ⊎ Located m d → Located later d
    placed d (inl p) = queued (In-append d m.new_conn_queue (c ∷ []) (inr p))
    placed d (inr (queued h)) = queued (In-append d m.new_conn_queue (c ∷ []) (inl h))
    placed d (inr (held h)) = held h
    placed d (inr (offered e h)) = offered e h
    placed d (inr (mapped e h)) = mapped e h

    waiting : (d : ℕ) → In d m.new_conn_queue ⊎ In d (c ∷ []) → Live m d
    waiting d (inl h) = inr (inl h)
    waiting d (inr (inl e)) = subst (Live m) (sym e) lc
    waiting d (inr (inr p)) = absurd p

    live : (d : ℕ) → Live later d → Live m d
    live d (inl o) = inl o
    live d (inr (inl h)) = waiting d (In-split d m.new_conn_queue (c ∷ []) h)
    live d (inr (inr h)) = inr (inr h)

new_remote-Inv : (m : Mux) (id : ℕ) → IsUnused m id → Inv m [] → Inv (new_remote m id) []
unfolding new_remote new_conn
new_remote-Inv m id unused v =
    let c = length m.conns in
    let v' = added-Inv m id unused v in
    if_both (λ k. Inv k []) (m.is_close || m.queue_stop) (λ h. close_conn-Inv (added m id) c [] v')
      λ h.
        enqueued-Inv (added m id) c (ground (arith, h))
          (inl (ap (λ k. k.is_close) (added_self m id))) v'

for_conn-Inv : (m : Mux) (c : ℕ) (p : Packet) (e : Estimate) → Inv m [] → Inv (for_conn m c p e) []
unfolding for_conn
for_conn-Inv m c p e v =
    let conn = conn_at m c in
    let own =
      λ (k : Conn) (h : k.is_close ≡ conn.is_close) (h' : k.id ≡ conn.id). put-Inv m c k h h' v in
    if_either (λ k. Inv k []) (p.flag == mux_new_msg || p.flag == mux_new_msg_part)
      (new_msg-Inv m c p e v)
      (if_either (λ k. Inv k []) (p.flag == mux_new_conn_ok)
        (own (record conn { status_ok = true }) refl refl)
        (if_either (λ k. Inv k []) (p.flag == mux_new_conn_fail)
          (own (record conn { status_fail = true }) refl refl)
          (if_either (λ k. Inv k []) (p.flag == mux_msg_send_ok)
            (own (record conn { sender = (Send.set_size conn.sender p.window).1 }) refl refl)
            (if_either (λ k. Inv k []) (p.flag == mux_conn_close) (close_remote_input-Inv m c v)
              v))))

looked_up-Inv :
    (m : Mux) (o : Option ℕ) (p : Packet) (e : Estimate) → Inv m [] → Inv (looked_up m o p e) []
unfolding looked_up
looked_up-Inv m none p e v = v
looked_up-Inv m (some c) p e v =
    if_both (λ k. Inv k []) (conn_at m c).is_close (λ h. v) (λ h. for_conn-Inv m c p e v)

after_end-Inv : (m : Mux) (c : ℕ) (e : Ending) → Inv m [] → Inv (after_end m c e) []
unfolding after_end
after_end-Inv m c eof v = close_any-Inv _ c [] (put-Inv m c _ refl refl v)
after_end-Inv m c returned v = v
after_end-Inv m c waiting v = v

pub read-Inv : (m : Mux) (c room : ℕ) → Inv m [] → Inv (read m c room).1 []
unfolding read taken
read-Inv m c room v =
    if_both (λ (r : Got × Mux). Inv r.1 []) (conn_at m c).is_close (λ h. v)
      λ h.
        if_both (λ (r : Got × Mux). Inv r.1 []) (room == 0) (λ h. v)
          λ h. after_end-Inv _ c _ (report-Inv _ (conn_at m c).id _ (put-Inv m c _ refl refl v))

send_frames-Inv : (m : Mux) (id : ℕ) (fs : List Frame) → Inv m [] → Inv (send_frames m id fs) []
unfolding send_frames
send_frames-Inv m id [] v = v
send_frames-Inv m id (f ∷ fs) v =
    let flag = if f.part then mux_new_msg_part else mux_new_msg in
    let v' = send_info-Inv m flag id (bytes f.buf) v in
    if_either (λ k. Inv k []) (send_info m flag id (bytes f.buf)).0
      (send_frames-Inv (send_info m flag id (bytes f.buf)).1 id fs v') v'

pub write-Inv : (m : Mux) (c : ℕ) (buf : List ℕ) → Inv m [] → Inv (write m c buf).1 []
unfolding write
write-Inv m c buf v =
    if_both (λ (r : Put × Mux). Inv r.1 []) (conn_at m c).is_close (λ h. v)
      λ h.
        if_both (λ (r : Put × Mux). Inv r.1 []) (conn_at m c).closing (λ h. v)
          λ h.
            if_both (λ (r : Put × Mux). Inv r.1 []) (length buf == 0) (λ h. v)
              λ h.
                send_frames-Inv _ (conn_at m c).id
                  (Send.write_full (suc (length buf)) (conn_at m c).sender 0 buf).frames
                  (put-Inv m c _ refl refl v)

pinged-Inv : (m : Mux) (n : ℕ) → Inv m [] → Inv (record m { ping_check_time = n }) []
unfolding conn_at
pinged-Inv m n v =
    Alike-Inv m _ []
      record {
        is_close = refl;
        conn_map = refl;
        queue = refl;
        stop = refl;
        loop = refl;
        closed = λ c. refl;
        ids = λ c. refl;
      }
      v

pub tick-Inv : (m : Mux) (now : List ℕ) → Inv m [] → Inv (tick m now) []
unfolding tick
tick-Inv m now v =
    if_either (λ k. Inv k []) m.is_close v
      (if_either (λ k. Inv k []) _ (close-Inv m v)
        (pinged-Inv _ _ (send_info-Inv m mux_ping_flag (2 ^ 32 - 1) (bytes now) v)))

pub arrive-Inv :
    (m : Mux) (p : Packet) (e : Estimate)
    → (p.flag ≡ mux_new_conn → IsUnused m p.id)
    → Inv m []
    → Inv (arrive m p e) []
unfolding arrive
arrive-Inv m p e unused v =
    if_both (λ k. Inv k []) (p.flag == mux_new_conn)
      (λ h. new_remote-Inv m p.id (unused ((==_iff p.flag mux_new_conn).0 h)) v)
      λ h.
        if_either (λ k. Inv k []) _
          (send_info-Inv m mux_ping_return (2 ^ 32 - 1) (bytes p.content) v)
          (if_either (λ k. Inv k []) _ (if_either (λ k. Inv k []) m.is_close v (pinged-Inv m 0 v))
            (looked_up-Inv m _ p e v))

packed-Inv :
    (m : Mux) (broken : Bool) (o : Option (List ℕ)) → Inv m [] → Inv (packed m broken o).1 []
unfolding packed
packed-Inv m false (some bs) v = v
packed-Inv m true (some bs) v = close-Inv m v
packed-Inv m false none v = close-Inv m v
packed-Inv m true none v = close-Inv m v

written-Inv : (m : Mux) (broken : Bool) (r : Popped) → Inv m [] → Inv (written m broken r).1 []
unfolding written
written-Inv m broken (packet p) v =
    if_both (λ (r : Wrote × Mux). Inv r.1 []) m.is_close (λ h. v)
      λ h. packed-Inv m broken (encode p) v
written-Inv m broken stopped v = v
written-Inv m broken waits v = v
written-Inv m broken hangs v = v

pub write_session-Inv : (m : Mux) (broken : Bool) → Inv m [] → Inv (write_session m broken).1 []
unfolding write_session
write_session-Inv m broken v =
    if_both (λ (r : Wrote × Mux). Inv r.1 []) m.is_close (λ h. v)
      λ h.
        written-Inv _ broken (Priority.pop m.write_queue).0
          (Alike-Inv m _ [] (requeued-Alike m (Priority.pop m.write_queue).1) v)
