-- ===== src/Mux/Session/Isolated.antt =====
-- The reader of Mux (lib/nps_mux/mux.go) changes only the connection that a packet is for.
use nps.Prelude.{
  ℕ, ◌^◌, ◌-◌, ◌%◌, ◌<◌, ◌≡◌, ◌≢◌, refl, sym, ap, ◌∙◌, Option, none, some, List, [], ◌∷◌, ◌++◌,
  Bool, ◌||◌, length, ◌==◌, arith, if_both, if_either, get_or, get_or-set_ne, get_or-append_ne,
  ==_iff,
}
use nps.Mux.Packet.{
  Packet, bytes, SetResult, ok, set_packet, set_payload, set_content, has_content, mux_new_msg,
  mux_new_msg_part, mux_new_conn, mux_new_conn_ok, mux_new_conn_fail, mux_msg_send_ok,
  mux_conn_close, mux_ping_flag, mux_ping_return,
}
use nps.Mux.Window.Receive.{Estimate, Write, refused, wrote}
use nps.Mux.Window.Receive
use nps.Mux.Session.ConnMap
use nps.Mux.Session.{
  Conn, Mux, new_conn, no_conn, conn_at, put_conn, send_packet, send_close, send_result, send_info,
  close_process, close_conn,
}
use nps.Mux.Session.Arrivals.{
  delivered, new_msg, close_remote_input, new_remote, for_conn, looked_up, arrive,
}
use nps.Mux.Session.Shutting.{gone, gone_other}
use nps.Mux.Session.Reading.{report-conns}
use nps.Mux.Session.Pings.{IsText}

-- A connection is as it was.
abbrev Same : ℕ → Mux → Mux → Type 0
Same d m m' = conn_at m' d ≡ conn_at m d

conns-Same : (d : ℕ) (m m' : Mux) → m'.conns ≡ m.conns → Same d m m'
unfolding conn_at
conns-Same d m m' e = ap (λ (cs : List Conn). get_or cs d no_conn) e

put-Same : (d : ℕ) (m : Mux) (c : ℕ) (conn : Conn) → c ≢ d → Same d m (put_conn m c conn)
unfolding conn_at
put-Same d m c conn n = get_or-set_ne m.conns conn no_conn n

send_packet-conns : (m : Mux) (p : Packet) → (send_packet m p).1.conns ≡ m.conns
unfolding send_packet
send_packet-conns m p =
    if_both (λ (r : Bool × Mux). r.1.conns ≡ m.conns) m.is_close (λ e. refl) (λ e. refl)

close_conn-Same : (d : ℕ) (m : Mux) (c : ℕ) → c ≢ d → Same d m (close_conn m c)
unfolding close_conn close_process send_close
close_conn-Same d m c n =
    let other = gone_other m c d (λ e. n (sym e)) in
    if_either (Same d m) (conn_at m c).is_close refl (
      if_either (Same d m) m.is_close other
        (conns-Same d (gone m c) _ (send_packet-conns (gone m c) _) ∙ other))

delivered-Same : (d : ℕ) (m : Mux) (c : ℕ) (r : Write) → c ≢ d → Same d m (delivered m c r)
unfolding delivered
delivered-Same d m c refused n = close_conn-Same d m c n
delivered-Same d m c (wrote w credits) n =
    let m' = put_conn m c (record (conn_at m c) { receiver = w }) in
    conns-Same d m' _ (report-conns m' (conn_at m c).id credits) ∙ put-Same d m c _ n

for_conn-Same :
    (d : ℕ) (m : Mux) (c : ℕ) (p : Packet) (e : Estimate) → c ≢ d → Same d m (for_conn m c p e)
unfolding for_conn new_msg close_remote_input
for_conn-Same d m c p e n =
    let conn = conn_at m c in
    if_either (Same d m) (p.flag == mux_new_msg || p.flag == mux_new_msg_part)
      (if_either (Same d m) conn.is_close (close_conn-Same d m c n) (
        delivered-Same d m c
          (Receive.write conn.receiver
            (record { buf = p.content; part = p.flag == mux_new_msg_part }) e)
          n))
      (if_either (Same d m) (p.flag == mux_new_conn_ok) (put-Same d m c _ n) (
        if_either (Same d m) (p.flag == mux_new_conn_fail) (put-Same d m c _ n) (
          if_either (Same d m) (p.flag == mux_msg_send_ok) (put-Same d m c _ n) (
            if_either (Same d m) (p.flag == mux_conn_close)
              (if_either (Same d m) conn.is_close refl (put-Same d m c _ n)) refl))))

looked_up-Same :
    (d : ℕ) (m : Mux) (o : Option ℕ) (p : Packet) (e : Estimate)
    → o ≢ some d
    → Same d m (looked_up m o p e)
unfolding looked_up
looked_up-Same d m none p e n = refl
looked_up-Same d m (some c) p e n =
    if_either (Same d m) (conn_at m c).is_close refl (for_conn-Same d m c p e (λ h. n (ap some h)))

new_remote-Same : (d : ℕ) (m : Mux) (id : ℕ) → d < length m.conns → Same d m (new_remote m id)
unfolding new_remote conn_at new_conn
new_remote-Same d m id inside =
    let m' = record m { conns = m.conns ++ (new_conn id ∷ []) } in
    let added : Same d m m' =
      get_or-append_ne m.conns d (new_conn id) no_conn (omega (arith, inside)) in
    if_either (Same d m) (m.is_close || m.queue_stop)
      (close_conn-Same d m' (length m.conns) (omega (arith, inside)) ∙ added) added

set-answer :
    (content : List ℕ)
    → IsText content
    → set_packet mux_ping_return (2 ^ 32 - 1) (bytes content)
      ≡ ok (record {
        flag = mux_ping_return;
        id = 2 ^ 32 - 1;
        window = 0;
        size = length content % 2 ^ 16;
        content = content;
      })
unfolding set_packet set_payload set_content has_content
set-answer content h = ground (arith, h.0, h.1)

answer-conns :
    (m : Mux) (content : List ℕ)
    → IsText content
    → (send_info m mux_ping_return (2 ^ 32 - 1) (bytes content)).1.conns ≡ m.conns
unfolding send_info send_result
answer-conns m content h =
    ap (λ (r : SetResult). (send_result m r).1.conns) (set-answer content h) ∙ send_packet-conns m _

-- Whatever packet the reader takes, if the content of a ping fits a frame, every connection that
-- the map does not give for the number of the packet stays as it is.
pub arrive-others :
    (m : Mux) (p : Packet) (e : Estimate) (d : ℕ)
    → (p.flag ≡ mux_ping_flag → IsText p.content)
    → d < length m.conns
    → ConnMap.get m.conn_map p.id ≢ some d
    → conn_at (arrive m p e) d ≡ conn_at m d
unfolding arrive
arrive-others m p e d text inside other =
    if_either (Same d m) (p.flag == mux_new_conn) (new_remote-Same d m p.id inside) (
      if_both (Same d m) (p.flag == mux_ping_flag)
        (λ h.
          conns-Same d m _ (answer-conns m p.content (text ((==_iff p.flag mux_ping_flag).0 h))))
        λ h.
          if_either (Same d m) (p.flag == mux_ping_return)
            (if_either (Same d m) m.is_close refl (conns-Same d m _ refl))
            (looked_up-Same d m _ p e other))
