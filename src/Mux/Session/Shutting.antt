-- ===== src/Mux/Session/Shutting.antt =====
-- Closing connections of a Mux (lib/nps_mux) keeps the others in their places.
use nps.Prelude.{
  ℕ, zero, suc, ◌<◌, ◌≡◌, ◌≢◌, refl, sym, ap, ◌∙◌, List, [], ◌∷◌, Bool, true, false, ◌⊎◌, inl, inr,
  length, get_or, set, get_or-set_ne, get_or-set_self, subst, arith, if_both,
}
use nps.Mux.Packet.{Payload, SetResult, ok, err, set_packet}
use nps.Mux.Session.ConnMap
use nps.Mux.Session.ConnMap.{In, get-delete_ne, get-connections}
use nps.Mux.Session.{
  Conn, new_conn, Mux, no_conn, conn_at, send_close, shut, close_process, close_conn, close_conns,
  close_open, close, send_result, send_info,
}
use nps.Mux.Session.Tracked.{
  IsOpen, Live, fewer-Distinct, kept_at, Located, queued, held, offered, mapped, Inv, Alike,
  Alike-Inv, same-Alike, send_packet-Alike, weaken,
}

-- The mux once the connection is shut and out of the map, before its muxConnClose is sent.
abbrev pub gone : Mux → ℕ → Mux
gone m c = record m {
  conns = set m.conns c (shut (conn_at m c));
  conn_map = ConnMap.delete m.conn_map (conn_at m c).id;
}

pub close_process-Alike : (m : Mux) (c : ℕ) → Alike (gone m c) (close_process m c)
unfolding close_process send_close
close_process-Alike m c =
    if_both (Alike (gone m c)) m.is_close (λ e. same-Alike (gone m c))
      λ e. send_packet-Alike (gone m c) _

pub open-lt-length :
    (cs : List Conn) (c : ℕ) → (get_or cs c no_conn).is_close ≡ false → c < length cs
unfolding new_conn
open-lt-length [] c o = ground (arith, o)
open-lt-length (k ∷ cs) zero o = omega arith
open-lt-length (k ∷ cs) (suc c) o = omega (arith, open-lt-length cs c o)

pub gone_self : (m : Mux) (c : ℕ) → IsOpen m c → (conn_at (gone m c) c).is_close ≡ true
unfolding conn_at shut
gone_self m c o =
    ap (λ k. k.is_close)
      (get_or-set_self m.conns c (shut (conn_at m c)) no_conn (open-lt-length m.conns c o))

pub gone_other : (m : Mux) (c d : ℕ) → d ≢ c → conn_at (gone m c) d ≡ conn_at m d
unfolding conn_at
gone_other m c d n = get_or-set_ne m.conns (shut (conn_at m c)) no_conn (λ e. n (sym e))

gone-ne : (m : Mux) (c d : ℕ) → IsOpen m c → IsOpen (gone m c) d → d ≢ c
gone-ne m c d oc od e =
    let closed = gone_self m c oc in absurd (cc (subst (IsOpen (gone m c)) e od, closed))

-- What is open once a connection is shut was open, and is another.
gone-open : (m : Mux) (c d : ℕ) → IsOpen m c → IsOpen (gone m c) d → IsOpen m d
gone-open m c d oc od = ap (λ k. k.is_close) (sym (gone_other m c d (gone-ne m c d oc od))) ∙ od

gone-id : (m : Mux) (c d : ℕ) → (conn_at (gone m c) d).id ≡ (conn_at m d).id
unfolding shut conn_at
gone-id m c d = kept_at m c (shut (conn_at m c)) (λ k. k.id) d refl

gone-Live : (m : Mux) (c d : ℕ) → IsOpen m c → Live (gone m c) d → Live m d
gone-Live m c d oc (inl o) = inl (gone-open m c d oc o)
gone-Live m c d oc (inr w) = inr w

gone-Inv : (m : Mux) (c : ℕ) (ps : List ℕ) → IsOpen m c → Inv m (c ∷ ps) → Inv (gone m c) ps
gone-Inv m c ps oc v = record {
  tracked = λ d od. found d od (v.tracked d (gone-open m c d oc od));
  distinct = fewer-Distinct m (gone m c) (λ d. gone-Live m c d oc) (gone-id m c) v.distinct;
  stops = v.stops;
  finished = v.finished;
}
  where
    found :
        (d : ℕ) → IsOpen (gone m c) d → In d (c ∷ ps) ⊎ Located m d → In d ps ⊎ Located (gone m c) d
    found d od (inl (inl e)) = absurd (gone-ne m c d oc od e)
    found d od (inl (inr p)) = inl p
    found d od (inr (queued h)) = inr (queued h)
    found d od (inr (held h)) = inr (held h)
    found d od (inr (offered e h)) = inr (offered e h)
    found d od (inr (mapped e h)) = inr (
        mapped e (
          ap (ConnMap.get (gone m c).conn_map) (gone-id m c d)
          ∙ get-delete_ne m.conn_map (conn_at m c).id (conn_at m d).id (λ same.
            gone-ne m c d oc od (v.distinct d c (inl (gone-open m c d oc od)) (inl oc) same))
          ∙ h))

-- A connection that was to be closed is closed.
pub close_conn-Inv : (m : Mux) (c : ℕ) (ps : List ℕ) → Inv m (c ∷ ps) → Inv (close_conn m c) ps
unfolding close_conn
close_conn-Inv m c ps v =
    if_both (λ k. Inv k ps) (conn_at m c).is_close
      (λ e. record {
        tracked = λ d od. elim (v.tracked d od) [
          | inl (inl same) ↦ absurd (cc (subst (IsOpen m) same od, e))
          | inl (inr p) ↦ inl p
          | inr l ↦ inr l
        ];
        distinct = v.distinct;
        stops = v.stops;
        finished = v.finished;
      })
      λ oc.
        Alike-Inv (gone m c) (close_process m c) ps (close_process-Alike m c) (gone-Inv m c ps oc v)

pub close_any-Inv : (m : Mux) (c : ℕ) (ps : List ℕ) → Inv m ps → Inv (close_conn m c) ps
close_any-Inv m c ps v = close_conn-Inv m c ps (weaken m c ps v)

pub close_conns-Inv : (m : Mux) (cs : List ℕ) → Inv m cs → Inv (close_conns m cs) []
unfolding close_conns
close_conns-Inv m [] v = v
close_conns-Inv m (c ∷ cs) v = close_conns-Inv (close_conn m c) cs (close_conn-Inv m c cs v)

close_open-Inv : (m : Mux) → m.is_close ≡ false → Inv m [] → Inv (close_open m) []
unfolding close_open conn_at
close_open-Inv m up v = close_conns-Inv _ (ConnMap.connections m.conn_map) record {
  tracked = λ c o. elim (v.tracked c o) [
    | inl p ↦ absurd p
    | inr (queued h) ↦ inr (queued h)
    | inr (held h) ↦ inr (held h)
    | inr (offered e h) ↦ absurd (cc (up, e))
    | inr (mapped e h) ↦ inl (get-connections m.conn_map (conn_at m c).id c h)
  ];
  distinct = v.distinct;
  stops = refl;
  finished = λ e. (refl, (v.finished e).1);
}

pub close-Inv : (m : Mux) → Inv m [] → Inv (close m).1 []
unfolding close
close-Inv m v =
    if_both (λ (r : Bool × Mux). Inv r.1 []) m.is_close (λ e. v) λ e. close_open-Inv m e v

send_result-Inv : (m : Mux) (r : SetResult) → Inv m [] → Inv (send_result m r).1 []
unfolding send_result
send_result-Inv m (ok p) v = Alike-Inv m _ [] (send_packet-Alike m p) v
send_result-Inv m (err e) v = close-Inv m v

pub send_info-Inv :
    (m : Mux) (flag id : ℕ) (d : Payload) → Inv m [] → Inv (send_info m flag id d).1 []
unfolding send_info
send_info-Inv m flag id d v = send_result-Inv m (set_packet flag id d) v
