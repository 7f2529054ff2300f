-- ===== src/Mux/Session/Settled.antt =====
-- How NewConn of Mux (lib/nps_mux/mux.go) ends: with a connection that works, or with one that is gone.
use nps.Prelude.{ℕ, Bool, ◌≡◌, refl, ap, ◌∙◌, none, true, false, ◌⊎◌, inl, inr, subst, if_both}
use nps.Mux.Session.ConnMap
use nps.Mux.Session.{Conn, Mux, conn_at, put_conn, close_conn}
use nps.Mux.Session.Opening.{
  Opened, waits, opened, mux_closed, rejected, timed_out, Signal, by_ok, by_fail, by_close,
  by_timer, settle,
}
use nps.Mux.Session.Roaming.{close_conn_rest, close_conn-unmapped}
use nps.Mux.Session.Tracked.{IsOpen}
use nps.Mux.Session.Reading.{put_self}

-- The connection is closed, and its number is free.
abbrev pub IsGone : Mux → ℕ → ℕ → Type 0
IsGone m c id = ((conn_at m c).is_close ≡ true) × (ConnMap.get m.conn_map id ≡ none)

-- Whether a case of the select can be taken.
abbrev pub ready : Mux → ℕ → Signal → Bool
ready m c by_ok = (conn_at m c).status_ok
ready m c by_fail = (conn_at m c).status_fail
ready m c by_close = m.is_close
ready m c by_timer = true

-- The error of a case that does not hand out the connection.
abbrev pub refusal : Signal → Opened
refusal by_ok = mux_closed
refusal by_fail = rejected
refusal by_close = mux_closed
refusal by_timer = timed_out

-- NewConn still waits for a case that is not ready, or it hands out the open connection of an open
-- mux for the answer of the peer, or the connection is gone and the error is that of the case.
abbrev pub Settles : Mux → ℕ → Signal → Opened × Mux → Type 0
Settles m c s r =
    ((ready m c s ≡ false) × (r ≡ (waits c, m)))
    ⊎ ((ready m c s ≡ true)
        × (s ≡ by_ok)
        × (m.is_close ≡ false)
        × (r.0 ≡ opened c)
        × ((conn_at r.1 c).is_close ≡ false)
        × (r.1.conn_map ≡ m.conn_map))
    ⊎ ((ready m c s ≡ true)
        × ((s ≡ by_ok) → m.is_close ≡ true)
        × (r.0 ≡ refusal s)
        × IsGone r.1 c (conn_at m c).id)

closes-IsGone : (m : Mux) (c : ℕ) → IsOpen m c → IsGone (close_conn m c) c (conn_at m c).id
closes-IsGone m c o = ((close_conn_rest m c).0, close_conn-unmapped m c o)

-- The same after a change of the connection alone.
put-IsGone :
    (m : Mux) (c : ℕ) (conn : Conn)
    → IsOpen m c
    → conn.is_close ≡ false
    → conn.id ≡ (conn_at m c).id
    → IsGone (close_conn (put_conn m c conn) c) c (conn_at m c).id
put-IsGone m c conn o up same =
    let self = put_self m c conn o in
    subst (IsGone (close_conn (put_conn m c conn) c) c) (ap (λ k. k.id) self ∙ same)
      (closes-IsGone (put_conn m c conn) c (ap (λ k. k.is_close) self ∙ up))

-- Whatever case NewConn takes for an open connection: if the case is not ready, NewConn waits and
-- nothing has changed; the answer of the peer on an open mux hands out the connection, which is
-- open, and leaves the map as it is; and any other case answers with its own error, the
-- connection is closed, and its number is out of the map.
pub settle-Settles :
    (m : Mux) (c : ℕ) (s : Signal) → (conn_at m c).is_close ≡ false → Settles m c s (settle m c s)
unfolding settle
settle-Settles m c by_ok o =
    if_both (Settles m c by_ok) (conn_at m c).status_ok
      (λ e.
        if_both (Settles m c by_ok) m.is_close
          (λ down. inr (inr (e, (λ same. down), refl, put-IsGone m c _ o o refl)))
          (λ up. inr (inl (e, refl, up, refl, ap (λ k. k.is_close) (put_self m c _ o) ∙ o, refl))))
      (λ e. inl (e, refl))
settle-Settles m c by_fail o =
    if_both (Settles m c by_fail) (conn_at m c).status_fail
      (λ e. inr (inr (e, (λ same. cc same), refl, put-IsGone m c _ o o refl))) (λ e. inl (e, refl))
settle-Settles m c by_close o =
    if_both (Settles m c by_close) m.is_close
      (λ e. inr (inr (e, (λ same. e), refl, closes-IsGone m c o))) (λ e. inl (e, refl))
settle-Settles m c by_timer o = inr (inr (refl, (λ same. cc same), refl, closes-IsGone m c o))
