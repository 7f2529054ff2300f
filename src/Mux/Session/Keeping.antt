-- ===== src/Mux/Session/Keeping.antt =====
-- NewConn, Accept and its goroutine (lib/nps_mux/mux.go) keep connections in their places.
use nps.Prelude.{
  ℕ, suc, ◌≡◌, ◌≢◌, refl, sym, ap, ◌∙◌, Option, none, some, [], ◌∷◌, true, false, ◌⊎◌, inl, inr,
  length, subst, if_both,
}
use nps.Mux.Packet.{Packet, set_packet, set_payload, has_content}
use nps.Mux.Session.ConnMap
use nps.Mux.Session.ConnMap.{In, In-append}
use nps.Mux.Session.{holds, offers, Mux, conn_at, send_packet, send_info}
use nps.Mux.Session.Opening.{
  get_id, with_conn, Opened, sent, begin, start, connect, Signal, by_ok, by_fail, by_close,
  by_timer, settle,
}
use nps.Mux.Session.Numbers.{get_id-unmapped}
use nps.Mux.Session.Tracked.{
  queued, held, offered, mapped, Inv, Alike, Alike-Inv, requeued-Alike, put_conn-Alike,
}
use nps.Mux.Session.Shutting.{close_conn-Inv, close_any-Inv}
use nps.Mux.Session.Growing.{
  IsUnused, added, added_self, self_id, added-Inv, with_entry, with_entry-Inv, entered-Inv,
}

-- A connection that has not come to Accept yet.
abbrev pub Arriving : Mux → ℕ → Type 0
Arriving m c = In c m.new_conn_queue ⊎ (m.loop ≡ holds c) ⊎ (m.loop ≡ offers c)

-- A number that getId may give is unused, if no arriving connection has it.
unmapped-IsUnused :
    (m : Mux) (id : ℕ)
    → Inv m []
    → ConnMap.get m.conn_map id ≡ none
    → ((c : ℕ) → Arriving m c → (conn_at m c).id ≢ id)
    → IsUnused m id
unmapped-IsUnused m id v free apart c (inr (inl h)) = apart c (inl h)
unmapped-IsUnused m id v free apart c (inr (inr h)) = apart c (inr (inl h))
unmapped-IsUnused m id v free apart c (inl o) = elim (v.tracked c o) [
  | inl p ↦ absurd p
  | inr (queued h) ↦ apart c (inl h)
  | inr (held h) ↦ apart c (inr (inl h))
  | inr (offered e h) ↦ apart c (inr (inr h))
  | inr (mapped e h) ↦
      λ same. absurd (cc (sym (subst (λ i. ConnMap.get m.conn_map i ≡ none) (sym same) free) ∙ h))
]

with_conn-Alike :
    (m : Mux) (id : ℕ) → Alike (with_entry (added m id) (length m.conns)) (with_conn m id)
unfolding with_conn conn_at
with_conn-Alike m id = record {
  is_close = refl;
  conn_map =
      ap (λ i. ConnMap.set m.conn_map i (length m.conns))
        (sym (self_id m id (length m.conns) refl));
  queue = refl;
  stop = refl;
  loop = refl;
  closed = λ c. refl;
  ids = λ c. refl;
}

sent-Inv :
    (m : Mux) (c : ℕ) (p : Packet)
    → (m.is_close ≡ true → Inv m (c ∷ []))
    → (m.is_close ≡ false → Inv m [])
    → Inv (sent c (send_packet m p)).1 []
unfolding send_packet sent
sent-Inv m c p h h' =
    if_both (λ r. Inv (sent c r).1 []) m.is_close (λ e. close_conn-Inv m c [] (h e))
      λ e. Alike-Inv m _ [] (requeued-Alike m _) (h' e)

begin-Inv : (m : Mux) (id : ℕ) → IsUnused m id → Inv m [] → Inv (begin m (some id)).1 []
unfolding begin send_info set_packet set_payload has_content
begin-Inv m id unused v =
    let c = length m.conns in
    let v' = added-Inv m id unused v in
    let live = inl (ap (λ k. k.is_close) (added_self m id)) in
    sent-Inv (with_conn m id) c _
      (λ e. Alike-Inv _ _ (c ∷ []) (with_conn-Alike m id) (with_entry-Inv (added m id) c live v'))
      (λ e. Alike-Inv _ _ [] (with_conn-Alike m id) (entered-Inv (added m id) c e live v'))

-- The number that NewConn takes.
abbrev pub start_id : Mux → Option ℕ
start_id m = get_id (suc (length m.conn_map)) m.conn_map m.id

spins-Inv : (m : Mux) → Inv m [] → Inv (begin m none).1 []
unfolding begin
spins-Inv m v = v

pub start-Inv :
    (m : Mux)
    → Inv m []
    → ((id c : ℕ) → start_id m ≡ some id → Arriving m c → (conn_at m c).id ≢ id)
    → Inv (start m).1 []
unfolding start
start-Inv m v apart = begun (start_id m) refl
  where
    begun : (o : Option ℕ) → start_id m ≡ o → Inv (begin m o).1 []
    begun none e = spins-Inv m v
    begun (some id) e =
        begin-Inv m id
          (unmapped-IsUnused m id v (get_id-unmapped (suc (length m.conn_map)) m.conn_map m.id id e)
            (λ c. apart id c e))
          v

-- NewConn keeps every connection in its place, if no arriving connection has the number it takes.
pub connect-Inv :
    (m : Mux)
    → Inv m []
    → ((id c : ℕ) → start_id m ≡ some id → Arriving m c → (conn_at m c).id ≢ id)
    → Inv (connect m).1 []
unfolding connect
connect-Inv m v apart =
    if_both (λ (r : Opened × Mux). Inv r.1 []) m.is_close (λ e. v) (λ e. start-Inv m v apart)

pub settle-Inv : (m : Mux) (c : ℕ) (s : Signal) → Inv m [] → Inv (settle m c s).1 []
unfolding settle
settle-Inv m c by_ok v =
    let v' =
      Alike-Inv m _ [] (put_conn-Alike m c (record (conn_at m c) { status_ok = false }) refl refl)
        v in
    if_both (λ (r : Opened × Mux). Inv r.1 []) (conn_at m c).status_ok
      (λ e.
        if_both (λ (r : Opened × Mux). Inv r.1 []) m.is_close (λ e. close_any-Inv _ c [] v')
          (λ e. v'))
      (λ e. v)
settle-Inv m c by_fail v =
    let v' =
      Alike-Inv m _ [] (put_conn-Alike m c (record (conn_at m c) { status_fail = false }) refl refl)
        v in
    if_both (λ (r : Opened × Mux). Inv r.1 []) (conn_at m c).status_fail
      (λ e. close_any-Inv _ c [] v') (λ e. v)
settle-Inv m c by_close v =
    if_both (λ (r : Opened × Mux). Inv r.1 []) m.is_close (λ e. close_any-Inv m c [] v) (λ e. v)
settle-Inv m c by_timer v = close_any-Inv m c [] v
