-- ===== src/Mux/Session/Released.antt =====
-- After Close of Mux (lib/nps_mux) no connection is left open.
use nps.Prelude.{
  ℕ, ◌≡◌, refl, sym, ap, ◌∙◌, List, [], ◌∷◌, Bool, true, ◌⊎◌, inl, inr, Bool-cases, subst, if_both,
}
use nps.Mux.Packet.{set_packet, set_payload, has_content}
use nps.Mux.Session.{
  Loop, idle, pops, holds, offers, confirms, ended, Mux, conn_at, send_packet, send_info,
  close_conn,
}
use nps.Mux.Session.ConnMap.{In}
use nps.Mux.Session.Accepting.{end_loop, popped, turn_at, turn}
use nps.Mux.Session.Tracked.{Located, queued, held, offered, mapped, Inv}
use nps.Mux.Session.Roaming.{close_conns_loop, close_conns_down, IsEnded, close_conn_rest}
use nps.Mux.Session.Waiting.{turn-Inv}
use nps.Mux.Session.Reached.{Reaches-Inv}
use nps.Mux.Session.Steps.{Reaches}

-- Where one turn is the last on a closed mux.
abbrev IsNearEnd : Loop → Type 0
IsNearEnd (holds c) = ⊥
IsNearEnd (confirms c) = ⊥
IsNearEnd l = Unit

-- The goroutine has come to its end, on a closed mux.
abbrev Ended : Mux → Type 0
Ended m = (m.loop ≡ ended) × (m.is_close ≡ true)

end_loop-Ended : (m : Mux) → m.is_close ≡ true → Ended (end_loop m)
unfolding end_loop
end_loop-Ended m down =
    (close_conns_loop _ m.new_conn_queue, close_conns_down _ m.new_conn_queue ∙ down)

popped-Ended :
    (m : Mux) (xs : List ℕ) → m.is_close ≡ true → m.queue_stop ≡ true → Ended (popped m xs)
unfolding popped
popped-Ended m [] down stop =
    if_both Ended m.queue_stop (λ e. end_loop-Ended m down) (λ up. absurd (cc (up, stop)))
popped-Ended m (c ∷ rest) down stop =
    if_both Ended m.is_close
      (λ e.
        end_loop-Ended (close_conn _ c)
          ((close_conn_rest (record m { new_conn_queue = rest }) c).1 ∙ down))
      (λ up. absurd (cc (up, down)))

last-Ended :
    (m : Mux) (l : Loop)
    → m.loop ≡ l
    → IsNearEnd l
    → m.is_close ≡ true
    → m.queue_stop ≡ true
    → Ended (turn_at m l)
unfolding turn_at
last-Ended m idle l h down stop =
    if_both Ended m.is_close (λ e. end_loop-Ended m down) (λ up. absurd (cc (up, down)))
last-Ended m pops l h down stop = popped-Ended m m.new_conn_queue down stop
last-Ended m (offers c) l h down stop =
    if_both Ended m.is_close (λ e. end_loop-Ended (close_conn m c) ((close_conn_rest m c).1 ∙ down))
      (λ up. absurd (cc (up, down)))
last-Ended m ended l h down stop = (l, down)
last-Ended m (holds c) l h down stop = absurd h
last-Ended m (confirms c) l h down stop = absurd h

last : (m : Mux) → IsNearEnd m.loop → m.is_close ≡ true → m.queue_stop ≡ true → Ended (turn m)
unfolding turn
last m h down stop = last-Ended m m.loop refl h down stop

stays-Ended : (m : Mux) → Ended m → Ended (turn m)
unfolding turn turn_at
stays-Ended m h = subst Ended (sym (ap (turn_at m) h.0)) h

two_turns :
    (m : Mux) (l : Loop)
    → m.loop ≡ l
    → m.is_close ≡ true
    → m.queue_stop ≡ true
    → Ended (turn (turn_at m l))
unfolding turn_at send_info set_packet set_payload has_content send_packet
two_turns m (holds c) l down stop = last _ tt down stop
two_turns m (confirms c) l down stop =
    if_both (λ (r : Bool × Mux). Ended (turn r.1)) m.is_close
      (λ e. last (record m { loop = idle }) tt down stop) (λ up. absurd (cc (up, down)))
two_turns m idle l down stop = stays-Ended _ (last-Ended m idle l tt down stop)
two_turns m pops l down stop = stays-Ended _ (last-Ended m pops l tt down stop)
two_turns m (offers c) l down stop = stays-Ended _ (last-Ended m (offers c) l tt down stop)
two_turns m ended l down stop = stays-Ended _ (last-Ended m ended l tt down stop)

-- At the end nothing is located anywhere.
none_left : (m : Mux) → Inv m [] → Ended m → (c : ℕ) → In c [] ⊎ Located m c → ⊥
none_left m v h c (inl p) = p
none_left m v h c (inr (queued w)) = subst (In c) (v.finished h.0).1 w
none_left m v h c (inr (held w)) = subst IsEnded (sym (h.0) ∙ w) tt
none_left m v h c (inr (offered e w)) = subst IsEnded (sym h.0 ∙ w) tt
none_left m v h c (inr (mapped e w)) = absurd (cc (e, h.1))

-- If the goroutine of NewConn and the peer never give a connection the number of one that is
-- still to come to Accept, nor the peer that of an open one, then in every state of a new mux
-- after any steps, once the mux is closed, two more turns of the goroutine that serves Accept
-- bring it to its end, and every connection that the mux ever had is closed.
pub released :
    (threshold : ℕ) (m : Mux)
    → Reaches threshold m
    → m.is_close ≡ true
    → let m' = turn (turn m) in (m'.loop ≡ ended) × ((c : ℕ) → (conn_at m' c).is_close ≡ true)
unfolding turn
released threshold m r down =
    let v = Reaches-Inv threshold m r in
    let h = two_turns m m.loop refl down (v.stops ∙ down) in
    let v' = turn-Inv (turn m) (turn-Inv m v) in
    (
      h.0,
      λ c. elim (Bool-cases (conn_at (turn (turn m)) c).is_close) [
        | inl e ↦ e
        | inr o ↦ absurd (none_left _ v' h c (v'.tracked c o))
      ],
    )
