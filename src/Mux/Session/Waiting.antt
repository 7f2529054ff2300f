-- ===== src/Mux/Session/Waiting.antt =====
-- Accept and the goroutine that hands it connections (lib/nps_mux/mux.go) keep connections in their
-- places.
use nps.Prelude.{
  ℕ, ◌≡◌, refl, sym, ap, ◌∙◌, List, [], ◌∷◌, some, true, ◌⊎◌, inl, inr, Bool-cases, subst, if_both,
}
use nps.Mux.Packet.{nothing, mux_new_conn_ok}
use nps.Mux.Session.ConnMap
use nps.Mux.Session.ConnMap.{In, get-set_self}
use nps.Mux.Session.{Loop, idle, pops, holds, offers, confirms, ended, Mux, conn_at, close_conn}
use nps.Mux.Session.Accepting.{end_loop, popped, turn_at, turn, Accepted, receive, select}
use nps.Mux.Session.Tracked.{IsOpen, Live, Located, queued, held, offered, mapped, Inv, weaken}
use nps.Mux.Session.Shutting.{close_conn-Inv, close_any-Inv, send_info-Inv}
use nps.Mux.Session.Roaming.{
  IsEnded, IsHolding, IsOffering, IsFree, roam-Inv, end_loop-Inv, end_free-Inv, close_conn_rest,
}
use nps.Mux.Session.Growing.{with_entry, with_entry-Inv}

holds-eq : {c d : ℕ} → holds c ≡ holds d → d ≡ c
holds-eq e = sym (cc e)

offers-eq : {c d : ℕ} → offers c ≡ offers d → d ≡ c
offers-eq e = sym (cc e)

-- The goroutine takes a connection from the queue.
take-Inv :
    (m : Mux) (c : ℕ) (rest : List ℕ)
    → m.new_conn_queue ≡ c ∷ rest
    → m.loop ≡ pops
    → Inv m []
    → Inv (record m { new_conn_queue = rest; loop = holds c }) []
unfolding conn_at
take-Inv m c rest q l v = record {
  tracked = λ d o. elim (v.tracked d o) [
    | inl p ↦ absurd p
    | inr (queued h) ↦ inr (first d (subst (In d) q h))
    | inr (held h) ↦ absurd (subst IsFree (sym l ∙ h) tt)
    | inr (offered e h) ↦ absurd (subst IsFree (sym l ∙ h) tt)
    | inr (mapped e h) ↦ inr (mapped e h)
  ];
  distinct = λ d k ld lk. v.distinct d k (live d ld) (live k lk);
  stops = v.stops;
  finished = λ e. absurd (subst IsEnded (sym e) tt);
}
  where
    first :
        (d : ℕ) → In d (c ∷ rest) → Located (record m { new_conn_queue = rest; loop = holds c }) d
    first d (inl e) = held (ap holds (sym e))
    first d (inr h) = queued h

    live : (d : ℕ) → Live (record m { new_conn_queue = rest; loop = holds c }) d → Live m d
    live d (inl o) = inl o
    live d (inr (inl h)) = inr (inl (subst (In d) (sym q) (inr h)))
    live d (inr (inr h)) = inr (inl (subst (In d) (sym q) (inl (holds-eq h))))

-- It takes one that is to be closed.
drop-Inv :
    (m : Mux) (c : ℕ) (rest : List ℕ)
    → m.new_conn_queue ≡ c ∷ rest
    → m.loop ≡ pops
    → Inv m []
    → Inv (record m { new_conn_queue = rest }) (c ∷ [])
unfolding conn_at
drop-Inv m c rest q l v = record {
  tracked = λ d o. elim (v.tracked d o) [
    | inl p ↦ absurd p
    | inr (queued h) ↦ first d (subst (In d) q h)
    | inr (held h) ↦ inr (held h)
    | inr (offered e h) ↦ inr (offered e h)
    | inr (mapped e h) ↦ inr (mapped e h)
  ];
  distinct = λ d k ld lk. v.distinct d k (live d ld) (live k lk);
  stops = v.stops;
  finished = λ e. absurd (subst IsFree (sym l ∙ e) tt);
}
  where
    first :
        (d : ℕ) → In d (c ∷ rest) → In d (c ∷ []) ⊎ Located (record m { new_conn_queue = rest }) d
    first d (inl e) = inl (inl e)
    first d (inr h) = inr (queued h)

    live : (d : ℕ) → Live (record m { new_conn_queue = rest }) d → Live m d
    live d (inl o) = inl o
    live d (inr (inl h)) = inr (inl (subst (In d) (sym q) (inr h)))
    live d (inr (inr h)) = inr (inr h)

popped-Inv :
    (m : Mux) (xs : List ℕ)
    → m.new_conn_queue ≡ xs
    → m.loop ≡ pops
    → Inv m []
    → Inv (popped m xs) []
unfolding popped
popped-Inv m [] q l v =
    if_both (λ k. Inv k []) m.queue_stop
      (λ e. end_free-Inv m (sym v.stops ∙ e) (subst IsFree (sym l) tt) v) (λ e. v)
popped-Inv m (c ∷ rest) q l v =
    let m' = record m { new_conn_queue = rest } in
    let (shut, down, loop, queue) = close_conn_rest m' c in
    if_both (λ k. Inv k []) m.is_close
      (λ e.
        end_free-Inv (close_conn m' c) (down ∙ e) (subst IsFree (sym (loop ∙ l)) tt)
          (close_conn-Inv m' c [] (drop-Inv m c rest q l v)))
      (λ e. take-Inv m c rest q l v)

-- The goroutine enters what it holds in the map, and offers it.
offer-Inv :
    (m : Mux) (c : ℕ)
    → m.loop ≡ holds c
    → Inv m []
    → Inv (record m { conn_map = ConnMap.set m.conn_map (conn_at m c).id c; loop = offers c }) []
unfolding conn_at
offer-Inv m c l v =
    let v' = with_entry-Inv m c (inr (inr l)) (weaken m c [] v) in
    record {
      tracked = λ d o. inr (placed d (v'.tracked d o));
      distinct = λ d k ld lk. v.distinct d k (live d ld) (live k lk);
      stops = v.stops;
      finished = λ e. absurd (subst IsEnded (sym e) tt);
    }
  where
    after : Mux
    after = record m { conn_map = ConnMap.set m.conn_map (conn_at m c).id c; loop = offers c }

    here : (d : ℕ) → d ≡ c → Located after d
    here d e = elim (Bool-cases m.is_close) [
      | inl down ↦ offered down (ap offers (sym e))
      | inr up ↦ mapped up (
          subst
            (λ k. ConnMap.get (ConnMap.set m.conn_map (conn_at m c).id c) (conn_at m k).id ≡ some k)
            (sym e) (get-set_self m.conn_map (conn_at m c).id c))
    ]

    placed : (d : ℕ) → In d (c ∷ []) ⊎ Located (with_entry m c) d → Located after d
    placed d (inl (inl e)) = here d e
    placed d (inl (inr p)) = absurd p
    placed d (inr (queued h)) = queued h
    placed d (inr (held h)) = here d (holds-eq (sym l ∙ h))
    placed d (inr (offered e h)) = absurd (subst IsHolding (sym l ∙ h) tt)
    placed d (inr (mapped e h)) = mapped e h

    live : (d : ℕ) → Live after d → Live m d
    live d (inl o) = inl o
    live d (inr (inl h)) = inr (inl h)
    live d (inr (inr h)) = absurd (subst IsHolding (sym h) tt)

-- Accept takes what is offered; on a closed mux it is still to be closed.
handed-Inv :
    (m : Mux) (c : ℕ) (ps : List ℕ)
    → m.loop ≡ offers c
    → (m.is_close ≡ true → In c ps)
    → Inv m []
    → Inv (record m { loop = confirms c }) ps
unfolding conn_at
handed-Inv m c ps l pending v = record {
  tracked = λ d o. elim (v.tracked d o) [
    | inl p ↦ absurd p
    | inr (queued h) ↦ inr (queued h)
    | inr (held h) ↦ absurd (subst IsOffering (sym l ∙ h) tt)
    | inr (offered e h) ↦ inl (subst (λ k. In k ps) (sym (offers-eq (sym l ∙ h))) (pending e))
    | inr (mapped e h) ↦ inr (mapped e h)
  ];
  distinct = λ d k ld lk. v.distinct d k (live d ld) (live k lk);
  stops = v.stops;
  finished = λ e. absurd (subst IsFree e tt);
}
  where
    live : (d : ℕ) → Live (record m { loop = confirms c }) d → Live m d
    live d (inl o) = inl o
    live d (inr (inl h)) = inr (inl h)
    live d (inr (inr h)) = absurd (subst IsFree h tt)

ended_offer-Inv :
    (m : Mux) (c : ℕ)
    → m.loop ≡ offers c
    → m.is_close ≡ true
    → Inv m []
    → Inv (end_loop (close_conn m c)) []
ended_offer-Inv m c l e v =
    let (shut, down, loop, queue) = close_conn_rest m c in
    end_loop-Inv (close_conn m c) (down ∙ e) (λ d o h. subst IsOffering (sym l ∙ sym loop ∙ h) tt)
      (λ d o h.
        absurd (cc (subst (IsOpen (close_conn m c)) (offers-eq (sym l ∙ sym loop ∙ h)) o, shut)))
      (close_any-Inv m c [] v)

turn_at-Inv : (m : Mux) (l : Loop) → m.loop ≡ l → Inv m [] → Inv (turn_at m l) []
unfolding turn_at
turn_at-Inv m idle l v =
    if_both (λ k. Inv k []) m.is_close (λ e. end_free-Inv m e (subst IsFree (sym l) tt) v)
      λ e. roam-Inv m pops (subst IsFree (sym l) tt) tt v
turn_at-Inv m pops l v = popped-Inv m m.new_conn_queue refl l v
turn_at-Inv m (holds c) l v = offer-Inv m c l v
turn_at-Inv m (offers c) l v =
    if_both (λ k. Inv k []) m.is_close (λ e. ended_offer-Inv m c l e v) (λ e. v)
turn_at-Inv m (confirms c) l v =
    send_info-Inv (record m { loop = idle }) mux_new_conn_ok (conn_at m c).id nothing
      (roam-Inv m idle (subst IsFree (sym l) tt) tt v)
turn_at-Inv m ended l v = v

pub turn-Inv : (m : Mux) → Inv m [] → Inv (turn m) []
unfolding turn
turn-Inv m v = turn_at-Inv m m.loop refl v

receive-Inv : (m : Mux) (l : Loop) → m.loop ≡ l → Inv m [] → Inv (receive m l).1 []
unfolding receive
receive-Inv m (offers c) l v =
    if_both (λ (r : Accepted × Mux). Inv r.1 []) m.is_close
      (λ e.
        close_conn-Inv (record m { loop = confirms c }) c []
          (handed-Inv m c (c ∷ []) l (λ e. inl refl) v))
      (λ up. handed-Inv m c [] l (λ e. absurd (cc (up, e))) v)
receive-Inv m idle l v = v
receive-Inv m pops l v = v
receive-Inv m (holds c) l v = v
receive-Inv m (confirms c) l v = v
receive-Inv m ended l v = v

pub select-Inv : (m : Mux) → Inv m [] → Inv (select m).1 []
unfolding select
select-Inv m v = receive-Inv m m.loop refl v
