-- ===== src/Mux/Session/Roaming.antt =====
-- Where the goroutine that hands connections to Accept (lib/nps_mux/mux.go) stands, and how it ends.
use nps.Prelude.{none, ap, ℕ, ◌≡◌, refl, ◌∙◌, List, [], ◌∷◌, true, inl, inr, subst, if_both}
use nps.Mux.Session.{
  Loop, idle, pops, holds, offers, confirms, ended, Mux, conn_at, close_conn, close_conns,
}
use nps.Mux.Session.ConnMap
use nps.Mux.Session.ConnMap.{get-delete_self}
use nps.Mux.Session.Accepting.{end_loop}
use nps.Mux.Session.Tracked.{IsOpen, Live, queued, held, offered, mapped, Inv}
use nps.Mux.Session.Shutting.{gone_self, close_process-Alike, close_conns-Inv}

abbrev pub IsEnded : Loop → Type 0
IsEnded ended = Unit
IsEnded l = ⊥

abbrev pub IsHolding : Loop → Type 0
IsHolding (holds c) = Unit
IsHolding l = ⊥

abbrev pub IsOffering : Loop → Type 0
IsOffering (offers c) = Unit
IsOffering l = ⊥

-- The goroutine has no connection in its hands, and has not ended.
abbrev pub IsFree : Loop → Type 0
IsFree idle = Unit
IsFree pops = Unit
IsFree (confirms c) = Unit
IsFree (holds c) = ⊥
IsFree (offers c) = ⊥
IsFree ended = ⊥

pub roam-Inv :
    (m : Mux) (l : Loop) → IsFree m.loop → IsFree l → Inv m [] → Inv (record m { loop = l }) []
unfolding conn_at
roam-Inv m l free free' v = record {
  tracked = λ c o. elim (v.tracked c o) [
    | inl p ↦ absurd p
    | inr (queued h) ↦ inr (queued h)
    | inr (held h) ↦ absurd (subst IsFree h free)
    | inr (offered e h) ↦ absurd (subst IsFree h free)
    | inr (mapped e h) ↦ inr (mapped e h)
  ];
  distinct = λ c d lc ld. v.distinct c d (live c lc) (live d ld);
  stops = v.stops;
  finished = λ e. absurd (subst IsFree e free');
}
  where
    live : (c : ℕ) → Live (record m { loop = l }) c → Live m c
    live c (inl o) = inl o
    live c (inr (inl h)) = inr (inl h)
    live c (inr (inr h)) = absurd (subst IsFree h free')

-- The goroutine ends when what it held is closed.
pub end_loop-Inv :
    (m : Mux)
    → m.is_close ≡ true
    → ((c : ℕ) → IsOpen m c → m.loop ≡ holds c → ⊥)
    → ((c : ℕ) → IsOpen m c → m.loop ≡ offers c → ⊥)
    → Inv m []
    → Inv (end_loop m) []
unfolding end_loop conn_at
end_loop-Inv m down unheld unoffered v = close_conns-Inv _ m.new_conn_queue record {
  tracked = λ c o. elim (v.tracked c o) [
    | inl p ↦ absurd p
    | inr (queued h) ↦ inl h
    | inr (held h) ↦ absurd (unheld c o h)
    | inr (offered e h) ↦ absurd (unoffered c o h)
    | inr (mapped e h) ↦ absurd (cc (down, e))
  ];
  distinct = λ c d lc ld. v.distinct c d (live c lc) (live d ld);
  stops = v.stops;
  finished = λ e. (down, refl);
}
  where
    live : (c : ℕ) → Live (record m { loop = ended; new_conn_queue = [] }) c → Live m c
    live c (inl o) = inl o
    live c (inr (inl h)) = absurd h
    live c (inr (inr h)) = absurd (subst IsEnded h tt)

pub end_free-Inv : (m : Mux) → m.is_close ≡ true → IsFree m.loop → Inv m [] → Inv (end_loop m) []
end_free-Inv m down free =
    end_loop-Inv m down (λ c o h. subst IsFree h free) (λ c o h. subst IsFree h free)

-- What closing a connection leaves of the rest of the mux.
pub close_conn_rest :
    (m : Mux) (c : ℕ)
    → let m' = close_conn m c in
      ((conn_at m' c).is_close ≡ true)
      × (m'.is_close ≡ m.is_close)
      × (m'.loop ≡ m.loop)
      × (m'.new_conn_queue ≡ m.new_conn_queue)
unfolding close_conn
close_conn_rest m c =
    if_both
      (λ (k : Mux).
        ((conn_at k c).is_close ≡ true)
        × (k.is_close ≡ m.is_close)
        × (k.loop ≡ m.loop)
        × (k.new_conn_queue ≡ m.new_conn_queue))
      (conn_at m c).is_close (λ e. (e, refl, refl, refl))
      λ o.
        let a = close_process-Alike m c in
        (a.closed c ∙ gone_self m c o, a.is_close, a.loop, a.queue)

pub close_conns_loop : (m : Mux) (cs : List ℕ) → (close_conns m cs).loop ≡ m.loop
unfolding close_conns
close_conns_loop m [] = refl
close_conns_loop m (c ∷ cs) = close_conns_loop (close_conn m c) cs ∙ (close_conn_rest m c).2

pub close_conns_down : (m : Mux) (cs : List ℕ) → (close_conns m cs).is_close ≡ m.is_close
unfolding close_conns
close_conns_down m [] = refl
close_conns_down m (c ∷ cs) = close_conns_down (close_conn m c) cs ∙ (close_conn_rest m c).1

-- An open connection that is closed leaves the map.
pub close_conn-unmapped :
    (m : Mux) (c : ℕ) → IsOpen m c → ConnMap.get (close_conn m c).conn_map (conn_at m c).id ≡ none
unfolding close_conn
close_conn-unmapped m c o =
    if_both (λ (k : Mux). ConnMap.get k.conn_map (conn_at m c).id ≡ none) (conn_at m c).is_close
      (λ h. absurd (cc (o, h)))
      λ h.
        ap (λ (t : List (ℕ × ℕ)). ConnMap.get t (conn_at m c).id) (close_process-Alike m c).conn_map
        ∙ get-delete_self m.conn_map (conn_at m c).id
