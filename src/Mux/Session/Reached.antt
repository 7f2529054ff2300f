-- ===== src/Mux/Session/Reached.antt =====
-- Every state that a Mux (lib/nps_mux) comes to has its connections in their places.
use nps.Prelude.{ℕ, ◌≡◌, refl, [], ◌⊎◌, inl, inr, subst, arith, if_both}
use nps.Mux.Session.{new_conn, idle, holds, Mux, new, conn_at}
use nps.Mux.Session.ConnMap.{In}
use nps.Mux.Session.Accepting.{Accepted, accept}
use nps.Mux.Session.Tracked.{IsOpen, Inv}
use nps.Mux.Session.Shutting.{close_any-Inv, close-Inv}
use nps.Mux.Session.Keeping.{start-Inv, connect-Inv, settle-Inv}
use nps.Mux.Session.Roaming.{IsFree}
use nps.Mux.Session.Waiting.{turn-Inv, select-Inv}
use nps.Mux.Session.Handling.{
  arrive-Inv, drain-Inv, tick-Inv, read-Inv, write-Inv, write_session-Inv,
}
use nps.Mux.Session.Steps.{
  Step, connects, starts, settles, turns, accepts, selects, arrives, drains, ticks, reads, writes,
  closes, sends, ends, Reaches, begins, goes,
}

accept-Inv : (m : Mux) → Inv m [] → Inv (accept m).1 []
unfolding accept
accept-Inv m v =
    if_both (λ (r : Accepted × Mux). Inv r.1 []) m.is_close (λ e. v) (λ e. select-Inv m v)

step-Inv : (m m' : Mux) → Step m m' → Inv m [] → Inv m' []
step-Inv _ _ (connects m apart) v = connect-Inv m v apart
step-Inv _ _ (starts m apart) v = start-Inv m v apart
step-Inv _ _ (settles m c s) v = settle-Inv m c s v
step-Inv _ _ (turns m) v = turn-Inv m v
step-Inv _ _ (accepts m) v = accept-Inv m v
step-Inv _ _ (selects m) v = select-Inv m v
step-Inv _ _ (arrives m p e unused) v = arrive-Inv m p e unused v
step-Inv _ _ (drains m c) v = drain-Inv m c v
step-Inv _ _ (ticks m now) v = tick-Inv m now v
step-Inv _ _ (reads m c room) v = read-Inv m c room v
step-Inv _ _ (writes m c buf) v = write-Inv m c buf v
step-Inv _ _ (closes m c) v = close_any-Inv m c [] v
step-Inv _ _ (sends m broken) v = write_session-Inv m broken v
step-Inv _ _ (ends m) v = close-Inv m v

-- Nothing is open beyond the last connection.
new-Inv : (threshold : ℕ) → Inv (new threshold) []
unfolding new conn_at new_conn
new-Inv threshold = record {
  tracked = λ c o. absurd (ground (arith, o));
  distinct = λ c d lc ld e. absurd (dead c lc);
  stops = refl;
  finished = λ e. absurd (subst IsFree e tt);
}
  where
    dead : (c : ℕ) → IsOpen (new threshold) c ⊎ In c [] ⊎ (idle ≡ holds c) → ⊥
    dead c (inl o) = ground (arith, o)
    dead c (inr (inl h)) = h
    dead c (inr (inr h)) = subst IsFree h tt

pub Reaches-Inv : (threshold : ℕ) (m : Mux) → Reaches threshold m → Inv m []
Reaches-Inv threshold _ begins = new-Inv threshold
Reaches-Inv threshold _ (goes k m r s) = step-Inv k m s (Reaches-Inv threshold k r)
