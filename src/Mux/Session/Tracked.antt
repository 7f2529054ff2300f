-- ===== src/Mux/Session/Tracked.antt =====
-- Where the connections of a Mux (lib/nps_mux) that are not closed stand: each can be found by what
-- closes connections.
use nps.Prelude.{
  ℕ, ◌≡◌, refl, sym, ap, ◌∙◌, some, List, [], ◌∷◌, Bool, true, false, ◌⊎◌, inl, inr, Bool-cases,
  get_or, set, get_or-set_ne, get_or-set_same, ◌==◌, ==_iff, subst, arith, if_both,
}
use nps.Mux.Packet.{Packet}
use nps.Mux.Priority
use nps.Mux.Session.ConnMap
use nps.Mux.Session.ConnMap.{In, get-delete_ne, get-connections}
use nps.Mux.Session.{Conn, holds, offers, ended, Mux, no_conn, conn_at, put_conn, send_packet}

abbrev pub IsOpen : Mux → ℕ → Type 0
IsOpen m c = (conn_at m c).is_close ≡ false

-- A connection waits in newConnQueue, or is the one that the goroutine took from it; on an open mux
-- it may be in the map, on a closed one it may be the one that the goroutine offers.
pub data Located (m : Mux) (c : ℕ) : Type 0 where
  queued : In c m.new_conn_queue → Located m c
  held : m.loop ≡ holds c → Located m c
  offered : m.is_close ≡ true → m.loop ≡ offers c → Located m c
  mapped : m.is_close ≡ false → ConnMap.get m.conn_map (conn_at m c).id ≡ some c → Located m c

-- Not closed, or on its way to the map.
abbrev pub Live : Mux → ℕ → Type 0
Live m c = IsOpen m c ⊎ In c m.new_conn_queue ⊎ (m.loop ≡ holds c)

-- No two of these have the same number.
abbrev pub Distinct : Mux → Type 0
Distinct m = (c d : ℕ) → Live m c → Live m d → (conn_at m c).id ≡ (conn_at m d).id → c ≡ d

-- Some connections are about to be closed; all others that are not closed can be found.
pub record Inv (m : Mux) (pending : List ℕ) : Type 0 where
  pub tracked : (c : ℕ) → IsOpen m c → In c pending ⊎ Located m c
  pub distinct : Distinct m
  pub stops : m.queue_stop ≡ m.is_close
  pub finished : m.loop ≡ ended → (m.is_close ≡ true) × (m.new_conn_queue ≡ [])

-- The two states differ at most in what a packet or a user leaves in a connection.
pub record Alike (m m' : Mux) : Type 0 where
  pub is_close : m'.is_close ≡ m.is_close
  pub conn_map : m'.conn_map ≡ m.conn_map
  pub queue : m'.new_conn_queue ≡ m.new_conn_queue
  pub stop : m'.queue_stop ≡ m.queue_stop
  pub loop : m'.loop ≡ m.loop
  pub closed : (c : ℕ) → (conn_at m' c).is_close ≡ (conn_at m c).is_close
  pub ids : (c : ℕ) → (conn_at m' c).id ≡ (conn_at m c).id

Alike-Located : (m m' : Mux) (c : ℕ) → Alike m m' → Located m c → Located m' c
unfolding ConnMap.get conn_at
Alike-Located m m' c a (queued h) = queued (subst (In c) (sym a.queue) h)
Alike-Located m m' c a (held h) = held (a.loop ∙ h)
Alike-Located m m' c a (offered e h) = offered (a.is_close ∙ e) (a.loop ∙ h)
Alike-Located m m' c a (mapped e h) = mapped (a.is_close ∙ e) (rw (a.conn_map, a.ids c) h)

pub fewer-Distinct :
    (m m' : Mux)
    → ((c : ℕ) → Live m' c → Live m c)
    → ((c : ℕ) → (conn_at m' c).id ≡ (conn_at m c).id)
    → Distinct m
    → Distinct m'
fewer-Distinct m m' fewer ids h c d lc ld e =
    h c d (fewer c lc) (fewer d ld) (sym (ids c) ∙ e ∙ ids d)

Alike-Live : (m m' : Mux) (c : ℕ) → Alike m m' → Live m' c → Live m c
Alike-Live m m' c a (inl o) = inl (sym (a.closed c) ∙ o)
Alike-Live m m' c a (inr (inl h)) = inr (inl (subst (In c) a.queue h))
Alike-Live m m' c a (inr (inr h)) = inr (inr (sym a.loop ∙ h))

pub Alike-Inv : (m m' : Mux) (ps : List ℕ) → Alike m m' → Inv m ps → Inv m' ps
Alike-Inv m m' ps a v = record {
  tracked = λ c o. elim (v.tracked c (sym (a.closed c) ∙ o)) [
    | inl p ↦ inl p
    | inr l ↦ inr (Alike-Located m m' c a l)
  ];
  distinct = fewer-Distinct m m' (λ c. Alike-Live m m' c a) a.ids v.distinct;
  stops = a.stop ∙ v.stops ∙ sym a.is_close;
  finished = λ e. let (s, q) = v.finished (sym a.loop ∙ e) in (a.is_close ∙ s, a.queue ∙ q);
}

pub same-Alike : (m : Mux) → Alike m m
same-Alike m = record {
  is_close = refl;
  conn_map = refl;
  queue = refl;
  stop = refl;
  loop = refl;
  closed = λ c. refl;
  ids = λ c. refl;
}

pub Alike-trans : (m m' m'' : Mux) → Alike m m' → Alike m' m'' → Alike m m''
Alike-trans m m' m'' a b = record {
  is_close = b.is_close ∙ a.is_close;
  conn_map = b.conn_map ∙ a.conn_map;
  queue = b.queue ∙ a.queue;
  stop = b.stop ∙ a.stop;
  loop = b.loop ∙ a.loop;
  closed = λ c. b.closed c ∙ a.closed c;
  ids = λ c. b.ids c ∙ a.ids c;
}

pub requeued-Alike : (m : Mux) (q : Priority.Queue) → Alike m (record m { write_queue = q })
unfolding conn_at
requeued-Alike m q = record {
  is_close = refl;
  conn_map = refl;
  queue = refl;
  stop = refl;
  loop = refl;
  closed = λ c. refl;
  ids = λ c. refl;
}

pub send_packet-Alike : (m : Mux) (p : Packet) → Alike m (send_packet m p).1
unfolding send_packet
send_packet-Alike m p =
    if_both (λ (r : Bool × Mux). Alike m r.1) m.is_close (λ e. same-Alike m)
      λ e. requeued-Alike m (Priority.push m.write_queue p).0

-- What a write keeps of its own connection it keeps of all.
pub kept_at :
    {X : Type 0} (m : Mux) (c : ℕ) (conn : Conn) (f : Conn → X) (d : ℕ)
    → f conn ≡ f (conn_at m c)
    → f (conn_at (put_conn m c conn) d) ≡ f (conn_at m d)
unfolding conn_at
kept_at m c conn f d h = elim (Bool-cases (c == d)) [
  | inl here ↦
      subst (λ k. f (get_or (set m.conns c conn) k no_conn) ≡ f (get_or m.conns k no_conn))
        ((==_iff c d).0 here)
        (elim (get_or-set_same m.conns c conn no_conn) [ inl p ↦ ap f p ∙ h | inr p ↦ ap f p ])
  | inr there ↦ ap f (get_or-set_ne m.conns conn no_conn (ground (arith, there)))
]

-- The state of the connection alone, where it stays as open as it was, and keeps its number.
pub put_conn-Alike :
    (m : Mux) (c : ℕ) (conn : Conn)
    → conn.is_close ≡ (conn_at m c).is_close
    → conn.id ≡ (conn_at m c).id
    → Alike m (put_conn m c conn)
unfolding conn_at
put_conn-Alike m c conn e i = record {
  is_close = refl;
  conn_map = refl;
  queue = refl;
  stop = refl;
  loop = refl;
  closed = λ d. kept_at m c conn (λ k. k.is_close) d e;
  ids = λ d. kept_at m c conn (λ k. k.id) d i;
}

pub weaken : (m : Mux) (c : ℕ) (ps : List ℕ) → Inv m ps → Inv m (c ∷ ps)
weaken m c ps v = record {
  tracked = λ d o. elim (v.tracked d o) [ inl p ↦ inl (inr p) | inr l ↦ inr l ];
  distinct = v.distinct;
  stops = v.stops;
  finished = v.finished;
}
