-- ===== src/Mux/Session/Growing.antt =====
-- New connections of a Mux (lib/nps_mux) find their places: NewConn and muxNewConn.
use nps.Prelude.{
  ℕ, ◌≡◌, ◌≢◌, sym, ap, ◌∙◌, some, [], ◌∷◌, ◌++◌, false, ◌⊎◌, inl, inr, length, Bool-cases,
  get_or-append_ne, get_or-append_new, ◌==◌, ==_iff, subst, arith,
}
use nps.Mux.Session.ConnMap
use nps.Mux.Session.ConnMap.{In, In-append, get-set_self, get-set_ne}
use nps.Mux.Session.{new_conn, Mux, no_conn, conn_at}
use nps.Mux.Session.Tracked.{IsOpen, Live, Located, queued, held, offered, mapped, Inv}

-- No connection that is open, or on its way to the map, has the number.
abbrev pub IsUnused : Mux → ℕ → Type 0
IsUnused m id = (c : ℕ) → Live m c → (conn_at m c).id ≢ id

abbrev pub added : Mux → ℕ → Mux
added m id = record m { conns = m.conns ++ (new_conn id ∷ []) }

pub added_self : (m : Mux) (id : ℕ) → conn_at (added m id) (length m.conns) ≡ new_conn id
unfolding conn_at
added_self m id = get_or-append_new m.conns (new_conn id) no_conn

added_other : (m : Mux) (id c : ℕ) → c ≢ length m.conns → conn_at (added m id) c ≡ conn_at m c
unfolding conn_at
added_other m id c n = get_or-append_ne m.conns c (new_conn id) no_conn n

-- What lives beside the new connection lived before.
added-Live : (m : Mux) (id c : ℕ) → c ≢ length m.conns → Live (added m id) c → Live m c
added-Live m id c n (inl o) = inl (ap (λ k. k.is_close) (sym (added_other m id c n)) ∙ o)
added-Live m id c n (inr w) = inr w

place-cases : (c d : ℕ) → (c ≡ d) ⊎ (c ≢ d)
place-cases c d = elim (Bool-cases (c == d)) [
  | inl e ↦ inl ((==_iff c d).0 e)
  | inr e ↦ inr (ground (arith, e))
]

added_id :
    (m : Mux) (id c : ℕ) → c ≢ length m.conns → (conn_at (added m id) c).id ≡ (conn_at m c).id
added_id m id c n = ap (λ k. k.id) (added_other m id c n)

pub self_id : (m : Mux) (id c : ℕ) → c ≡ length m.conns → (conn_at (added m id) c).id ≡ id
unfolding new_conn
self_id m id c e = ap (λ k. (conn_at (added m id) k).id) e ∙ ap (λ k. k.id) (added_self m id)

-- A connection more, which is still to get its place.
pub added-Inv :
    (m : Mux) (id : ℕ) → IsUnused m id → Inv m [] → Inv (added m id) (length m.conns ∷ [])
added-Inv m id unused v = record {
  tracked = λ c o. elim (place-cases c (length m.conns)) [
    | inl e ↦ inl (inl e)
    | inr n ↦ found c n (v.tracked c (ap (λ k. k.is_close) (sym (added_other m id c n)) ∙ o))
  ];
  distinct = λ c d lc ld e. elim (place-cases c (length m.conns)) [
    | inl ec ↦ elim (place-cases d (length m.conns)) [
      | inl ed ↦ ec ∙ sym ed
      | inr nd ↦ absurd (
          unused d (added-Live m id d nd ld) (sym (added_id m id d nd) ∙ sym e ∙ self_id m id c ec))
    ]
    | inr nc ↦ elim (place-cases d (length m.conns)) [
      | inl ed ↦
          absurd
            (unused c (added-Live m id c nc lc) (sym (added_id m id c nc) ∙ e ∙ self_id m id d ed))
      | inr nd ↦
          v.distinct c d (added-Live m id c nc lc) (added-Live m id d nd ld)
            (sym (added_id m id c nc) ∙ e ∙ added_id m id d nd)
    ]
  ];
  stops = v.stops;
  finished = v.finished;
}
  where
    found :
        (c : ℕ)
        → c ≢ length m.conns
        → In c [] ⊎ Located m c
        → In c (length m.conns ∷ []) ⊎ Located (added m id) c
    found c n (inl p) = absurd p
    found c n (inr (queued h)) = inr (queued h)
    found c n (inr (held h)) = inr (held h)
    found c n (inr (offered e h)) = inr (offered e h)
    found c n (inr (mapped e h)) =
        inr (mapped e (ap (ConnMap.get m.conn_map) (added_id m id c n) ∙ h))

-- Set keeps the others in the map, since their numbers differ.
abbrev pub with_entry : Mux → ℕ → Mux
with_entry m c = record m { conn_map = ConnMap.set m.conn_map (conn_at m c).id c }

pub with_entry-Inv : (m : Mux) (c : ℕ) → Live m c → Inv m (c ∷ []) → Inv (with_entry m c) (c ∷ [])
unfolding conn_at
with_entry-Inv m c lc v = record {
  tracked = λ d o. found d o (v.tracked d o);
  distinct = v.distinct;
  stops = v.stops;
  finished = v.finished;
}
  where
    found :
        (d : ℕ)
        → IsOpen m d
        → In d (c ∷ []) ⊎ Located m d
        → In d (c ∷ []) ⊎ Located (with_entry m c) d
    found d o (inl p) = inl p
    found d o (inr (queued h)) = inr (queued h)
    found d o (inr (held h)) = inr (held h)
    found d o (inr (offered e h)) = inr (offered e h)
    found d o (inr (mapped e h)) = elim (place-cases d c) [
      | inl same ↦ inl (inl same)
      | inr other ↦ inr (
          mapped e (
            get-set_ne m.conn_map (conn_at m c).id (conn_at m d).id c
              (λ same. other (v.distinct d c (inl o) lc same))
            ∙ h))
    ]

-- On an open mux the entry is a place.
pub entered-Inv :
    (m : Mux) (c : ℕ) → m.is_close ≡ false → Live m c → Inv m (c ∷ []) → Inv (with_entry m c) []
unfolding conn_at
entered-Inv m c up lc v =
    let v' = with_entry-Inv m c lc v in
    record {
      tracked = λ d o. elim (v'.tracked d o) [
        | inl (inl e) ↦ inr (
            mapped up (
              subst
                (λ k.
                  ConnMap.get (ConnMap.set m.conn_map (conn_at m c).id c) (conn_at m k).id ≡ some k)
                (sym e) (get-set_self m.conn_map (conn_at m c).id c)))
        | inl (inr p) ↦ absurd p
        | inr l ↦ inr l
      ];
      distinct = v.distinct;
      stops = v.stops;
      finished = v.finished;
    }
