-- ===== src/Quota/Limits.antt =====
-- GetConn and AddConn on one client: when a connection is admitted, and what each call counts.
use nps.Prelude.{
  zero, suc, ap, ◌∙◌, ℕ, ◌+◌, ◌-◌, ◌≤◌, ◌<◌, ◌≡◌, refl, List, [], ◌∷◌, Option, none, some, Bool,
  true, false, ◌&&◌, ltb, leb, if◌then◌else◌, arith, length, Bool-cases, inl, inr, ◌⊎◌,
}
use nps.Quota.Users.{
  User, reserve, put, or_new, Registry, Admission, refused, unaccounted, accounted, acquire_user,
  user_connections,
}
use nps.Quota.Slots.{Global, stored, acquire_global, release_global}
use nps.Quota.{
  Client, Shared, Race, cut_conn, remember, give_back, with_global, with_user, get_conn, pop_owner,
  add_conn,
}
use nps.Quota.Balance.{
  reserve-cases, one, share, Acquires, no_user, at_limit, takes, acquire_user-Acquires,
  connections-release_user,
}

-- The slots of a user that a reservation has taken and no connection holds yet.
abbrev pub pending : Option ℕ → ℕ → ℕ
pending none j = 0
pending (some id) j = one id j

-- What GetConn does: a connection counted everywhere and within the client's limit, or nothing.
pub data Serves (c : Client) (s : Shared) (owner : Option ℕ) : Bool × Client × Shared → Type 0 where
  admits :
      (s' : Shared)
      → (0 < c.max_conn → c.now_conn < c.max_conn)
      → (0 < s.global.max_conn → s.global.now_conn < s.global.max_conn)
      → s'.global.now_conn ≡ s.global.now_conn + 1
      → ((j : ℕ) → user_connections s'.users j ≡ user_connections s.users j)
      → Serves c s owner (true, remember (cut_conn c) owner, s')
  refuses :
      (s' : Shared)
      → s'.global.now_conn ≡ s.global.now_conn
      → ((j : ℕ) → user_connections s'.users j ≡ user_connections s.users j - pending owner j)
      → Serves c s owner (false, c, s')

pub connections-give_back :
    (users : Registry) (owner : Option ℕ) (j : ℕ)
    → user_connections (give_back users owner) j ≡ user_connections users j - pending owner j
unfolding give_back
connections-give_back users none j = omega arith
connections-give_back users (some id) j = connections-release_user users id j

acquire_global-cases :
    (g : Global) (lowered : Option ℕ)
    → ((g' : Global) × (acquire_global g lowered ≡ (false, g')) × (g'.now_conn ≡ g.now_conn))
      ⊎ ((g' : Global) × (acquire_global g lowered ≡ (true, g'))
          × (g'.now_conn ≡ g.now_conn + 1)
          × (0 < g.max_conn → g.now_conn < g.max_conn))
unfolding acquire_global
acquire_global-cases g lowered = elim (Bool-cases (ltb 0 g.max_conn && leb g.max_conn g.now_conn)) [
  | inl full ↦ inl (g, rw full refl, refl)
  | inr room ↦
      elim (Bool-cases (ltb 0 g.max_conn && (ltb 0 updated && ltb updated (g.now_conn + 1)))) [
        | inl over ↦ inl (
          record { max_conn = updated; now_conn = g.now_conn + 1 - 1 },
          rw (room, over) refl,
          omega arith,
        )
        | inr fits ↦ inr (
          record { max_conn = updated; now_conn = g.now_conn + 1 },
          rw (room, fits) refl,
          refl,
          λ limited. ground (arith, room, limited),
        )
      ]
]
  where
    updated : ℕ
    updated = stored lowered g.max_conn

with_user-Serves :
    (c : Client) (s : Shared) (owner : Option ℕ) (lowered : Option ℕ)
    → Serves c s owner (with_user c s owner lowered)
unfolding with_user with_global
with_user-Serves c s owner lowered =
    elim (Bool-cases (ltb 0 c.max_conn && leb c.max_conn c.now_conn)) [
      | inl full ↦ rw full (
          refuses (record s { users = give_back s.users owner }) refl
            (connections-give_back s.users owner))
      | inr room ↦ rw room (elim (acquire_global-cases s.global lowered) [
        | inl (g, e, n) ↦ rw e (
            refuses (record { users = give_back s.users owner; global = g }) n
              (connections-give_back s.users owner))
        | inr (g, e, n, limit) ↦ rw e (
            admits (record s { global = g }) (λ limited. ground (arith, room, limited)) limit n
              (λ j. refl))
      ])
    ]

-- What GetConn answers and leaves, for a client and the shared counters.
pub data Answers (c : Client) (s : Shared) : Bool × Client × Shared → Type 0 where
  connected :
      (c' : Client) (s' : Shared)
      → (0 < c.max_conn → c'.now_conn ≤ c.max_conn)
      → (0 < s.global.max_conn → s'.global.now_conn ≤ s.global.max_conn)
      → c'.now_conn ≡ c.now_conn + 1
      → s'.global.now_conn ≡ s.global.now_conn + 1
      → length c'.owners ≤ length c.owners + 1
      → ((j : ℕ)
          → user_connections s'.users j + share c.owners j
            ≡ user_connections s.users j + share c'.owners j)
      → Answers c s (true, c', s')
  turned_away :
      (s' : Shared)
      → s'.global.now_conn ≡ s.global.now_conn
      → ((j : ℕ) → user_connections s'.users j ≡ user_connections s.users j)
      → Answers c s (false, c, s')

-- The slot that was taken before is held by the connection, or is given back.
after_user :
    (c : Client) (s : Shared) (users : Registry) (owner : Option ℕ)
    → ((j : ℕ) → user_connections users j ≡ user_connections s.users j + pending owner j)
    → (r : Bool × Client × Shared) → Serves c (record s { users = users }) owner r
    → Answers c s r
unfolding cut_conn remember
after_user c s users none taken _ (admits s' limit global_limit counted same) =
    connected (cut_conn c) s' (λ l. omega (arith, limit l))
      (λ l. omega (arith, global_limit l, counted)) refl counted (omega arith)
      (λ j. omega (arith, same j, taken j))
after_user c s users (some id) taken _ (admits s' limit global_limit counted same) =
    connected (remember (cut_conn c) (some id)) s' (λ l. omega (arith, limit l))
      (λ l. omega (arith, global_limit l, counted)) refl counted (omega arith)
      (λ j. omega (arith, same j, taken j))
after_user c s users owner taken _ (refuses s' counted same) =
    turned_away s' counted (λ j. omega (arith, same j, taken j))

-- GetConn either admits a connection, within the limits of the client and of all connections, and
-- counts it once for the client, for all connections and for the owner that it remembers, or
-- changes no count, whatever limits are stored meanwhile.
pub get_conn-Answers : (c : Client) (s : Shared) (race : Race) → Answers c s (get_conn c s race)
unfolding get_conn
get_conn-Answers c s race =
    by_user (acquire_user s.users c.user_id race.user_limit)
      (acquire_user-Acquires s.users c.user_id race.user_limit)
  where
    by_user :
        (r : Admission × Registry)
        → Acquires s.users r
        → Answers c s (elim r.0 [
          | refused ↦ (false, c, record s { users = r.1 })
          | unaccounted ↦ with_user c (record s { users = r.1 }) none race.global_limit
          | accounted id ↦ with_user c (record s { users = r.1 }) (some id) race.global_limit
        ])
    by_user _ no_user =
        after_user c s s.users none (λ j. omega arith) (with_user c s none race.global_limit)
          (with_user-Serves c s none race.global_limit)
    by_user _ (at_limit users same) = turned_away (record s { users = users }) refl same
    by_user _ (takes id users same) =
        after_user c s users (some id) same
          (with_user c (record s { users = users }) (some id) race.global_limit)
          (with_user-Serves c (record s { users = users }) (some id) race.global_limit)

pop_owner-gives_back :
    (owners : List ℕ) (users : Registry) (j : ℕ)
    → let (rest, users') = pop_owner owners users in
      (user_connections users' j ≡ user_connections users j - (share owners j - share rest j))
      × (share rest j ≤ share owners j)
      × (length rest ≡ length owners - 1)
unfolding pop_owner
pop_owner-gives_back [] users j = (omega arith, omega arith, refl)
pop_owner-gives_back (id ∷ owners) users j =
    (omega (arith, connections-release_user users id j), omega arith, omega arith)

-- AddConn takes one connection off the client, one off all connections if the client had one, and
-- one off the last owner, as far as it was counted; and it forgets that owner.
pub add_conn-releases :
    (c : Client) (s : Shared) (j : ℕ)
    → let (c', s') = add_conn c s in
      (c'.now_conn ≡ c.now_conn - 1)
      × (s'.global.now_conn
          ≡ (if ltb 0 c.now_conn then s.global.now_conn - 1 else s.global.now_conn))
      × (user_connections s'.users j
          ≡ user_connections s.users j - (share c.owners j - share c'.owners j))
      × (share c'.owners j ≤ share c.owners j)
      × (length c'.owners ≡ length c.owners - 1)
unfolding add_conn release_global
add_conn-releases c s j =
    let (users, less, shorter) = pop_owner-gives_back c.owners s.users j in
    (refl, ground arith, users, less, shorter)

reserve-within :
    (u u' : User) (lowered : Option ℕ)
    → reserve u lowered ≡ (true, u')
    → 0 < u'.max_conn
    → u'.now_conn ≤ u'.max_conn
unfolding reserve
reserve-within u u' lowered e limited = ground arith

-- If acquireUserConnection accounts a connection to a user whose limit, after what a concurrent
-- setting may have stored, is positive, the count of the user is then within that limit.
pub acquire_user-within :
    (users : Registry) (id : ℕ) (lowered : Option ℕ) (u : User)
    → (acquire_user users id lowered).0 ≡ accounted id
    → (acquire_user users id lowered).1 id ≡ some u
    → 0 < u.max_conn
    → u.now_conn ≤ u.max_conn
unfolding acquire_user put
acquire_user-within users zero lowered u taken found limited = absurd (cc taken)
acquire_user-within users (suc id) lowered u taken found limited =
    elim (reserve-cases (or_new (users (suc id))) lowered) [
      | inl (u', e, n) ↦ absurd (ground (arith, ap (λ r. r.0) e, taken))
      | inr (u', e, n) ↦
          reserve-within (or_new (users (suc id))) u lowered
            (e ∙ ap (λ x. (true, x)) (stored_user u' e)) limited
    ]
  where
    stored_user : (u' : User) → reserve (or_new (users (suc id))) lowered ≡ (true, u') → u' ≡ u
    stored_user u' e = ground (arith, e, found)
