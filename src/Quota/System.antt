-- ===== src/Quota/System.antt =====
-- Sequences of steps of all clients with the counters that they share.
use nps.Prelude.{
  ℕ, zero, suc, ◌+◌, ◌≤◌, ◌≡◌, refl, ◌∙◌, List, [], ◌∷◌, ◌++◌, none, Bool, ◌==◌, arith, length, All,
  All-append, Bool-cases, inl, inr,
}
use nps.Quota.Users.{Registry, set_user_limits, cleanup_user, connections_of, user_connections}
use nps.Quota.Slots.{set_global_max_conn}
use nps.Quota.{Client, Shared, get_conn, add_conn}
use nps.Quota.Balance.{share, connections-put, connections-or_new, moved, kept}
use nps.Quota.Limits.{Answers, connected, turned_away, get_conn-Answers, add_conn-releases}
use nps.Quota.Steps.{
  System, system, Step, gets, gives, joins, sets_global, sets_user, deletes_user, connections,
  held_for, Owned, Balanced,
}

connections-append :
    (xs ys : List Client) → connections (xs ++ ys) ≡ connections xs + connections ys
connections-append [] ys = omega arith
connections-append (x ∷ xs) ys = omega (arith, connections-append xs ys)

held_for-append :
    (xs ys : List Client) (j : ℕ) → held_for (xs ++ ys) j ≡ held_for xs j + held_for ys j
held_for-append [] ys j = omega arith
held_for-append (x ∷ xs) ys j = omega (arith, held_for-append xs ys j)

All-split :
    (before : List Client) (c : Client) (after : List Client)
    → All Owned (before ++ (c ∷ after))
    → All Owned before × Owned c × All Owned after
All-split [] c after h = (tt, h.0, h.1)
All-split (x ∷ before) c after h = let (a, b, d) = All-split before c after h.1 in ((h.0, a), b, d)

-- A step of one client keeps the balance if it moves the counts together.
pub one_client-Balanced :
    (before : List Client) (c c' : Client) (after : List Client) (s s' : Shared)
    → Balanced (system before c after s)
    → s'.global.now_conn + c.now_conn ≡ s.global.now_conn + c'.now_conn
    → (Owned c → Owned c')
    → ((j : ℕ)
        → user_connections s.users j ≤ held_for before j + share c.owners j + held_for after j
        → user_connections s'.users j ≤ held_for before j + share c'.owners j + held_for after j)
    → Balanced (system before c' after s')
one_client-Balanced before c c' after s s' b all owns users = record {
  all = omega (
    arith,
    b.all,
    all,
    connections-append before (c ∷ after),
    connections-append before (c' ∷ after),
  );
  owned =
      let (a, d, e) = All-split before c after b.owned in
      All-append Owned before (c' ∷ after) a (owns d, e);
  users = λ j. omega (
    arith,
    held_for-append before (c' ∷ after) j,
    users j (omega (arith, b.users j, held_for-append before (c ∷ after) j)),
  );
}

gets-Balanced :
    (before : List Client) (c : Client) (after : List Client) (s : Shared)
    → (r : Bool × Client × Shared) → Answers c s r
    → Balanced (system before c after s)
    → Balanced (system before r.1 after r.2)
gets-Balanced before c after s _ (connected c' s' limit global_limit counted all owners users) b =
    one_client-Balanced before c c' after s s' b (omega (arith, counted, all))
      (λ owned. omega (arith, owned, counted, owners)) (λ j h. omega (arith, users j, h))
gets-Balanced before c after s _ (turned_away s' all users) b =
    one_client-Balanced before c c after s s' b (omega (arith, all)) (λ owned. owned)
      (λ j h. omega (arith, users j, h))

gives-Balanced :
    (before : List Client) (c : Client) (after : List Client) (s : Shared)
    → Balanced (system before c after s)
    → Balanced (system before (add_conn c s).0 after (add_conn c s).1)
gives-Balanced before c after s b =
    one_client-Balanced before c (add_conn c s).0 after s (add_conn c s).1 b
      (ground (arith, (add_conn-releases c s 0).0, (add_conn-releases c s 0).1, counted))
      (λ owned. omega (arith, owned, add_conn-releases c s 0))
      (λ j h. omega (arith, h, add_conn-releases c s j))
  where
    counted : c.now_conn ≤ s.global.now_conn
    counted = omega (arith, b.all, connections-append before (c ∷ after))

set_user_limits-connections :
    (users : Registry) (id max upload download j : ℕ)
    → user_connections (set_user_limits users id max upload download) j ≡ user_connections users j
unfolding set_user_limits user_connections connections_of
set_user_limits-connections users zero max upload download j = refl
set_user_limits-connections users (suc id) max upload download j =
    moved users id _ j (user_connections users (suc id)) (connections-or_new (users (suc id)))
    ∙ kept users (suc id) j

cleanup_user-connections :
    (users : Registry) (id j : ℕ)
    → user_connections (cleanup_user users id) j ≤ user_connections users j
unfolding cleanup_user connections_of
cleanup_user-connections users zero j = omega arith
cleanup_user-connections users (suc id) j =
    rw (connections-put users id none j) (elim (Bool-cases (j == suc id)) [
      | inl same ↦ rw same (omega arith)
      | inr other ↦ rw other (omega arith)
    ])

-- If the counts are in balance (the global count is the sum over the clients, no client remembers
-- more owners than connections, no user is counted for more than is remembered), they are after
-- any step: a call of any client, a new client, a change of settings, a deleted user.
pub Step-Balanced : (y z : System) → Step y z → Balanced y → Balanced z
unfolding set_global_max_conn
Step-Balanced _ _ (gets before c after s race) b =
    gets-Balanced before c after s (get_conn c s race) (get_conn-Answers c s race) b
Step-Balanced _ _ (gives before c after s) b = gives-Balanced before c after s b
Step-Balanced _ _ (joins clients s max_conn user_id) b = record {
  all = omega (arith, b.all);
  owned = (omega arith, b.owned);
  users = λ j. omega (arith, b.users j);
}
Step-Balanced _ _ (sets_global clients s limit) b = record {
  all = b.all;
  owned = b.owned;
  users = b.users;
}
Step-Balanced _ _ (sets_user clients s id max upload download) b = record {
  all = b.all;
  owned = b.owned;
  users =
      λ j. omega (arith, b.users j, set_user_limits-connections s.users id max upload download j);
}
Step-Balanced _ _ (deletes_user clients s id) b = record {
  all = b.all;
  owned = b.owned;
  users = λ j. omega (arith, b.users j, cleanup_user-connections s.users id j);
}

-- Nothing has been counted yet.
abbrev pub start : System
start = record {
  clients = [];
  shared = record { users = λ id. none; global = record { max_conn = 0; now_conn = 0 } };
}

pub data Reaches : System → Type 0 where
  at_start : Reaches start
  after_step : (y z : System) → Reaches y → Step y z → Reaches z

no_users : (j : ℕ) → user_connections start.shared.users j ≤ 0
unfolding user_connections connections_of
no_users zero = omega arith
no_users (suc j) = omega arith

pub Reaches-Balanced : (y : System) → Reaches y → Balanced y
Reaches-Balanced _ at_start = record { all = refl; owned = tt; users = no_users }
Reaches-Balanced _ (after_step y z r s) = Step-Balanced y z s (Reaches-Balanced y r)

abbrev pub Idle : Client → Type 0
Idle c = c.now_conn ≡ 0

Idle-connections : (cs : List Client) → All Idle cs → connections cs ≡ 0
Idle-connections [] h = refl
Idle-connections (c ∷ cs) h = omega (arith, h.0, Idle-connections cs h.1)

Idle-held_for : (cs : List Client) (j : ℕ) → All Idle cs → All Owned cs → held_for cs j ≡ 0
Idle-held_for [] j h o = refl
Idle-held_for (c ∷ cs) j h o =
    omega (arith, no_owner c.owners j (omega (arith, h.0, o.0)), Idle-held_for cs j h.1 o.1)
  where
    no_owner : (owners : List ℕ) (j : ℕ) → length owners ≡ 0 → share owners j ≡ 0
    no_owner [] j e = refl
    no_owner (x ∷ xs) j e = absurd (omega (arith, e))

-- After any steps from the start, if no client has a connection, the global count and the count
-- of every user are 0.
pub Reaches-no_leak :
    (y : System)
    → Reaches y
    → All Idle y.clients
    → (y.shared.global.now_conn ≡ 0) × ((j : ℕ) → user_connections y.shared.users j ≡ 0)
Reaches-no_leak y r idle =
    let b = Reaches-Balanced y r in
    (
      omega (arith, b.all, Idle-connections y.clients idle),
      λ j. omega (arith, b.users j, Idle-held_for y.clients j idle b.owned),
    )
