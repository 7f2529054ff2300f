-- ===== src/Quota/Balance.antt =====
-- How GetConn and AddConn move the counts of a client, of its user and of all connections.
use nps.Prelude.{
  ℕ, zero, suc, ◌+◌, ◌-◌, ◌≡◌, refl, sym, ap, ◌∙◌, List, [], ◌∷◌, Option, none, some, true, false,
  ◌&&◌, ltb, leb, ◌==◌, ==_iff, if◌then◌else◌, arith, Bool-cases, inl, inr, ◌⊎◌,
}
use nps.Quota.Users.{
  User, Registry, Admission, refused, unaccounted, accounted, put, or_new, reserve, acquire_user,
  release_state, release_user, connections_of, user_connections,
}
use nps.Quota.Slots.{stored}

abbrev pub one : ℕ → ℕ → ℕ
one id j = if j == id then 1 else 0

-- How many connections of a client are counted for a user.
abbrev pub share : List ℕ → ℕ → ℕ
share [] j = 0
share (id ∷ owners) j = one id j + share owners j

pub connections-put :
    (users : Registry) (id : ℕ) (u : Option User) (j : ℕ)
    → user_connections (put users (suc id) u) j
      ≡ (if j == suc id then connections_of u else user_connections users j)
unfolding user_connections put
connections-put users id u zero = ground arith
connections-put users id u (suc j) = elim (Bool-cases (suc j == suc id)) [
  | inl same ↦ rw same refl
  | inr other ↦ rw other refl
]

-- The counts of one user replaced by another number.
pub moved :
    (users : Registry) (id : ℕ) (u : Option User) (j n : ℕ)
    → connections_of u ≡ n
    → user_connections (put users (suc id) u) j
      ≡ (if j == suc id then n else user_connections users j)
moved users id u j n e =
    connections-put users id u j ∙ ap (λ m. if j == suc id then m else user_connections users j) e

pub same_user :
    (users : Registry) (id j : ℕ)
    → (j == id) ≡ true
    → user_connections users j ≡ user_connections users id
same_user users id j e = ap (user_connections users) ((==_iff j id).0 e)

pub connections-or_new : (u : Option User) → (or_new u).now_conn ≡ connections_of u
unfolding or_new connections_of
connections-or_new none = refl
connections-or_new (some u) = refl

pub data Acquires (users : Registry) : Admission × Registry → Type 0 where
  no_user : Acquires users (unaccounted, users)
  at_limit :
      (users' : Registry)
      → ((j : ℕ) → user_connections users' j ≡ user_connections users j)
      → Acquires users (refused, users')
  takes :
      (id : ℕ) (users' : Registry)
      → ((j : ℕ) → user_connections users' j ≡ user_connections users j + one id j)
      → Acquires users (accounted id, users')

pub kept :
    (users : Registry) (id j : ℕ)
    → (if j == id then user_connections users id else user_connections users j)
      ≡ user_connections users j
kept users id j = elim (Bool-cases (j == id)) [
  | inl same ↦ rw same (sym (same_user users id j same))
  | inr other ↦ rw other refl
]

added :
    (users : Registry) (id j : ℕ)
    → (if j == id then user_connections users id + 1 else user_connections users j)
      ≡ user_connections users j + one id j
added users id j = elim (Bool-cases (j == id)) [
  | inl same ↦ rw same (ap (λ m. m + 1) (sym (same_user users id j same)))
  | inr other ↦ rw other (omega arith)
]

pub removed :
    (users : Registry) (id j : ℕ)
    → (if j == id then user_connections users id - 1 else user_connections users j)
      ≡ user_connections users j - one id j
removed users id j = elim (Bool-cases (j == id)) [
  | inl same ↦ rw same (ap (λ m. m - 1) (sym (same_user users id j same)))
  | inr other ↦ rw other (omega arith)
]

pub reserve-cases :
    (u : User) (lowered : Option ℕ)
    → ((u' : User) × (reserve u lowered ≡ (false, u')) × (u'.now_conn ≡ u.now_conn))
      ⊎ ((u' : User) × (reserve u lowered ≡ (true, u')) × (u'.now_conn ≡ u.now_conn + 1))
unfolding reserve
reserve-cases u lowered = elim (Bool-cases (ltb 0 u.max_conn && leb u.max_conn u.now_conn)) [
  | inl full ↦ inl (u, rw full refl, refl)
  | inr room ↦ elim (Bool-cases (ltb 0 updated && ltb updated (u.now_conn + 1))) [
    | inl over ↦ inl (
      record u { max_conn = updated; now_conn = u.now_conn + 1 - 1 },
      rw (room, over) refl,
      omega arith,
    )
    | inr fits ↦
        inr (record u { max_conn = updated; now_conn = u.now_conn + 1 }, rw (room, fits) refl, refl)
  ]
]
  where
    updated : ℕ
    updated = stored lowered u.max_conn

pub acquire_user-Acquires :
    (users : Registry) (id : ℕ) (lowered : Option ℕ)
    → Acquires users (acquire_user users id lowered)
unfolding acquire_user user_connections connections_of
acquire_user-Acquires users zero lowered = no_user
acquire_user-Acquires users (suc id) lowered =
    elim (reserve-cases (or_new (users (suc id))) lowered) [
      | inl (u, e, n) ↦ rw e (
          at_limit (put users (suc id) (some u)) (λ j.
            moved users id (some u) j (user_connections users (suc id)) (n ∙ same_now)
            ∙ kept users (suc id) j))
      | inr (u, e, n) ↦ rw e (
          takes (suc id) (put users (suc id) (some u)) (λ j.
            moved users id (some u) j (user_connections users (suc id) + 1)
              (n ∙ ap (λ m. m + 1) same_now)
            ∙ added users (suc id) j))
    ]
  where
    same_now : (or_new (users (suc id))).now_conn ≡ user_connections users (suc id)
    same_now = connections-or_new (users (suc id))

connections-release_state :
    (u : Option User) → connections_of (release_state u) ≡ connections_of u - 1
unfolding connections_of release_state
connections-release_state none = refl
connections-release_state (some u) = ground arith

pub connections-release_user :
    (users : Registry) (id j : ℕ)
    → user_connections (release_user users id) j ≡ user_connections users j - one id j
unfolding release_user user_connections connections_of
connections-release_user users zero zero = refl
connections-release_user users zero (suc j) = ground arith
connections-release_user users (suc id) j =
    moved users id (release_state (users (suc id))) j (user_connections users (suc id) - 1)
      (connections-release_state (users (suc id)))
    ∙ removed users (suc id) j
