-- ===== src/Quota.antt =====
-- The connection quotas of lib/file: user_runtime.go, global_connections.go, and GetConn, CutConn,
-- AddConn and rememberUserConn of Client in obj.go. A limit of 0 or less is the 0 of no limit, and a
-- user id of 0 or less the 0 of no user. The counts are not bounded by the width of their words.
pub mod Users
pub mod Slots
pub mod Balance
pub mod Limits
pub mod Steps
pub mod System
use nps.Prelude.{
  ℕ, ◌+◌, ◌-◌, List, [], ◌∷◌, Option, none, some, Bool, true, false, ◌&&◌, ltb, leb, ◌==◌,
  if◌then◌else◌,
}
use Users.{Registry, Admission, refused, unaccounted, accounted, acquire_user, release_user}
use Slots.{Global, acquire_global, release_global}

-- The part of Client that the quotas use; the last owner is at the head of `owners`.
pub record Client : Type 0 where
  pub max_conn : ℕ
  pub user_id : ℕ
  pub now_conn : ℕ
  pub owners : List ℕ

-- The counters that every client shares.
pub record Shared : Type 0 where
  pub users : Registry
  pub global : Global

-- The limits that concurrent settings store between a reservation and its second check.
pub record Race : Type 0 where
  pub user_limit : Option ℕ
  pub global_limit : Option ℕ

-- CutConn
unfoldable pub cut_conn : Client → Client
cut_conn c = record c { now_conn = c.now_conn + 1 }

-- rememberUserConn
unfoldable pub remember : Client → Option ℕ → Client
remember c none = c
remember c (some id) = record c { owners = id ∷ c.owners }

unfoldable pub give_back : Registry → Option ℕ → Registry
give_back users none = users
give_back users (some id) = release_user users id

-- What follows the client's own reservation: the global slot, or the release of what was taken.
unfoldable pub with_global : Client → Shared → Option ℕ → Option ℕ → Bool × Client × Shared
unfolding remember give_back cut_conn
with_global c s owner lowered =
    let (taken, global) = acquire_global s.global lowered in
    if taken
    then (true, remember (cut_conn c) owner, record s { global = global })
    else (false, c, record { users = give_back s.users owner; global = global })

-- GetConn once the user has a slot, or needs none
unfoldable pub with_user : Client → Shared → Option ℕ → Option ℕ → Bool × Client × Shared
unfolding with_global
with_user c s owner lowered =
    if ltb 0 c.max_conn && leb c.max_conn c.now_conn
    then (false, c, record s { users = give_back s.users owner })
    else with_global c s owner lowered

-- GetConn
unfoldable pub get_conn : Client → Shared → Race → Bool × Client × Shared
unfolding with_user
get_conn c s race =
    let (admission, users) = acquire_user s.users c.user_id race.user_limit in
    elim admission [
      | refused ↦ (false, c, record s { users = users })
      | unaccounted ↦ with_user c (record s { users = users }) none race.global_limit
      | accounted id ↦ with_user c (record s { users = users }) (some id) race.global_limit
    ]

-- The second half of AddConn: the last owner gets the slot back.
unfoldable pub pop_owner : List ℕ → Registry → List ℕ × Registry
pop_owner [] users = ([], users)
pop_owner (id ∷ owners) users = (owners, release_user users id)

-- AddConn
unfoldable pub add_conn : Client → Shared → Client × Shared
unfolding pop_owner
add_conn c s =
    let (owners, users) = pop_owner c.owners s.users in
    (
      record c { now_conn = c.now_conn - 1; owners = owners },
      record {
        users = users;
        global = if ltb 0 c.now_conn then release_global s.global else s.global;
      },
    )
