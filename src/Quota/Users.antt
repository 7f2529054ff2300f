-- ===== src/Quota/Users.antt =====
-- lib/file/user_runtime.go: the slots that all clients of one dashboard user share. The registry's
-- map is a function of the user id. The token buckets are kept by their limits alone.
use nps.Prelude.{
  ℕ, zero, suc, ◌+◌, ◌-◌, ◌*◌, ◌/◌, ◌^◌, Option, none, some, Bool, true, false, ◌&&◌, ltb, leb,
  ◌==◌, if◌then◌else◌,
}
use nps.Quota.Slots.{stored}

pub record User : Type 0 where
  pub max_conn : ℕ
  pub now_conn : ℕ
  -- the limits of the rate, up and down
  pub rate : ℕ × ℕ

abbrev pub Registry : Type 0
Registry = ℕ → Option User

unfoldable pub put : Registry → ℕ → Option User → Registry
put users id u other = if other == id then u else users other

-- The state that userRuntimeFor creates for a user that has none.
unfoldable pub or_new : Option User → User
or_new none = record { max_conn = 0; now_conn = 0; rate = (0, 0) }
or_new (some u) = u

-- limitBytes of rate_limits.go
unfoldable pub limit_bytes : ℕ → ℕ
limit_bytes k = if ltb ((2 ^ 63 - 1) / 1024) k then 2 ^ 63 - 1 else k * 1024

-- SetUserRuntimeLimits
unfoldable pub set_user_limits : Registry → ℕ → ℕ → ℕ → ℕ → Registry
unfolding put or_new limit_bytes
set_user_limits users zero max upload download = users
set_user_limits users (suc id) max upload download = put users (suc id) (
    some (record (or_new (users (suc id))) {
      max_conn = max;
      rate = (limit_bytes upload, limit_bytes download);
    }))

-- CleanupUserRuntime
unfoldable pub cleanup_user : Registry → ℕ → Registry
unfolding put
cleanup_user users zero = users
cleanup_user users (suc id) = put users (suc id) none

-- The answers of acquireUserConnection: (0, false, false), (0, false, true) and (id, true, true).
pub data Admission : Type 0 where
  refused unaccounted : Admission
  accounted : ℕ → Admission

-- The reservation on the state of one user; `lowered` is stored before the second check.
unfoldable pub reserve : User → Option ℕ → Bool × User
unfolding stored
reserve u lowered =
    let updated = stored lowered u.max_conn in
    if ltb 0 u.max_conn && leb u.max_conn u.now_conn
    then (false, u)
    else if ltb 0 updated && ltb updated (u.now_conn + 1)
    then (false, record u { max_conn = updated; now_conn = u.now_conn + 1 - 1 })
    else (true, record u { max_conn = updated; now_conn = u.now_conn + 1 })

-- acquireUserConnection
unfoldable pub acquire_user : Registry → ℕ → Option ℕ → Admission × Registry
unfolding put or_new reserve
acquire_user users zero lowered = (unaccounted, users)
acquire_user users (suc id) lowered =
    let (taken, u) = reserve (or_new (users (suc id))) lowered in
    (if taken then accounted (suc id) else refused, put users (suc id) (some u))

unfoldable pub release_state : Option User → Option User
release_state none = none
release_state (some u) =
    some (if ltb 0 u.now_conn then record u { now_conn = u.now_conn - 1 } else u)

-- releaseUserConnection
unfoldable pub release_user : Registry → ℕ → Registry
unfolding put release_state
release_user users zero = users
release_user users (suc id) = put users (suc id) (release_state (users (suc id)))

-- The connections of userConnections.
unfoldable pub connections_of : Option User → ℕ
connections_of none = 0
connections_of (some u) = u.now_conn

unfoldable pub user_connections : Registry → ℕ → ℕ
unfolding connections_of
user_connections users zero = 0
user_connections users (suc id) = connections_of (users (suc id))
