-- ===== src/Quota/Slots.antt =====
-- lib/file/global_connections.go: the count of all forwarding connections, and its limit.
use nps.Prelude.{ℕ, ◌+◌, ◌-◌, Option, none, some, Bool, true, false, ◌&&◌, ltb, leb, if◌then◌else◌}

pub record Global : Type 0 where
  pub max_conn : ℕ
  pub now_conn : ℕ

-- A limit, or the one that a concurrent setting has stored.
unfoldable pub stored : Option ℕ → ℕ → ℕ
stored none limit = limit
stored (some n) limit = n

-- SetGlobalMaxConn
unfoldable pub set_global_max_conn : Global → ℕ → Global
set_global_max_conn g limit = record g { max_conn = limit }

-- acquireGlobalConn; `lowered` is stored after the reservation and before the second check.
unfoldable pub acquire_global : Global → Option ℕ → Bool × Global
unfolding stored
acquire_global g lowered =
    let updated = stored lowered g.max_conn in
    if ltb 0 g.max_conn && leb g.max_conn g.now_conn
    then (false, g)
    else if ltb 0 g.max_conn && (ltb 0 updated && ltb updated (g.now_conn + 1))
    then (false, record { max_conn = updated; now_conn = g.now_conn + 1 - 1 })
    else (true, record { max_conn = updated; now_conn = g.now_conn + 1 })

-- releaseGlobalConn
unfoldable pub release_global : Global → Global
release_global g = if ltb 0 g.now_conn then record g { now_conn = g.now_conn - 1 } else g
