-- ===== src/Login/Attempts.antt =====
-- loginAttemptLimiter of web/controllers/login.go: how often one address and one user may try. The
-- maps are tables of Text/Table, a time is a number of nanoseconds and the zero Time is 0; the hash
-- of a user's name is a parameter.
pub mod Guesses
use nps.Prelude.{
  ℕ, ◌+◌, ◌*◌, ◌^◌, Option, none, some, List, [], ◌∷◌, ◌++◌, Bool, true, false, ◌&&◌, ◌||◌, not,
  ltb, leb, length, if◌then◌else◌,
}
use nps.Text.{Text, codes, same, is_empty, to_lower, trim_space}
use nps.Text.Table.{find, remove, put, keep}

-- loginAttemptRecord
pub record Attempts : Type 0 where
  pub key : Text
  pub count : ℕ
  pub window_from : ℕ
  pub last_attempt : ℕ

-- loginPolicy
pub record Policy : Type 0 where
  pub min_interval : ℕ
  pub ip_window : ℕ
  pub user_window : ℕ
  pub max_fails : ℕ

abbrev pub seconds : ℕ → ℕ
seconds n = n * 10 ^ 9

-- maxLoginFailures, loginFailureWindow and defaultLoginPolicy
abbrev pub default_policy : Policy
default_policy = record {
  min_interval = 0;
  ip_window = seconds 60;
  user_window = seconds 60;
  max_fails = 10;
}

abbrev pub Table : Type 0
Table = List (Text × Attempts)

-- loginAttemptLimiter
pub record Limiter : Type 0 where
  pub by_ip : Table
  pub by_username : Table
  pub capacity : ℕ
  pub next_cleanup : ℕ

-- newLoginAttemptLimiter
unfoldable pub new_limiter : ℕ → Limiter
new_limiter capacity = record {
  by_ip = [];
  by_username = [];
  capacity = if ltb capacity 1 then 1 else capacity;
  next_cleanup = 0;
}

abbrev pub is_open : ℕ → ℕ → Attempts → Bool
is_open window now e = ltb now (e.window_from + window)

-- removeExpiredLocked
unfoldable pub remove_expired : Policy → ℕ → Limiter → Limiter
remove_expired p now s = record s {
  by_ip = keep (is_open p.ip_window now) s.by_ip;
  by_username = keep (is_open p.user_window now) s.by_username;
}

-- cleanupLocked, with loginCleanupPeriod
unfoldable pub cleanup : Policy → ℕ → Limiter → Limiter
unfolding remove_expired
cleanup p now s =
    if ltb now s.next_cleanup
    then s
    else record (remove_expired p now s) { next_cleanup = now + seconds 15 }

-- loginUsernameKey, with the digest of SHA-256 in hexadecimal
abbrev pub Digest : Type 0
Digest = Text → Text

unfoldable pub user_key : Digest → Text → Text
user_key digest username = digest (to_lower (trim_space username))

unfoldable pub ip_key : Text → Text
ip_key ip = let trimmed = trim_space ip in if is_empty trimmed then codes "unknown" else trimmed

abbrev pub too_soon : Policy → ℕ → Option Attempts → Bool
too_soon p now none = false
too_soon p now (some e) = ltb now (e.last_attempt + p.min_interval)

abbrev pub used_up : Policy → ℕ → ℕ → Option Attempts → Bool
used_up p window now none = false
used_up p window now (some e) = is_open window now e && leb p.max_fails e.count

abbrev pub is_missing : Option Attempts → Bool
is_missing none = true
is_missing (some e) = false

abbrev pub no_room : Text → Text → Limiter → Bool
no_room ip user s =
    is_missing (find ip s.by_ip) && leb s.capacity (length s.by_ip)
    || is_missing (find user s.by_username) && leb s.capacity (length s.by_username)

-- The record after one more attempt: a new one, or one whose window starts anew
abbrev pub counted : Text → ℕ → ℕ → Option Attempts → Attempts
counted key window now none = record { key = key; count = 1; window_from = now; last_attempt = now }
counted key window now (some e) =
    if is_open window now e
    then record e { count = e.count + 1; last_attempt = now }
    else record e { count = 1; window_from = now; last_attempt = now }

unfoldable pub admit : Policy → Text → Text → ℕ → Limiter → Limiter
admit p ip user now s = record s {
  by_ip = put ip (counted ip p.ip_window now (find ip s.by_ip)) s.by_ip;
  by_username = put user (counted user p.user_window now (find user s.by_username)) s.by_username;
}

abbrev pub refused : Policy → Text → Text → ℕ → Limiter → Bool
refused p ip user now s =
    too_soon p now (find ip s.by_ip)
    || too_soon p now (find user s.by_username)
    || used_up p p.ip_window now (find ip s.by_ip)
    || used_up p p.user_window now (find user s.by_username)

-- What a full store is left with before it is asked again
abbrev pub made_room : Policy → Text → Text → ℕ → Limiter → Limiter
made_room p ip user now s = if no_room ip user s then remove_expired p now s else s

unfoldable pub try_admit : Policy → Text → Text → ℕ → Limiter → Limiter × Bool
unfolding admit
try_admit p ip user now t = if no_room ip user t then (t, false) else (admit p ip user now t, true)

unfoldable pub reserve_in : Policy → Text → Text → ℕ → Limiter → Limiter × Bool
unfolding try_admit remove_expired
reserve_in p ip user now s =
    if refused p ip user now s
    then (s, false)
    else try_admit p ip user now (made_room p ip user now s)

-- reserveWith, and reserve with the default policy
unfoldable pub reserve_with : Policy → Digest → Text → Text → ℕ → Limiter → Limiter × Bool
unfolding cleanup reserve_in
reserve_with p digest ip username now s =
    reserve_in p (ip_key ip) (user_key digest username) now (cleanup p now s)

-- removeBan
abbrev pub is_there : Option Attempts → Bool
is_there o = not (is_missing o)

unfoldable pub remove_ban : Digest → Text → Limiter → Limiter × Bool
remove_ban digest raw s =
    let key = trim_space raw in
    let hashed = user_key digest key in
    let others = remove hashed s.by_username in
    let left = keep (λ e. not (same e.key key)) others in
    if is_empty key then (s, false) else (
      record s { by_ip = remove key s.by_ip; by_username = left },
      is_there (find key s.by_ip)
          || is_there (find hashed s.by_username)
          || ltb (length left) (length others),
    )

-- removeAllBans
unfoldable pub remove_all_bans : Limiter → Limiter
remove_all_bans s = record s { by_ip = []; by_username = []; next_cleanup = 0 }

-- cleanBans, and clearExpired with the default policy
unfoldable pub clean_bans : Policy → ℕ → Limiter → Limiter
unfolding remove_expired
clean_bans p now s = record (remove_expired p now s) { next_cleanup = now + seconds 15 }

-- clear
unfoldable pub clear : Digest → Text → Text → Limiter → Limiter
clear digest ip username s = record s {
  by_ip = remove (trim_space ip) s.by_ip;
  by_username = remove (user_key digest username) s.by_username;
}

-- banList without the texts of the times and the order: each record with whether it is banned, and
-- whether it is of an address
unfoldable pub is_banned : Policy → ℕ → ℕ → Attempts → Bool
is_banned p window now e =
    ltb now (e.last_attempt + p.min_interval)
    || leb p.max_fails e.count && ltb now (e.window_from + window)

abbrev pub rows : Policy → ℕ → ℕ → Bool → Table → List (Attempts × Bool × Bool)
rows p window now kind [] = []
rows p window now kind ((k, e) ∷ m) = (e, is_banned p window now e, kind) ∷ rows p window now kind m

unfoldable pub ban_list : Policy → ℕ → Limiter → Limiter × List (Attempts × Bool × Bool)
unfolding remove_expired
ban_list p now s =
    let t = remove_expired p now s in
    (t, rows p p.ip_window now true t.by_ip ++ rows p p.user_window now false t.by_username)
