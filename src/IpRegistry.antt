-- ===== src/IpRegistry.antt =====
-- lib/ipreg/ipreg.go: short-lived registrations of visitor addresses. The map of maps is a list of
-- its entries, one for each client and address: an empty inner map is never seen. A time is a number
-- of time units; the zero Time that Register returns for a refusal is none. net/netip gives an
-- address its normal form and tells whether it is valid; here an address is a number.
pub mod Keep
pub mod Promises
pub mod Remaining
use nps.Prelude.{
  ℕ, ◌+◌, Option, none, some, List, [], ◌∷◌, Bool, true, false, ◌&&◌, ◌||◌, not, ltb, ◌==◌,
  if◌then◌else◌,
}

-- AnyClient
abbrev pub any_client : ℕ
any_client = 0

-- Registration, and an entry of the map
pub record Registration : Type 0 where
  pub client : ℕ
  pub ip : ℕ
  pub until : ℕ

abbrev pub Registry : Type 0
Registry = List Registration

abbrev pub is_at : ℕ → ℕ → Registration → Bool
is_at client ip e = client == e.client && ip == e.ip

abbrev pub lookup : Registry → ℕ → ℕ → Option ℕ
lookup [] client ip = none
lookup (e ∷ es) client ip = if is_at client ip e then some e.until else lookup es client ip

-- The entries that pass a test, which is how a loop over the maps deletes the others.
abbrev pub keep : (Registration → Bool) → Registry → Registry
keep p [] = []
keep p (e ∷ es) = if p e then e ∷ keep p es else keep p es

abbrev pub count_removed : (Registration → Bool) → Registry → ℕ
count_removed p [] = 0
count_removed p (e ∷ es) = if p e then count_removed p es else 1 + count_removed p es

abbrev pub remove : Registry → ℕ → ℕ → Registry
remove reg client ip = keep (λ e. not (is_at client ip e)) reg

abbrev pub store : Registry → ℕ → ℕ → ℕ → Registry
store reg client ip until =
    record { client = client; ip = ip; until = until } ∷ remove reg client ip

-- until.After(now)
abbrev pub is_live : ℕ → Registration → Bool
is_live now e = ltb now e.until

-- Whether a bucket is in clientIDs; a nil set has all of them.
abbrev pub Buckets : Type 0
Buckets = ℕ → Bool

-- What the loops of listLocked and clearExpiredLocked leave.
abbrev pub is_left : Buckets → ℕ → Registration → Bool
is_left allowed now e = not (allowed e.client) || is_live now e

-- validLocked
valid_at : Option ℕ → Registry → ℕ → ℕ → ℕ → Bool × Registry
valid_at none reg client ip now = (false, reg)
valid_at (some until) reg client ip now =
    if ltb now until then (true, reg) else (false, remove reg client ip)

unfoldable pub valid : Registry → ℕ → ℕ → ℕ → Bool × Registry
unfolding valid_at
valid reg client ip now = valid_at (lookup reg client ip) reg client ip now

-- The part of Register under the lock: a shorter request never reduces a registration.
unfoldable pub extend : Option ℕ → Registry → ℕ → ℕ → ℕ → ℕ × Registry
extend none reg client ip until = (until, store reg client ip until)
extend (some current) reg client ip until =
    if ltb until current then (current, reg) else (until, store reg client ip until)

answered : ℕ × Registry → Option ℕ × Registry
answered (until, reg) = (some until, reg)

revoke_at : Option ℕ → Registry → ℕ → ℕ → Bool × Registry
revoke_at none reg client ip = (false, reg)
revoke_at (some until) reg client ip = (true, remove reg client ip)

-- ClearExpired and ClearExpiredForClients
unfoldable pub clear_expired : Registry → ℕ → Buckets → ℕ × Registry
clear_expired reg now allowed =
    (count_removed (is_left allowed now) reg, keep (is_left allowed now) reg)

-- List and ListForClients, before the rows are sorted
unfoldable pub list : Registry → ℕ → Buckets → List Registration × Registry
list reg now allowed =
    (keep (λ e. allowed e.client && is_live now e) reg, keep (is_left allowed now) reg)

-- ResetClients; Reset is the case where every bucket is allowed.
unfoldable pub reset : Registry → Buckets → ℕ × Registry
reset reg allowed =
    (count_removed (λ e. not (allowed e.client)) reg, keep (λ e. not (allowed e.client)) reg)

module _ (normalize : ℕ → ℕ) (is_valid : ℕ → Bool) where
  -- Register
  unfoldable pub register : Registry → ℕ → ℕ → ℕ → ℕ → Option ℕ × Registry
  unfolding answered extend
  register reg now client address ttl =
      let ip = normalize address in
      if not (is_valid ip) || ttl == 0
      then (none, reg)
      else answered (extend (lookup reg client ip) reg client ip (now + ttl))

  -- Registered
  unfoldable pub registered : Registry → ℕ → ℕ → ℕ → Bool × Registry
  unfolding valid
  registered reg now client address =
      let ip = normalize address in
      let (own, left) = valid reg client ip now in
      if not (is_valid ip)
      then (false, reg)
      else if own
      then (true, left)
      else valid left any_client ip now

  -- Revoke
  unfoldable pub revoke : Registry → ℕ → ℕ → Bool × Registry
  unfolding revoke_at
  revoke reg client address =
      let ip = normalize address in
      if not (is_valid ip) then (false, reg) else revoke_at (lookup reg client ip) reg client ip
