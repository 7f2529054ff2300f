-- ===== src/Sessions.antt =====
-- web/controllers/web_session_registry.go: the devices that stay logged in, and the epochs by which
-- all sessions of a principal are revoked. A time is a number of seconds since 1970. The maps are
-- tables of Text/Table. What the file holds and whether it can be written come with each call as a
-- Disk; the order of sort.Slice is a parameter. The receiver is not nil.
pub mod Revoked
pub mod Bounded
use nps.Prelude.{
  ℕ, ◌+◌, ◌-◌, ◌%◌, ◌^◌, Option, none, some, List, [], ◌∷◌, Bool, true, false, ◌&&◌, ◌||◌, not, ltb,
  leb, ◌==◌, length, take, if◌then◌else◌,
}
use nps.Text.{Text, same, is_empty, trim_space}
use nps.Text.Table.{find, remove, put, keep, values}

-- webSessionRegistryLimit
abbrev pub device_limit : ℕ
device_limit = 10000

-- webSessionDeviceRecord
pub record Device : Type 0 where
  pub id : Text
  pub principal : Text
  pub username : Text
  pub user_id : ℕ
  pub client_id : ℕ
  pub ip : Text
  pub user_agent : Text
  pub created_at : ℕ
  pub last_seen_at : ℕ
  pub expires_at : ℕ
  pub epoch : ℕ

abbrev pub Devices : Type 0
Devices = List (Text × Device)

abbrev pub Epochs : Type 0
Epochs = List (Text × ℕ)

-- webSessionRegistry, where failed is a loadError
pub record Registry : Type 0 where
  pub loaded : Bool
  pub failed : Bool
  pub epochs : Epochs
  pub devices : Devices

-- What reading the file gives: there is no path, no file, an error of reading or decoding, or a
-- webSessionRegistryFile.
pub data Stored : Type 0 where
  nowhere missing broken : Stored
  holds : ℕ → Epochs → Devices → Stored

pub record Disk : Type 0 where
  pub content : Stored
  pub writable : Bool

pub data SessionError : Type 0 where
  unavailable full unsaved : SessionError

abbrev empty : Registry
empty = record { loaded = true; failed = false; epochs = []; devices = [] }

pub load : Stored → Registry × Bool
load nowhere = (empty, false)
load missing = (empty, true)
load broken = (record empty { failed = true }, false)
load (holds version epochs devices) =
    if version == 0 || version == 1
    then (record empty { epochs = epochs; devices = devices }, true)
    else (record empty { failed = true }, false)

-- ensureLoadedLocked: whether there is no error
unfoldable pub ensure_loaded : Disk → Registry → Registry × Bool
unfolding load
ensure_loaded disk s = if s.loaded then (s, not s.failed) else load disk.content

-- saveLocked
pub save : Disk → Option SessionError
save disk = if disk.writable then none else some unsaved

-- Go's descending order by a number is the caller's, as sort.Slice does not fix ties.
abbrev pub Order : Type 0
Order = List Device → List Device

abbrev pub is_live : ℕ → Device → Bool
is_live now d = ltb now d.expires_at

pub rebuild : List Device → Devices → Devices
rebuild [] m = m
rebuild (d ∷ ds) m = rebuild ds (put d.id d m)

-- cleanupLocked: the devices that are left, and whether any went
unfoldable pub cleanup : Order → ℕ → Devices → Devices × Bool
unfolding rebuild
cleanup by_expiry now m =
    let live = keep (is_live now) m in
    if ltb device_limit (length live)
    then (rebuild (take device_limit (by_expiry (values live))) [], true)
    else (live, ltb (length live) (length m))

abbrev pub epoch_of : Text → Epochs → ℕ
epoch_of principal epochs = elim (find principal epochs) [ none ↦ 0 | some e ↦ e ]

-- Epoch
unfoldable pub current_epoch : Disk → Registry → Text → Registry × ℕ
current_epoch disk s principal =
    let (s', fine) = ensure_loaded disk s in (s', if fine then epoch_of principal s'.epochs else 0)

-- SessionEpochValid
unfoldable pub session_epoch_valid : Disk → Registry → Text → ℕ → Registry × Bool
session_epoch_valid disk s principal epoch =
    let (s', fine) = ensure_loaded disk s in (s', fine && epoch == epoch_of principal s'.epochs)

-- Register
pub register_in : Disk → Device → Registry → Registry × Option SessionError
unfolding save
register_in disk d s =
    if leb device_limit (length s.devices)
    then (s, some full)
    else (record s { devices = put d.id d s.devices }, save disk)

unfoldable pub register : Disk → Order → ℕ → Registry → Device → Registry × Option SessionError
unfolding register_in
register disk by_expiry now s d =
    let (s', fine) = ensure_loaded disk s in
    if fine
    then register_in disk d (record s' { devices = (cleanup by_expiry now s'.devices).0 })
    else (s', some unavailable)

-- Validate
pub agrees : Text → ℕ → ℕ → Device → Bool
agrees principal epoch now d = same d.principal principal && d.epoch == epoch && is_live now d

touch : Text → ℕ → Device → Devices → Devices
touch id now d m =
    if leb 300 (now - d.last_seen_at) then put id (record d { last_seen_at = now }) m else m

pub validate_in : Text → Text → ℕ → ℕ → Registry → Option Device → Registry × Bool
unfolding agrees touch
validate_in id principal epoch now s none = (s, false)
validate_in id principal epoch now s (some d) =
    if agrees principal epoch now d
    then (record s { devices = touch id now d s.devices }, true)
    else (record s { devices = remove id s.devices }, false)

unfoldable pub validate : Disk → Registry → Text → Text → ℕ → ℕ → Registry × Bool
unfolding validate_in
validate disk s id principal epoch now =
    let (s', fine) = ensure_loaded disk s in
    if is_empty id
    then (s, epoch == 0)
    else if fine
    then validate_in id principal epoch now s' (find id s'.devices)
    else (s', false)

-- List, where the second order is by the last visit
unfoldable pub list_devices :
    Disk → Order → Order → ℕ → Registry → Text → Registry × Option (List Device)
list_devices disk by_expiry by_visit now s principal =
    let (s', fine) = ensure_loaded disk s in
    let left = (cleanup by_expiry now s'.devices).0 in
    if fine
    then (
      record s' { devices = left },
      some (by_visit (values (keep (λ d. same d.principal principal) left))),
    )
    else (s', none)

-- Revoke: the state, whether there was such a device, and the error
pub revoke_in :
    Disk → Text → Text → Registry → Option Device → Registry × Bool × Option SessionError
unfolding save
revoke_in disk principal id s none = (s, false, none)
revoke_in disk principal id s (some d) =
    if same d.principal principal
    then (record s { devices = remove id s.devices }, true, save disk)
    else (s, false, none)

unfoldable pub revoke : Disk → Registry → Text → Text → Registry × Bool × Option SessionError
unfolding revoke_in
revoke disk s principal id =
    let (s', fine) = ensure_loaded disk s in
    if is_empty (trim_space id)
    then (s, false, none)
    else if fine
    then revoke_in disk principal id s' (find id s'.devices)
    else (s', false, some unavailable)

-- The next epoch: a uint64 that skips 0 when it wraps around
unfoldable pub next_epoch : ℕ → ℕ
next_epoch e = if (e + 1) % 2 ^ 64 == 0 then 1 else (e + 1) % 2 ^ 64

-- RevokeAll: the state, how many devices went, the new epoch, and the error
pub revoke_all_in : Disk → Text → Registry → Registry × ℕ × ℕ × Option SessionError
unfolding save next_epoch
revoke_all_in disk principal s =
    let others = keep (λ d. not (same d.principal principal)) s.devices in
    let epoch = next_epoch (epoch_of principal s.epochs) in
    (
      record s { devices = others; epochs = put principal epoch s.epochs },
      length s.devices - length others,
      epoch,
      save disk,
    )

unfoldable pub revoke_all :
    Disk → Order → ℕ → Registry → Text → Registry × ℕ × ℕ × Option SessionError
unfolding revoke_all_in
revoke_all disk by_expiry now s principal =
    let (s', fine) = ensure_loaded disk s in
    if fine
    then revoke_all_in disk principal (record s' { devices = (cleanup by_expiry now s'.devices).0 })
    else (s', 0, 0, some unavailable)
