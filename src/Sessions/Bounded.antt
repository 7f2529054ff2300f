-- ===== src/Sessions/Bounded.antt =====
-- web/controllers/web_session_registry.go: what Register keeps, and Validate after it.
use nps.Prelude.{
  ℕ, ◌+◌, ◌≡◌, ◌<◌, ◌≤◌, ◌⊎◌, refl, ap, ◌∙◌, some, List, [], ◌∷◌, true, false, ltb, leb, lt→ltb,
  ==_iff, length, take, length-take, arith, Bool-cases, inl, inr,
}
use nps.Text.{is_empty}
use nps.Text.Table.{put, keep, values, same_refl, find-put_self, length-remove}
use nps.Sessions.{
  Device, Devices, Registry, Disk, full, ensure_loaded, save, Order, is_live, rebuild, cleanup,
  agrees, validate_in, validate, register_in, register, device_limit,
}
use nps.Sessions.Revoked.{InUse, ensure_loaded-InUse, validate-InUse}

length-rebuild : (ds : List Device) (m : Devices) → length (rebuild ds m) ≤ length ds + length m
unfolding rebuild
length-rebuild [] m = omega arith
length-rebuild (d ∷ ds) m = omega (arith, length-rebuild ds (put d.id d m), length-remove d.id m)

length-cleanup :
    (by_expiry : Order) (now : ℕ) (m : Devices) → length (cleanup by_expiry now m).0 ≤ device_limit
unfolding cleanup
length-cleanup by_expiry now m =
    elim (Bool-cases (ltb device_limit (length (keep (is_live now) m)))) [
      | inl many ↦ rw many (
          omega (
            arith,
            length-rebuild (take device_limit (by_expiry (values (keep (is_live now) m)))) [],
            length-take device_limit (by_expiry (values (keep (is_live now) m))),
          ))
      | inr few ↦ rw few (ground (arith, few))
    ]

agrees-own : (d : Device) (now : ℕ) → now < d.expires_at → agrees d.principal d.epoch now d ≡ true
unfolding agrees
agrees-own d now h = rw (same_refl d.principal, (==_iff d.epoch d.epoch).1 refl) (lt→ltb _ _ h)

validate_in-own :
    (s : Registry) (d : Device) (now : ℕ)
    → now < d.expires_at
    → (validate_in d.id d.principal d.epoch now s (some d)).1 ≡ true
unfolding validate_in
validate_in-own s d now h = rw (agrees-own d now h) refl

registered-in :
    (disk later_disk : Disk) {s : Registry} (d : Device) (later : ℕ)
    → InUse s
    → is_empty d.id ≡ false
    → later < d.expires_at
    → length s.devices ≤ device_limit
    → let (s', problem) = register_in disk d s in
      (length s'.devices ≤ device_limit)
      × ((problem ≡ some full)
          ⊎ ((problem ≡ save disk)
              × ((validate later_disk s' d.id d.principal d.epoch later).1 ≡ true)))
unfolding register_in
registered-in disk later_disk {s} d later u named h bound =
    elim (Bool-cases (leb device_limit (length s.devices))) [
      | inl is_full ↦ rw is_full (bound, inl refl)
      | inr room ↦ rw room (ground (arith, room, length-remove d.id s.devices), inr (refl, valid))
    ]
  where
    t : Registry
    t = record s { devices = put d.id d s.devices }

    v : InUse t
    v = record { loaded = u.loaded; fine = u.fine }

    valid : (validate later_disk t d.id d.principal d.epoch later).1 ≡ true
    valid =
        ap (λ r. r.1)
          (validate-InUse later_disk d.id d.principal d.epoch later v named
            ∙ ap (validate_in d.id d.principal d.epoch later t) (find-put_self d.id d s.devices))
        ∙ validate_in-own t d later h

-- If the registry is loaded, a device has an id, and a time lies before its expiry, then Register
-- leaves at most 10000 devices, and either reports that it is full, or answers as the save does,
-- and the device validates at that time with its own id, principal and epoch.
pub register-validates :
    (disk later_disk : Disk) (by_expiry : Order) (now : ℕ) (s : Registry) (d : Device) (later : ℕ)
    → (ensure_loaded disk s).1 ≡ true
    → is_empty d.id ≡ false
    → later < d.expires_at
    → let (s', problem) = register disk by_expiry now s d in
      (length s'.devices ≤ device_limit)
      × ((problem ≡ some full)
          ⊎ ((problem ≡ save disk)
              × ((validate later_disk s' d.id d.principal d.epoch later).1 ≡ true)))
unfolding register
register-validates disk later_disk by_expiry now s d later fine named h =
    let u = ensure_loaded-InUse disk s fine in
    rw fine (
      registered-in disk later_disk d later (record { loaded = u.loaded; fine = u.fine }) named h
        (length-cleanup by_expiry now (ensure_loaded disk s).0.devices))
