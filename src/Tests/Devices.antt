-- ===== src/Tests/Devices.antt =====
-- A registry with two devices of one principal.
use nps.Prelude.{ℕ, ◌≡◌, ◌⊎◌, ◌<◌, ◌≤◌, ◌^◌, refl, some, [], ◌∷◌, true, false, length, arith}
use nps.Text.{Text, codes}
use nps.Sessions.{
  Device, Registry, holds, Disk, full, save, Order, ensure_loaded, current_epoch,
  session_epoch_valid, validate, register, revoke_all, device_limit,
}
use nps.Sessions.Revoked.{validate-rejects, revoke_all-ends}
use nps.Sessions.Bounded.{register-validates}

abbrev device : Text → ℕ → Device
device id epoch = record {
  id = id;
  principal = codes "user:7";
  username = codes "ann";
  user_id = 7;
  client_id = 0;
  ip = codes "10.0.0.1";
  user_agent = [];
  created_at = 100;
  last_seen_at = 100;
  expires_at = 5000;
  epoch = epoch;
}

abbrev disk : Disk
disk = record {
  content =
      holds 1 ((codes "user:7", 3) ∷ [])
        ((codes "a", device (codes "a") 3) ∷ (codes "b", device (codes "b") 2) ∷ []);
  writable = true;
}

abbrev fresh : Registry
fresh = record { loaded = false; failed = false; epochs = []; devices = [] }

abbrev in_turn : Order
in_turn ds = ds

loads : (ensure_loaded disk fresh).1 ≡ true
unfolding ensure_loaded
loads = refl

mismatch : (validate disk fresh (codes "b") (codes "user:7") 3 200).1 ≡ false
unfolding validate ensure_loaded
mismatch = refl

validate-rejects_example :
    (validate disk
      (validate disk fresh (codes "b") (codes "user:7") 3 200).0
      (codes "b")
      (codes "user:7")
      2
      201).1
    ≡ false
validate-rejects_example =
    validate-rejects disk disk fresh (codes "b") (codes "user:7") (codes "user:7") 3 2 200 201 refl
      loads mismatch

epoch_bound : (current_epoch disk fresh (codes "user:7")).1 < 2 ^ 64
unfolding current_epoch ensure_loaded
epoch_bound = omega arith

revoke_all-ends_example :
    let (s', count, new, problem) = revoke_all disk in_turn 200 fresh (codes "user:7") in
    ((validate disk s' (codes "a") (codes "user:7") 3 201).1 ≡ false)
    × ((session_epoch_valid disk s'
          (codes "user:7")
          (current_epoch disk fresh (codes "user:7")).1).1
        ≡ false)
    × ((session_epoch_valid disk s' (codes "user:7") new).1 ≡ true)
    × (0 < new)
revoke_all-ends_example =
    revoke_all-ends disk disk in_turn 200 fresh (codes "user:7") (codes "a") 3 201 loads epoch_bound
      refl

register-validates_example :
    let (s', problem) = register disk in_turn 200 fresh (device (codes "c") 3) in
    (length s'.devices ≤ device_limit)
    × ((problem ≡ some full)
        ⊎ ((problem ≡ save disk)
            × ((validate disk s' (codes "c") (codes "user:7") 3 300).1 ≡ true)))
register-validates_example =
    register-validates disk disk in_turn 200 fresh (device (codes "c") 3) 300 loads refl
      (omega arith)
