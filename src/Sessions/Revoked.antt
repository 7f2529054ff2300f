-- ===== src/Sessions/Revoked.antt =====
-- web/controllers/web_session_registry.go: what Validate and the epochs say after Revoke, RevokeAll
-- and a failed Validate.
use nps.Prelude.{
  ℕ, ◌^◌, ◌≡◌, ◌≢◌, ◌<◌, refl, sym, ap, ◌∙◌, Option, none, some, Bool, true, false, not, ◌==◌,
  ==_iff, arith, Bool-cases, Option-cases, inl, inr,
}
use nps.Text.{Text, same, is_empty}
use nps.Text.Table.{find, put, find-remove_self, find-put_self, find-keep_passes}
use nps.Sessions.{
  Device, Epochs, Registry, Stored, nowhere, missing, broken, holds, Disk, load, ensure_loaded,
  Order, cleanup, epoch_of, current_epoch, session_epoch_valid, agrees, validate_in, validate,
  next_epoch, revoke_all_in, revoke_all,
}

-- A registry in use answers at once, whatever the disk.
pub record InUse (s : Registry) : Type 0 where
  pub loaded : s.loaded ≡ true
  pub fine : s.failed ≡ false

load-InUse : (c : Stored) → (load c).1 ≡ true → InUse (load c).0
unfolding load
load-InUse nowhere e = absurd (cc e)
load-InUse missing e = record { loaded = refl; fine = refl }
load-InUse broken e = absurd (cc e)
load-InUse (holds version epochs devices) e = ground (arith, e)

pub ensure_loaded-InUse :
    (disk : Disk) (s : Registry) → (ensure_loaded disk s).1 ≡ true → InUse (ensure_loaded disk s).0
unfolding ensure_loaded
ensure_loaded-InUse disk s e = elim (Bool-cases s.loaded) [
  | inl l ↦ ground (arith, l, e)
  | inr n ↦ rw n (load-InUse disk.content (rw n at e))
]

pub ensure_loaded-same : (disk : Disk) {s : Registry} → InUse s → ensure_loaded disk s ≡ (s, true)
unfolding ensure_loaded
ensure_loaded-same disk {s} u = ground arith

pub next_epoch-new : (e : ℕ) → e < 2 ^ 64 → (next_epoch e ≢ e) × (0 < next_epoch e)
unfolding next_epoch
next_epoch-new e h = ground arith

pub validate-InUse :
    (disk : Disk) {s : Registry} (id principal : Text) (epoch now : ℕ)
    → InUse s
    → is_empty id ≡ false
    → validate disk s id principal epoch now
      ≡ validate_in id principal epoch now s (find id s.devices)
unfolding validate
validate-InUse disk id principal epoch now u named = rw (ensure_loaded-same disk u, named) refl

pub validate-none :
    (disk : Disk) {s : Registry} (id principal : Text) (epoch now : ℕ)
    → InUse s
    → is_empty id ≡ false
    → find id s.devices ≡ none
    → (validate disk s id principal epoch now).1 ≡ false
unfolding validate_in
validate-none disk {s} id principal epoch now u named gone =
    ap (λ r. r.1)
      (validate-InUse disk {s = s} id principal epoch now u named
        ∙ ap (validate_in id principal epoch now s) gone)

validate-loaded :
    (disk : Disk) (s : Registry) (id principal : Text) (epoch now : ℕ)
    → is_empty id ≡ false
    → (ensure_loaded disk s).1 ≡ true
    → validate disk s id principal epoch now
      ≡ validate_in id principal epoch now
          (ensure_loaded disk s).0
          (find id (ensure_loaded disk s).0.devices)
unfolding validate
validate-loaded disk s id principal epoch now named fine = rw (named, fine) refl

true-false : ¬ (true ≡ false)
true-false e = cc e

-- A device that Validate turns down is gone.
rejected-gone :
    {s : Registry} (id principal : Text) (epoch now : ℕ) (o : Option Device)
    → InUse s
    → find id s.devices ≡ o
    → (validate_in id principal epoch now s o).1 ≡ false
    → InUse (validate_in id principal epoch now s o).0
      × (find id (validate_in id principal epoch now s o).0.devices ≡ none)
unfolding validate_in
rejected-gone id principal epoch now none u e rejected = (u, e)
rejected-gone {s} id principal epoch now (some d) u e rejected =
    elim (Bool-cases (agrees principal epoch now d)) [
      | inl yes_it ↦ absurd (true-false (rw yes_it at rejected))
      | inr disagrees ↦
          rw disagrees (record { loaded = u.loaded; fine = u.fine }, find-remove_self id s.devices)
    ]

-- If the registry is loaded and Validate turns down a device with an id, then Validate turns this
-- id down from then on, for any principal, epoch and time, in the state that it left.
pub validate-rejects :
    (disk later_disk : Disk) (s : Registry) (id principal other : Text) (epoch epoch' now later : ℕ)
    → is_empty id ≡ false
    → (ensure_loaded disk s).1 ≡ true
    → (validate disk s id principal epoch now).1 ≡ false
    → (validate later_disk (validate disk s id principal epoch now).0 id other epoch' later).1
      ≡ false
validate-rejects disk later_disk s id principal other epoch epoch' now later named fine rejected =
    let step = validate-loaded disk s id principal epoch now named fine in
    let (u, gone) =
      rejected-gone id principal epoch now (find id (ensure_loaded disk s).0.devices)
        (ensure_loaded-InUse disk s fine) refl (sym (ap (λ r. r.1) step) ∙ rejected) in
    rw step (validate-none later_disk id other epoch' later u named gone)

validate_disagrees :
    (disk : Disk) {s : Registry} (id principal : Text) (epoch now : ℕ)
    → InUse s
    → is_empty id ≡ false
    → ((d : Device) → find id s.devices ≡ some d → same d.principal principal ≡ false)
    → (validate disk s id principal epoch now).1 ≡ false
unfolding validate_in agrees
validate_disagrees disk {s} id principal epoch now u named h =
    elim (Option-cases (find id s.devices)) [
      | inl gone ↦ validate-none disk id principal epoch now u named gone
      | inr (d, found) ↦
          ap (λ r. r.1)
            (validate-InUse disk id principal epoch now u named
              ∙ ap (validate_in id principal epoch now s) found)
          ∙ ground (arith, h d found)
    ]

not-true : (x : Bool) → not x ≡ true → x ≡ false
not-true true e = absurd (cc e)
not-true false e = refl

session-InUse :
    (disk : Disk) {s : Registry} (principal : Text) (epoch : ℕ)
    → InUse s
    → (session_epoch_valid disk s principal epoch).1 ≡ (epoch == epoch_of principal s.epochs)
unfolding session_epoch_valid
session-InUse disk principal epoch u = rw (ensure_loaded-same disk u) refl

epoch_of-put : (p : Text) (e : ℕ) (m : Epochs) → epoch_of p (put p e m) ≡ e
epoch_of-put p e m = ap (λ o. elim o [ none ↦ 0 | some e' ↦ e' ]) (find-put_self p e m)

==_refl : (n : ℕ) → (n == n) ≡ true
==_refl n = (==_iff n n).1 refl

==_ne : (m n : ℕ) → n ≢ m → (m == n) ≡ false
==_ne m n h = ground (arith, h)

-- RevokeAll in a registry that is in use
ends_in :
    (disk later_disk : Disk) {s : Registry} (principal id : Text) (epoch later : ℕ)
    → InUse s
    → epoch_of principal s.epochs < 2 ^ 64
    → is_empty id ≡ false
    → let (s', count, new, problem) = revoke_all_in disk principal s in
      ((validate later_disk s' id principal epoch later).1 ≡ false)
      × ((session_epoch_valid later_disk s' principal (epoch_of principal s.epochs)).1 ≡ false)
      × ((session_epoch_valid later_disk s' principal new).1 ≡ true)
      × (0 < new)
unfolding revoke_all_in
ends_in disk later_disk {s} principal id epoch later u bound named = (
  validate_disagrees later_disk id principal epoch later v named (λ d found.
      not-true _ (find-keep_passes (λ e. not (same e.principal principal)) id d s.devices found)),
  session-InUse later_disk principal old v
      ∙ rw (epoch_of-put principal (next_epoch old) s.epochs)
          (==_ne old (next_epoch old) (next_epoch-new old bound).0),
  session-InUse later_disk principal (next_epoch old) v
      ∙ rw (epoch_of-put principal (next_epoch old) s.epochs) (==_refl (next_epoch old)),
  (next_epoch-new old bound).1,
)
  where
    old : ℕ
    old = epoch_of principal s.epochs

    v : InUse (revoke_all_in disk principal s).0
    v = record { loaded = u.loaded; fine = u.fine }

revoke_all-loaded :
    (disk : Disk) (by_expiry : Order) (now : ℕ) (s : Registry) (principal : Text)
    → (ensure_loaded disk s).1 ≡ true
    → revoke_all disk by_expiry now s principal
      ≡ revoke_all_in disk principal (record (ensure_loaded disk s).0 {
        devices = (cleanup by_expiry now (ensure_loaded disk s).0.devices).0;
      })
unfolding revoke_all
revoke_all-loaded disk by_expiry now s principal fine = rw fine refl

current-loaded :
    (disk : Disk) (s : Registry) (principal : Text)
    → (ensure_loaded disk s).1 ≡ true
    → (current_epoch disk s principal).1 ≡ epoch_of principal (ensure_loaded disk s).0.epochs
unfolding current_epoch
current-loaded disk s principal fine = rw fine refl

-- If the registry is loaded and the epoch of a principal is a 64-bit word, then after RevokeAll
-- no device with an id validates for this principal, whatever the epoch and the time; the epoch
-- from before is no longer valid; and the new one is valid and not 0.
pub revoke_all-ends :
    (disk later_disk : Disk) (by_expiry : Order) (now : ℕ) (s : Registry) (principal id : Text)
    (epoch later : ℕ)
    → (ensure_loaded disk s).1 ≡ true
    → (current_epoch disk s principal).1 < 2 ^ 64
    → is_empty id ≡ false
    → let (s', count, new, problem) = revoke_all disk by_expiry now s principal in
      ((validate later_disk s' id principal epoch later).1 ≡ false)
      × ((session_epoch_valid later_disk s' principal (current_epoch disk s principal).1).1 ≡ false)
      × ((session_epoch_valid later_disk s' principal new).1 ≡ true)
      × (0 < new)
revoke_all-ends disk later_disk by_expiry now s principal id epoch later fine bound named =
    let u = ensure_loaded-InUse disk s fine in
    let current = current-loaded disk s principal fine in
    rw (revoke_all-loaded disk by_expiry now s principal fine, current)
      (ends_in disk later_disk principal id epoch later
        (record { loaded = u.loaded; fine = u.fine }) (rw current at bound) named)
