-- ===== src/Login/Attempts/Guesses.antt =====
-- web/controllers/login.go: how many attempts reserve lets through for one address.
use nps.Prelude.{
  ℕ, ◌+◌, ◌≡◌, ◌<◌, ◌≤◌, refl, sym, ap, ◌∙◌, Option, none, some, List, [], ◌∷◌, Bool, true, false,
  ◌&&◌, ◌||◌, ltb, lt→ltb, leb, All, if◌then◌else◌, arith, Bool-cases, Option-cases, inl, inr,
}
use nps.Text.{Text, same}
use nps.Text.Table.{find, keep, same-eq, find-keep, find-keep-none, find-remove_ne}
use nps.Login.Attempts.{
  Attempts, Policy, Table, Limiter, is_open, remove_expired, cleanup, Digest, user_key, ip_key,
  too_soon, used_up, no_room, counted, admit, refused, made_room, try_admit, reserve_in,
  reserve_with,
}

-- One attempt
pub record Try : Type 0 where
  pub ip : Text
  pub username : Text
  pub time : ℕ

-- How many of the attempts are let through that count for this address
pub let_through : Policy → Digest → Text → Limiter → List Try → ℕ
let_through p digest ip s [] = 0
let_through p digest ip s (t ∷ ts) =
    let (s', fine) = reserve_with p digest t.ip t.username t.time s in
    (if fine && same (ip_key t.ip) ip then 1 else 0) + let_through p digest ip s' ts

-- What is counted for an address, and that this began at a time or later
abbrev used : Option Attempts → ℕ
used none = 0
used (some e) = e.count

abbrev Since : ℕ → ℕ → Option Attempts → Type 0
Since from most none = Unit
Since from most (some e) = (from ≤ e.window_from) × (e.count ≤ most)

module _ (p : Policy) (from now : ℕ) (after : from ≤ now) (before : now < from + p.ip_window) where
  opened : (e : Attempts) → from ≤ e.window_from → is_open p.ip_window now e ≡ true
  opened e h = lt→ltb now (e.window_from + p.ip_window) (omega arith)

  keep-find :
      (ip : Text) (m : Table)
      → Since from p.max_fails (find ip m)
      → find ip (keep (is_open p.ip_window now) m) ≡ find ip m
  keep-find ip m h = elim (Option-cases (find ip m)) [
    | inl e ↦ find-keep-none (is_open p.ip_window now) ip m e ∙ sym e
    | inr (a, e) ↦ find-keep (is_open p.ip_window now) ip a m e (opened a (rw e at h).0) ∙ sym e
  ]

  cleanup-find :
      (ip : Text) (s : Limiter)
      → Since from p.max_fails (find ip s.by_ip)
      → find ip (cleanup p now s).by_ip ≡ find ip s.by_ip
  unfolding cleanup remove_expired
  cleanup-find ip s h = elim (Bool-cases (ltb now s.next_cleanup)) [
    | inl early ↦ rw early refl
    | inr due ↦ rw due (keep-find ip s.by_ip h)
  ]

  made_room-find :
      (ip key user : Text) (s : Limiter)
      → Since from p.max_fails (find ip s.by_ip)
      → find ip (made_room p key user now s).by_ip ≡ find ip s.by_ip
  unfolding remove_expired
  made_room-find ip key user s h = elim (Bool-cases (no_room key user s)) [
    | inl full ↦ rw full (keep-find ip s.by_ip h)
    | inr room ↦ rw room refl
  ]

  counted-Since :
      (key : Text) (o : Option Attempts)
      → 0 < p.max_fails
      → Since from p.max_fails o
      → used_up p p.ip_window now o ≡ false
      → Since from p.max_fails (some (counted key p.ip_window now o))
        × ((counted key p.ip_window now o).count ≡ used o + 1)
  counted-Since key none some_fails h k = ((after, some_fails), omega arith)
  counted-Since key (some e) some_fails h k = rw (opened e h.0) ((h.0, below), refl)
    where
      less :
          (b : Bool) → b ≡ true → b && leb p.max_fails e.count ≡ false → e.count + 1 ≤ p.max_fails
      less true u v = ground (arith, v)
      less false u v = absurd (cc u)

      below : e.count + 1 ≤ p.max_fails
      below = less (is_open p.ip_window now e) (opened e h.0) k

-- What an attempt does to the count of an address
abbrev Counts : ℕ → Policy → Text → Text → Limiter → Limiter × Bool → Type 0
Counts from p ip key s (s', fine) =
    Since from p.max_fails (find ip s'.by_ip)
    × (used (find ip s'.by_ip) ≡ (if fine && same key ip then 1 else 0) + used (find ip s.by_ip))

unchanged :
    (from : ℕ) (p : Policy) (ip key : Text) (s s' : Limiter)
    → Since from p.max_fails (find ip s.by_ip)
    → find ip s'.by_ip ≡ find ip s.by_ip
    → Counts from p ip key s (s', false)
unchanged from p ip key s s' h e = rw e (h, omega arith)

or-third : (a b c d : Bool) → a || b || c || d ≡ false → c ≡ false
or-third a b true d e = absurd (ground (arith, e))
or-third a b false d e = refl

module _ (p : Policy) (from now : ℕ) (after : from ≤ now) (before : now < from + p.ip_window)
    (some_fails : 0 < p.max_fails) (ip : Text) where
  try_admit-Counts :
      (key user : Text) (t : Limiter)
      → Since from p.max_fails (find ip t.by_ip)
      → (same key ip ≡ true → used_up p p.ip_window now (find ip t.by_ip) ≡ false)
      → Counts from p ip key t (try_admit p key user now t)
  unfolding try_admit
  try_admit-Counts key user t h free = elim (Bool-cases (no_room key user t)) [
    | inl full ↦ rw full (unchanged from p ip key t t h refl)
    | inr room ↦ rw room (admitted (same key ip) refl)
  ]
    where
      admitted :
          (b : Bool) → same key ip ≡ b → Counts from p ip key t (admit p key user now t, true)
      admitted false e = rw (e, find-remove_ne key ip t.by_ip e) (h, omega arith)
      admitted true e =
          let k = ap (λ k. find k t.by_ip) (same-eq key ip e) in
          let (since, count) =
            counted-Since p from now after before key (find key t.by_ip) some_fails (rw k h)
              (ap (used_up p p.ip_window now) k ∙ free e) in
          rw e (since, omega (arith, count, ap used k))

  reserve_in-Counts :
      (key user : Text) (s : Limiter)
      → Since from p.max_fails (find ip s.by_ip)
      → Counts from p ip key s (reserve_in p key user now s)
  unfolding reserve_in
  reserve_in-Counts key user s h = elim (Bool-cases (refused p key user now s)) [
    | inl bad ↦ rw bad (unchanged from p ip key s s h refl)
    | inr good ↦ rw good (
        let e = made_room-find p from now after before ip key user s h in
        let c = try_admit-Counts key user (made_room p key user now s) (rw e h) (λ one.
          ap (used_up p p.ip_window now) (e ∙ sym (ap (λ k. find k s.by_ip) (same-eq key ip one)))
          ∙ or-third (too_soon p now (find key s.by_ip)) (too_soon p now (find user s.by_username))
              (used_up p p.ip_window now (find key s.by_ip))
              (used_up p p.user_window now (find user s.by_username)) good) in
        (c.0, rw (sym e) c.1))
  ]

  reserve_with-Counts :
      (digest : Digest) (raw username : Text) (s : Limiter)
      → Since from p.max_fails (find ip s.by_ip)
      → Counts from p ip (ip_key raw) s (reserve_with p digest raw username now s)
  unfolding reserve_with
  reserve_with-Counts digest raw username s h =
      let e = cleanup-find p from now after before ip s h in
      let c =
        reserve_in-Counts (ip_key raw) (user_key digest username) (cleanup p now s) (rw e h) in
      (c.0, rw (sym e) c.1)

used-le : (from most : ℕ) (o : Option Attempts) → Since from most o → used o + 0 ≤ most
used-le from most none h = omega arith
used-le from most (some e) h = omega (arith, h.1)

through-bound :
    (p : Policy) (digest : Digest) (from : ℕ) (ip : Text) (s : Limiter) (ts : List Try)
    → 0 < p.max_fails
    → Since from p.max_fails (find ip s.by_ip)
    → All (λ t. (from ≤ t.time) × (t.time < from + p.ip_window)) ts
    → used (find ip s.by_ip) + let_through p digest ip s ts ≤ p.max_fails
unfolding let_through
through-bound p digest from ip s [] some_fails h times =
    used-le from p.max_fails (find ip s.by_ip) h
through-bound p digest from ip s (t ∷ ts) some_fails h times =
    let (since, count) =
      reserve_with-Counts p from t.time times.0.0 times.0.1 some_fails ip digest t.ip t.username s
        h in
    omega (
      arith,
      count,
      through-bound p digest from ip (reserve_with p digest t.ip t.username t.time s).0 ts
          some_fails since times.1,
    )

-- If a policy allows some failures and the limiter has no record of an address, then of any
-- attempts whose times lie in one window of the policy for addresses, from whatever addresses and
-- for whatever users, at most the allowed number is let through for this address.
pub reserve_with-bound :
    (p : Policy) (digest : Digest) (from : ℕ) (ip : Text) (s : Limiter) (ts : List Try)
    → 0 < p.max_fails
    → find ip s.by_ip ≡ none
    → All (λ t. (from ≤ t.time) × (t.time < from + p.ip_window)) ts
    → let_through p digest ip s ts ≤ p.max_fails
reserve_with-bound p digest from ip s ts some_fails new times =
    omega (arith, ap used new, through-bound p digest from ip s ts some_fails (rw new tt) times)
