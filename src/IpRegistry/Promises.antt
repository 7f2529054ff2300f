-- ===== src/IpRegistry/Promises.antt =====
-- The store of lib/ipreg/ipreg.go against the times that callers were promised, per change.
use nps.Prelude.{
  ℕ, ◌-◌, ◌≤◌, ◌<◌, ◌≡◌, refl, sym, ap, ◌∙◌, Option, none, some, Bool, false, ◌&&◌, not, ltb, ◌==◌,
  if◌then◌else◌, Bool-cases, Option-cases, inl, inr, arith,
}
use nps.IpRegistry.{
  Registration, Registry, lookup, keep, remove, store, Buckets, is_left, valid, extend,
  clear_expired, reset,
}
use nps.IpRegistry.Keep.{
  Distinct, kept, keep-Distinct, lookup-keep, remove-Distinct, store-Distinct, time_of, until_of,
  until_of-remove, until_of-store, same_key,
}

-- The promise: the latest time that was asked for, for each client and address, and never a cleanup.
abbrev pub Promise : Type 0
Promise = ℕ → ℕ → ℕ

-- A registry keeps a promise from a time on: what is left of each registration is as promised.
pub record Keeps (reg : Registry) (promise : Promise) (now : ℕ) : Type 0 where
  pub distinct : Distinct reg
  pub remaining : (c i : ℕ) → until_of reg c i - now ≡ promise c i - now

-- A cleanup takes away only what has run out.
keep-Keeps :
    (p : Registration → Bool) (reg : Registry) (promise : Promise) (now : ℕ)
    → ((e : Registration) → p e ≡ false → e.until ≤ now)
    → Keeps reg promise now
    → Keeps (keep p reg) promise now
keep-Keeps p reg promise now out k = record {
  distinct = keep-Distinct p reg k.distinct;
  remaining =
      λ c i. by_key c i (lookup reg c i) (lookup-keep p reg c i k.distinct) ∙ k.remaining c i;
}
  where
    by_key :
        (c i : ℕ) (o : Option ℕ)
        → lookup (keep p reg) c i ≡ kept p c i o
        → until_of (keep p reg) c i - now ≡ time_of o - now
    by_key c i none e = ap (λ o. time_of o - now) e
    by_key c i (some until) e =
        let r : Registration = record { client = c; ip = i; until = until } in
        elim (Bool-cases (p r)) [
          | inl stays ↦
              ap (λ o. time_of o - now) (e ∙ ap (λ b. if b then some until else none) stays)
          | inr goes ↦
              omega
                (arith, ap time_of (e ∙ ap (λ b. if b then some until else none) goes), out r goes)
        ]

pub clear_expired-Keeps :
    (reg : Registry) (promise : Promise) (now : ℕ) (allowed : Buckets)
    → Keeps reg promise now
    → Keeps (clear_expired reg now allowed).1 promise now
unfolding clear_expired
clear_expired-Keeps reg promise now allowed k =
    keep-Keeps (is_left allowed now) reg promise now (λ e gone. ground (arith, gone)) k

-- One key changed, and the others as they were.
abbrev pub at_one : Promise → ℕ → ℕ → ℕ → Promise
at_one promise client ip n c i = if client == c && ip == i then n else promise c i

pub remove-Keeps :
    (reg : Registry) (promise : Promise) (now client ip n : ℕ)
    → n ≤ now
    → Keeps reg promise now
    → Keeps (remove reg client ip) (at_one promise client ip n) now
remove-Keeps reg promise now client ip n out k = record {
  distinct = remove-Distinct reg client ip k.distinct;
  remaining = λ c i. by_key c i (until_of-remove reg client ip c i k.distinct);
}
  where
    by_key :
        (c i : ℕ)
        → until_of (remove reg client ip) c i
          ≡ (if client == c && ip == i then 0 else until_of reg c i)
        → until_of (remove reg client ip) c i - now ≡ at_one promise client ip n c i - now
    by_key c i e = elim (Bool-cases (client == c && ip == i)) [
      | inl here ↦ rw (e, here) (omega arith)
      | inr other ↦ rw (e, other) (k.remaining c i)
    ]

-- A promise that says the same of every key.
pub Keeps-same :
    (reg : Registry) (promise promise' : Promise) (now : ℕ)
    → ((c i : ℕ) → promise c i - now ≡ promise' c i - now)
    → Keeps reg promise now
    → Keeps reg promise' now
Keeps-same reg promise promise' now same k = record {
  distinct = k.distinct;
  remaining = λ c i. k.remaining c i ∙ same c i;
}

at_one-same :
    (promise : Promise) (client ip now c i : ℕ)
    → at_one promise client ip (promise client ip) c i - now ≡ promise c i - now
at_one-same promise client ip now c i = elim (Bool-cases (client == c && ip == i)) [
  | inl here ↦ rw here (ap (λ m. m - now) (sym (same_key promise client ip c i here)))
  | inr other ↦ rw other refl
]

pub valid-Keeps :
    (reg : Registry) (promise : Promise) (now client ip : ℕ)
    → Keeps reg promise now
    → ((valid reg client ip now).0 ≡ ltb now (promise client ip))
      × Keeps (valid reg client ip now).1 promise now
unfolding valid
valid-Keeps reg promise now client ip k = elim (Option-cases (lookup reg client ip)) [
  | inl e ↦ rw e (ground (arith, ap time_of e, k.remaining client ip), k)
  | inr (until, e) ↦ elim (Bool-cases (ltb now until)) [
    | inl live ↦ rw (e, live) (ground (arith, live, ap time_of e, k.remaining client ip), k)
    | inr dead ↦
        rw (e, dead)
          (
            ground (arith, dead, ap time_of e, k.remaining client ip),
            Keeps-same (remove reg client ip) (at_one promise client ip (promise client ip)) promise
                now (at_one-same promise client ip now)
                (remove-Keeps reg promise now client ip (promise client ip)
                  (ground (arith, dead, ap time_of e, k.remaining client ip)) k),
          )
  ]
]

-- The promise after a request for a time.
abbrev pub raised : Promise → ℕ → ℕ → ℕ → Promise
raised promise client ip until =
    at_one promise client ip (if ltb (promise client ip) until then until else promise client ip)

store-Keeps :
    (reg : Registry) (promise : Promise) (now client ip until n : ℕ)
    → until - now ≡ n - now
    → Keeps reg promise now
    → Keeps (store reg client ip until) (at_one promise client ip n) now
store-Keeps reg promise now client ip until n same k = record {
  distinct = store-Distinct reg client ip until k.distinct;
  remaining = λ c i. by_key c i (until_of-store reg client ip until c i k.distinct);
}
  where
    by_key :
        (c i : ℕ)
        → until_of (store reg client ip until) c i
          ≡ (if client == c && ip == i then until else until_of reg c i)
        → until_of (store reg client ip until) c i - now ≡ at_one promise client ip n c i - now
    by_key c i e = elim (Bool-cases (client == c && ip == i)) [
      | inl here ↦ ap (λ m. m - now) e ∙ rw here same
      | inr other ↦ ap (λ m. m - now) e ∙ rw other (k.remaining c i)
    ]

pub extend-Keeps :
    (reg : Registry) (promise : Promise) (now client ip until : ℕ)
    → now < until
    → Keeps reg promise now
    → Keeps
        (extend (lookup reg client ip) reg client ip until).1
        (raised promise client ip until)
        now
unfolding extend
extend-Keeps reg promise now client ip until later k = elim (Option-cases (lookup reg client ip)) [
  | inl e ↦ rw e (
      store-Keeps reg promise now client ip until _
        (ground (arith, ap time_of e, k.remaining client ip)) k)
  | inr (current, e) ↦ elim (Bool-cases (ltb until current)) [
    | inl longer ↦
        rw (e, longer)
          (Keeps-same reg promise (raised promise client ip until) now
            (λ c i. sym (
              ap (λ n. at_one promise client ip n c i - now)
                (ground (arith, longer, ap time_of e, k.remaining client ip))
              ∙ at_one-same promise client ip now c i))
            k)
    | inr shorter ↦
        rw (e, shorter)
          (store-Keeps reg promise now client ip until _
            (ground (arith, shorter, ap time_of e, k.remaining client ip)) k)
  ]
]

pub at_one-equal :
    (promise : Promise) (client ip n now c i : ℕ)
    → n - now ≡ promise client ip - now
    → promise c i - now ≡ at_one promise client ip n c i - now
at_one-equal promise client ip n now c i e = elim (Bool-cases (client == c && ip == i)) [
  | inl here ↦ rw here (ap (λ m. m - now) (same_key promise client ip c i here) ∙ sym e)
  | inr other ↦ rw other refl
]

pub reset-Keeps :
    (reg : Registry) (promise : Promise) (now : ℕ) (allowed : Buckets)
    → Keeps reg promise now
    → Keeps (reset reg allowed).1 (λ c i. if allowed c then 0 else promise c i) now
unfolding reset
reset-Keeps reg promise now allowed k = record {
  distinct = keep-Distinct outside reg k.distinct;
  remaining = λ c i.
      ap (λ o. time_of o - now) (lookup-keep outside reg c i k.distinct)
      ∙ by_bucket c i (lookup reg c i) (k.remaining c i);
}
  where
    outside : Registration → Bool
    outside e = not (allowed e.client)

    by_bucket :
        (c i : ℕ) (o : Option ℕ)
        → time_of o - now ≡ promise c i - now
        → time_of (kept outside c i o) - now ≡ (if allowed c then 0 else promise c i) - now
    by_bucket c i none e = elim (Bool-cases (allowed c)) [
      | inl gone ↦ rw gone refl
      | inr stays ↦ rw stays e
    ]
    by_bucket c i (some until) e = elim (Bool-cases (allowed c)) [
      | inl gone ↦ rw gone refl
      | inr stays ↦ rw stays e
    ]
