-- ===== src/IpRegistry/Remaining.antt =====
-- The calls of lib/ipreg/ipreg.go in any order, against the times that callers were promised.
use nps.Prelude.{
  ℕ, ◌+◌, ◌≡◌, refl, ap, List, [], ◌∷◌, Bool, ◌&&◌, ◌||◌, not, ltb, ◌==◌, if◌then◌else◌, Bool-cases,
  Option-cases, inl, inr, arith,
}
use nps.IpRegistry.{
  Registry, any_client, lookup, Buckets, valid, clear_expired, list, reset, register, registered,
  revoke,
}
use nps.IpRegistry.Keep.{time_of}
use nps.IpRegistry.Promises.{
  Promise, Keeps, clear_expired-Keeps, at_one, remove-Keeps, Keeps-same, valid-Keeps, raised,
  extend-Keeps, at_one-equal, reset-Keeps,
}

module _ (normalize : ℕ → ℕ) (is_valid : ℕ → Bool) where
  register-Keeps :
      (reg : Registry) (promise : Promise) (now client address ttl : ℕ)
      → Keeps reg promise now
      → Keeps
          (register normalize is_valid reg now client address ttl).1
          (if not (is_valid (normalize address)) || ttl == 0
            then promise
            else raised promise client (normalize address) (now + ttl))
          now
  unfolding register
  register-Keeps reg promise now client address ttl k =
      elim (Bool-cases (not (is_valid (normalize address)) || ttl == 0)) [
        | inl invalid ↦ rw invalid k
        | inr fine ↦ rw fine (
            extend-Keeps reg promise now client (normalize address) (now + ttl)
              (ground (arith, fine)) k)
      ]

  -- Registered answers by the promises to the client and to every client, and keeps them.
  pub registered-Keeps :
      (reg : Registry) (promise : Promise) (now client address : ℕ)
      → Keeps reg promise now
      → let ip = normalize address in
        ((registered normalize is_valid reg now client address).0
          ≡ is_valid ip && (ltb now (promise client ip) || ltb now (promise any_client ip)))
        × Keeps (registered normalize is_valid reg now client address).1 promise now
  unfolding registered
  registered-Keeps reg promise now client address k =
      let own = valid-Keeps reg promise now client (normalize address) k in
      let every =
        valid-Keeps (valid reg client (normalize address) now).1 promise now any_client
          (normalize address) own.1 in
      elim (Bool-cases (is_valid (normalize address))) [
        | inr invalid ↦ rw invalid (refl, k)
        | inl fine ↦ elim (Bool-cases (valid reg client (normalize address) now).0) [
          | inl here ↦ rw (fine, here) (ground (arith, here, own.0), own.1)
          | inr other ↦ rw (fine, other) (ground (arith, other, own.0, every.0), every.1)
        ]
      ]

  revoke-Keeps :
      (reg : Registry) (promise : Promise) (now client address : ℕ)
      → Keeps reg promise now
      → Keeps
          (revoke normalize is_valid reg client address).1
          (if not (is_valid (normalize address))
            then promise
            else at_one promise client (normalize address) 0)
          now
  unfolding revoke
  revoke-Keeps reg promise now client address k =
      elim (Bool-cases (not (is_valid (normalize address)))) [
        | inl invalid ↦ rw invalid k
        | inr fine ↦ elim (Option-cases (lookup reg client (normalize address))) [
          | inl e ↦
              rw (fine, e)
                (Keeps-same reg promise _ now
                  (λ c i.
                    at_one-equal promise client (normalize address) 0 now c i
                      (omega (arith, ap time_of e, k.remaining client (normalize address))))
                  k)
          | inr (until, e) ↦
              rw (fine, e)
                (remove-Keeps reg promise now client (normalize address) 0 (omega arith) k)
        ]
      ]

  -- The calls, and the passing of time.
  pub data Call : Type 0 where
    registers : ℕ → ℕ → ℕ → Call
    asks : ℕ → ℕ → Call
    revokes : ℕ → ℕ → Call
    clears lists resets : Buckets → Call
    waits : ℕ → Call

  -- The registry and the time after a call.
  pub call : ℕ → Registry → Call → Registry
  call now reg (registers client address ttl) =
      (register normalize is_valid reg now client address ttl).1
  call now reg (asks client address) = (registered normalize is_valid reg now client address).1
  call now reg (revokes client address) = (revoke normalize is_valid reg client address).1
  call now reg (clears allowed) = (clear_expired reg now allowed).1
  call now reg (lists allowed) = (list reg now allowed).1
  call now reg (resets allowed) = (reset reg allowed).1
  call now reg (waits time) = reg

  pub later : ℕ → Call → ℕ
  later now (registers client address ttl) = now
  later now (asks client address) = now
  later now (revokes client address) = now
  later now (clears allowed) = now
  later now (lists allowed) = now
  later now (resets allowed) = now
  later now (waits time) = now + time

  -- What a call makes of the promise.
  pub promised : ℕ → Promise → Call → Promise
  promised now promise (registers client address ttl) =
      if not (is_valid (normalize address)) || ttl == 0
      then promise
      else raised promise client (normalize address) (now + ttl)
  promised now promise (asks client address) = promise
  promised now promise (revokes client address) =
      if not (is_valid (normalize address))
      then promise
      else at_one promise client (normalize address) 0
  promised now promise (clears allowed) = promise
  promised now promise (lists allowed) = promise
  promised now promise (resets allowed) = λ c i. if allowed c then 0 else promise c i
  promised now promise (waits time) = promise

  -- If a registry has one entry at most for each key and leaves each address the time that was
  -- promised, it does so after any call, for the promise as the call changes it.
  pub call-Keeps :
      (now : ℕ) (reg : Registry) (promise : Promise) (m : Call)
      → Keeps reg promise now
      → Keeps (call now reg m) (promised now promise m) (later now m)
  unfolding call promised later clear_expired list
  call-Keeps now reg promise (registers client address ttl) k =
      register-Keeps reg promise now client address ttl k
  call-Keeps now reg promise (asks client address) k =
      (registered-Keeps reg promise now client address k).1
  call-Keeps now reg promise (revokes client address) k =
      revoke-Keeps reg promise now client address k
  call-Keeps now reg promise (clears allowed) k = clear_expired-Keeps reg promise now allowed k
  call-Keeps now reg promise (lists allowed) k = clear_expired-Keeps reg promise now allowed k
  call-Keeps now reg promise (resets allowed) k = reset-Keeps reg promise now allowed k
  call-Keeps now reg promise (waits time) k = record {
    distinct = k.distinct;
    remaining = λ c i. omega (arith, k.remaining c i);
  }

  pub calls : ℕ → Registry → List Call → Registry
  calls now reg [] = reg
  calls now reg (m ∷ ms) = calls (later now m) (call now reg m) ms

  pub time_after : ℕ → List Call → ℕ
  time_after now [] = now
  time_after now (m ∷ ms) = time_after (later now m) ms

  pub promises : ℕ → Promise → List Call → Promise
  promises now promise [] = promise
  promises now promise (m ∷ ms) = promises (later now m) (promised now promise m) ms

  calls-Keeps :
      (ms : List Call) (now : ℕ) (reg : Registry) (promise : Promise)
      → Keeps reg promise now
      → Keeps (calls now reg ms) (promises now promise ms) (time_after now ms)
  unfolding calls promises time_after
  calls-Keeps [] now reg promise k = k
  calls-Keeps (m ∷ ms) now reg promise k =
      calls-Keeps ms (later now m) (call now reg m) (promised now promise m)
        (call-Keeps now reg promise m k)

  -- After any calls from an empty registry, with time passing between them, Registered answers
  -- by the latest time that was asked for and not revoked or reset, for the client or for every
  -- client, if the address is valid, no matter which cleanups came before.
  pub registered-promise :
      (ms : List Call) (client address : ℕ)
      → let now = time_after 0 ms in
        let promise = promises 0 (λ c i. 0) ms in
        let ip = normalize address in
        (registered normalize is_valid (calls 0 [] ms) now client address).0
        ≡ is_valid ip && (ltb now (promise client ip) || ltb now (promise any_client ip))
  registered-promise ms client address =
      (registered-Keeps (calls 0 [] ms) (promises 0 (λ c i. 0) ms) (time_after 0 ms) client address
        (calls-Keeps ms 0 [] (λ c i. 0) (record { distinct = tt; remaining = λ c i. refl }))).0
