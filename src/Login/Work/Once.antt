-- ===== src/Login/Work/Once.antt =====
-- powChallengeStore of web/controllers/login.go: a challenge is good for one login.
use nps.Prelude.{
  ℕ, ◌+◌, ◌≡◌, ◌≤◌, refl, sym, ap, ◌∙◌, Option, none, some, List, [], ◌∷◌, Bool, true, false, ◌&&◌,
  ◌||◌, ltb, leb, length, if◌then◌else◌, arith, Bool-cases, Option-cases, inl, inr,
}
use nps.Text.{Text, same, is_empty}
use nps.Text.Table.{find, remove, put, same-eq, find-keep-none, find-remove_self, find-remove_ne}
use nps.Login.Work.{Store, clear_expired, is_new, store_in, store, is_fresh, consume}

-- What is done with the store, each at a time
pub data Use : Type 0 where
  stores : Text → ℕ → ℕ → Use
  consumes : Text → ℕ → Use
  clears : ℕ → Use

pub use_store : Store → Use → Store × Bool
use_store s (stores nonce expires now) = store nonce expires now s
use_store s (consumes nonce now) = consume nonce now s
use_store s (clears now) = (clear_expired now s, false)

abbrev pub is_store : Text → Use → Bool
is_store nonce (stores other expires now) = same other nonce
is_store nonce (consumes other now) = false
is_store nonce (clears now) = false

abbrev pub is_consume : Text → Use → Bool
is_consume nonce (stores other expires now) = false
is_consume nonce (consumes other now) = same other nonce
is_consume nonce (clears now) = false

-- How often a test of the uses is met by one that succeeds
pub successes : (Use → Bool) → Store → List Use → ℕ
successes test s [] = 0
successes test s (u ∷ us) =
    let (s', fine) = use_store s u in (if fine && test u then 1 else 0) + successes test s' us

abbrev held : Option ℕ → ℕ
held none = 0
held (some e) = 1

held-le : (o : Option ℕ) → held o ≤ 1
held-le none = omega arith
held-le (some e) = omega arith

fresh-held : (now : ℕ) (o : Option ℕ) (b : Bool) → (if is_fresh now o && b then 1 else 0) ≤ held o
fresh-held now none b = omega arith
fresh-held now (some e) b = ground arith

none_of : (b : Bool) → ◌≡◌ {A = ℕ} (if b && false then 1 else 0) 0
none_of true = refl
none_of false = refl

-- What loses entries holds a nonce at most as it did.
clear-held :
    (nonce : Text) (now : ℕ) (s : Store)
    → held (find nonce (clear_expired now s).entries) ≤ held (find nonce s.entries)
unfolding clear_expired
clear-held nonce now s = elim (Option-cases (find nonce s.entries)) [
  | inl e ↦ rw (e, find-keep-none (λ expires. ltb now expires) nonce s.entries e) (omega arith)
  | inr (v, e) ↦ rw e (held-le _)
]

store_in-held :
    (nonce other : Text) (expires : ℕ) (s : Store)
    → let (s', fine) = store_in other expires s in
      held (find nonce s'.entries)
      ≤ (if fine && same other nonce then 1 else 0) + held (find nonce s.entries)
unfolding store_in
store_in-held nonce other expires s =
    elim (Bool-cases (is_new (find other s.entries) && leb s.capacity (length s.entries))) [
      | inl full ↦ rw full (omega arith)
      | inr room ↦ rw room (stored (same other nonce) refl)
    ]
  where
    stored :
        (b : Bool)
        → same other nonce ≡ b
        → held (find nonce (put other expires s.entries))
          ≤ (if same other nonce then 1 else 0) + held (find nonce s.entries)
    stored true e = rw e (omega arith)
    stored false e = rw (e, find-remove_ne other nonce s.entries e) (omega arith)

store-held :
    (nonce other : Text) (expires now : ℕ) (s : Store)
    → let (s', fine) = store other expires now s in
      held (find nonce s'.entries)
      ≤ (if fine && same other nonce then 1 else 0) + held (find nonce s.entries)
unfolding store
store-held nonce other expires now s = elim (Bool-cases (is_empty other)) [
  | inl empty ↦ rw empty (omega arith)
  | inr named ↦
      rw named (elim (Bool-cases (leb s.next_cleanup now || leb s.capacity (length s.entries))) [
        | inl due ↦ rw due (
            omega (
              arith,
              store_in-held nonce other expires (clear_expired now s),
              clear-held nonce now s,
            ))
        | inr early ↦ rw early (store_in-held nonce other expires s)
      ])
]

consume-held :
    (nonce other : Text) (now : ℕ) (s : Store)
    → let (s', fine) = consume other now s in
      held (find nonce s'.entries) + (if fine && same other nonce then 1 else 0)
      ≤ held (find nonce s.entries)
unfolding consume
consume-held nonce other now s = taken (same other nonce) refl
  where
    taken :
        (b : Bool)
        → same other nonce ≡ b
        → held (find nonce (remove other s.entries))
            + (if is_fresh now (find other s.entries) && same other nonce then 1 else 0)
          ≤ held (find nonce s.entries)
    taken true e =
        let one = same-eq other nonce e in
        omega (
          arith,
          fresh-held now (find other s.entries) (same other nonce),
          ap (λ k. held (find k s.entries)) one,
          ap held (
              sym (ap (λ k. find k (remove other s.entries)) one)
              ∙ find-remove_self other s.entries),
        )
    taken false e =
        rw (e, find-remove_ne other nonce s.entries e)
          (omega (arith, none_of (is_fresh now (find other s.entries))))

-- One use: a store that succeeds may add one, and a consume that succeeds takes one.
step :
    (nonce : Text) (s : Store) (u : Use)
    → let (s', fine) = use_store s u in
      held (find nonce s'.entries) + (if fine && is_consume nonce u then 1 else 0)
      ≤ (if fine && is_store nonce u then 1 else 0) + held (find nonce s.entries)
unfolding use_store
step nonce s (stores other expires now) =
    omega (arith, store-held nonce other expires now s, none_of (store other expires now s).1)
step nonce s (consumes other now) =
    omega (arith, consume-held nonce other now s, none_of (consume other now s).1)
step nonce s (clears now) = omega (arith, clear-held nonce now s)

taken-le :
    (nonce : Text) (s : Store) (us : List Use)
    → successes (is_consume nonce) s us
      ≤ successes (is_store nonce) s us + held (find nonce s.entries)
unfolding successes
taken-le nonce s [] = omega arith
taken-le nonce s (u ∷ us) = omega (arith, step nonce s u, taken-le nonce (use_store s u).0 us)

-- If a store has no entry for a challenge, then in any sequence of stores, consumes and cleanups
-- the challenge is consumed with success at most as often as it was stored with success.
pub consume-once :
    (nonce : Text) (s : Store) (us : List Use)
    → find nonce s.entries ≡ none
    → successes (is_consume nonce) s us ≤ successes (is_store nonce) s us
consume-once nonce s us new = omega (arith, taken-le nonce s us, ap held new)
