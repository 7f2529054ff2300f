-- ===== src/Login/Work.antt =====
-- powChallengeStore and verifyLoginPoW of web/controllers/login.go: challenges that are good for one
-- login. A time is a number of nanoseconds.
pub mod Once
use nps.Prelude.{
  ℕ, ◌+◌, ◌-◌, ◌*◌, ◌/◌, ◌^◌, Option, none, some, List, [], ◌∷◌, ◌++◌, Bool, true, false, ◌&&◌,
  ◌||◌, not, ltb, leb, ◌==◌, length, if◌then◌else◌,
}
use nps.Text.{Text, is_empty, trim_space}
use nps.Text.Table.{find, remove, put, keep}

-- powChallengeStore: the times at which challenges expire
pub record Store : Type 0 where
  pub entries : List (Text × ℕ)
  pub capacity : ℕ
  pub next_cleanup : ℕ

-- newPoWChallengeStore
unfoldable pub new_store : ℕ → Store
new_store capacity = record {
  entries = [];
  capacity = if ltb capacity 1 then 1 else capacity;
  next_cleanup = 0;
}

-- clearExpired
unfoldable pub clear_expired : ℕ → Store → Store
clear_expired now s = record s {
  entries = keep (λ expires. ltb now expires) s.entries;
  next_cleanup = now + 15 * 10 ^ 9;
}

abbrev pub is_new : Option ℕ → Bool
is_new none = true
is_new (some e) = false

unfoldable pub store_in : Text → ℕ → Store → Store × Bool
store_in nonce expires s =
    if is_new (find nonce s.entries) && leb s.capacity (length s.entries)
    then (s, false)
    else (record s { entries = put nonce expires s.entries }, true)

-- store
unfoldable pub store : Text → ℕ → ℕ → Store → Store × Bool
unfolding clear_expired store_in
store nonce expires now s =
    if is_empty nonce
    then (s, false)
    else store_in nonce expires (
        if leb s.next_cleanup now || leb s.capacity (length s.entries)
        then clear_expired now s
        else s)

abbrev pub is_fresh : ℕ → Option ℕ → Bool
is_fresh now none = false
is_fresh now (some expires) = ltb now expires

-- consume
unfoldable pub consume : Text → ℕ → Store → Store × Bool
consume nonce now s =
    (record s { entries = remove nonce s.entries }, is_fresh now (find nonce s.entries))

-- The loop of verifyLoginPoW: whether so many leading bits of the digest's bytes are 0
unfoldable pub leading_zeros : ℕ → List ℕ → Bool
leading_zeros remaining [] = true
leading_zeros remaining (b ∷ bs) =
    let later = leading_zeros (remaining - 8) bs in
    if leb 8 remaining
    then (if b == 0 then later else false)
    else if remaining == 0
    then true
    else b / 2 ^ (8 - remaining) == 0

-- verifyLoginPoW, with the digest of SHA-256 and the difficulty
unfoldable pub verify_work : (List ℕ → List ℕ) → ℕ → ℕ → Text → Text → Store → Store × Bool
unfolding consume leading_zeros
verify_work digest difficulty now raw_nonce raw_solution s =
    let nonce = trim_space raw_nonce in
    let solution = trim_space raw_solution in
    let (s', fresh) = consume nonce now s in
    if is_empty nonce || is_empty solution || ltb 64 (length solution)
    then (s, false)
    else if not fresh
    then (s', false)
    else (s', leading_zeros difficulty (digest (nonce ++ 0 ∷ solution)))
