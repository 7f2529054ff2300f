-- ===== src/Rate/Charges.antt =====
-- lib/rate/rate.go: what Get charges the limiters of a chain.
use nps.Prelude.{
  ℕ, zero, suc, ◌+◌, ◌-◌, ◌≡◌, ◌<◌, ◌≤◌, ◌⊎◌, refl, Option, none, some, List, [], ◌∷◌, Bool, true,
  false, ◌&&◌, ltb, lt→ltb, All, if◌then◌else◌, arith, Bool-cases, inl, inr,
}
use nps.Rate.{
  pos, burst_for, Rate, Waits, next, rest, Charged, charge, nothing_charged, charges, Asked,
  get_one, get_all, get, sample, sample_from, sample_since, second,
}

abbrev pub total : List ℕ → ℕ
total [] = 0
total (c ∷ cs) = c + total cs

-- Whether the first calls, as many as there are chunks, ended without an error.
abbrev pub granted : Waits → List ℕ → Bool
granted waits [] = true
granted waits (c ∷ cs) = next waits && granted (rest waits) cs

-- The loop ends; the chunks are at most the burst; and they are all of the size, unless WaitN
-- returned an error.
pub record Paid (burst size : ℕ) (waits : Waits) (l : Charged) : Type 0 where
  pub ends : l.ended ≡ true
  pub within : All (λ c. (0 < c) × (c ≤ burst)) l.chunks
  pub whole : (total l.chunks ≡ size) ⊎ ((granted waits l.chunks ≡ false) × (total l.chunks ≤ size))

abbrev chunk : ℕ → ℕ → ℕ
chunk burst size = if ltb burst size then burst else size

chunk_bounds :
    (burst size : ℕ)
    → 0 < burst
    → 0 < size
    → (0 < chunk burst size) × (chunk burst size ≤ burst) × (chunk burst size ≤ size)
chunk_bounds burst size h k = ground arith

charge-Paid :
    (burst size c : ℕ) (waits : Waits) (l : Charged)
    → (0 < c) × (c ≤ burst) × (c ≤ size)
    → Paid burst (size - c) (rest waits) l
    → Paid burst size waits (charge c (if next waits then l else nothing_charged))
charge-Paid burst size c waits l (pos_c, fits, less) p = elim (Bool-cases (next waits)) [
  | inl go ↦ rw go (record {
    ends = p.ends;
    within = ((pos_c, fits), p.within);
    whole = elim p.whole [
      | inl e ↦ inl (omega arith)
      | inr (refused, some_of) ↦ inr (rw go refused, omega arith)
    ];
  })
  | inr stop ↦ rw stop (record {
    ends = refl;
    within = ((pos_c, fits), tt);
    whole = inr (rw stop refl, omega arith);
  })
]

charges-Paid :
    (fuel burst : ℕ) (waits : Waits) (size : ℕ)
    → 0 < burst
    → size ≤ fuel
    → Paid burst size waits (charges fuel burst waits size)
unfolding charges
charges-Paid fuel burst waits zero h k = record { ends = refl; within = tt; whole = inl refl }
charges-Paid zero burst waits (suc n) h k = absurd (omega arith)
charges-Paid (suc fuel) burst waits (suc n) h k =
    charge-Paid burst (suc n) (chunk burst (suc n)) waits
      (charges fuel burst (rest waits) (suc n - chunk burst (suc n)))
      (chunk_bounds burst (suc n) h (omega arith))
      (charges-Paid fuel burst (rest waits) (suc n - chunk burst (suc n)) h
        (omega (arith, (chunk_bounds burst (suc n) h (omega arith)).0)))

-- What Get does with one Rate: no limit, no charge
abbrev pub Served : ℕ → Asked → Rate × Charged → Type 0
Served size q (r, l) =
    (r.limit ≡ q.rate.limit)
    × ((r.consumed ≡ q.rate.consumed + size) ⊎ ((q.rate.lazy ≡ true) × (r.consumed ≡ 0)))
    × Paid q.rate.burst (if ltb 0 q.rate.limit then size else 0) q.waits l

abbrev pub AllServed : ℕ → List Asked → List (Rate × Charged) → Type 0
AllServed size [] [] = Unit
AllServed size [] (o ∷ os) = ⊥
AllServed size (q ∷ qs) [] = ⊥
AllServed size (q ∷ qs) (o ∷ os) = Served size q o × AllServed size qs os

-- As newRate and setLimit leave it
abbrev pub IsReady : Asked → Type 0
IsReady q = q.rate.burst ≡ burst_for q.rate.limit

since-keeps :
    (now at : ℕ) (r : Rate)
    → ((sample_since now at r).limit ≡ r.limit)
      × (((sample_since now at r).consumed ≡ r.consumed) ⊎ ((sample_since now at r).consumed ≡ 0))
unfolding sample_since
since-keeps now at r = elim (Bool-cases (ltb (now - at) second)) [
  | inl early ↦ rw early (refl, inl refl)
  | inr due ↦ rw due (refl, inr refl)
]

from-keeps :
    (now : ℕ) (o : Option ℕ) (r : Rate)
    → ((sample_from now o r).limit ≡ r.limit)
      × (((sample_from now o r).consumed ≡ r.consumed) ⊎ ((sample_from now o r).consumed ≡ 0))
unfolding sample_from
from-keeps now none r = (refl, inl refl)
from-keeps now (some at) r = since-keeps now at r

sample-keeps :
    (now : ℕ) (r : Rate)
    → ((sample now r).limit ≡ r.limit)
      × (((sample now r).consumed ≡ r.consumed) ⊎ ((sample now r).consumed ≡ 0))
unfolding sample
sample-keeps now r = from-keeps now r.sample_at r

counted-keeps :
    (lazy : Bool) (now : ℕ) (r : Rate)
    → ((if lazy then sample now r else r).limit ≡ r.limit)
      × (((if lazy then sample now r else r).consumed ≡ r.consumed)
          ⊎ ((lazy ≡ true) × ((if lazy then sample now r else r).consumed ≡ 0)))
counted-keeps false now r = (refl, inl refl)
counted-keeps true now r =
    let (limit, consumed) = sample-keeps now r in
    (limit, elim consumed [ inl e ↦ inl e | inr e ↦ inr (refl, e) ])

loop-Paid :
    (size : ℕ) (q : Asked)
    → IsReady q
    → Paid q.rate.burst (if ltb 0 q.rate.limit then size else 0) q.waits (
        if ltb 0 q.rate.limit && ltb 0 q.rate.burst
        then charges size q.rate.burst q.waits size
        else nothing_charged)
loop-Paid size q u = elim (Bool-cases (ltb 0 q.rate.limit)) [
  | inl limited ↦
      let some_burst : 0 < q.rate.burst = ground (arith, limited, u) in
      rw (limited, lt→ltb 0 q.rate.burst some_burst)
        (charges-Paid size q.rate.burst q.waits size some_burst (omega arith))
  | inr free ↦ rw free (record { ends = refl; within = tt; whole = inl refl })
]

get_one-Served : (size : ℕ) (q : Asked) → IsReady q → Served size q (get_one size q)
unfolding get_one
get_one-Served size q u =
    let (limit, consumed) =
      counted-keeps q.rate.lazy q.now (record q.rate { consumed = q.rate.consumed + size }) in
    (limit, consumed, loop-Paid size q u)

get_all-AllServed :
    (size : ℕ) (qs : List Asked) → All IsReady qs → AllServed size qs (get_all size qs)
unfolding get_all
get_all-AllServed size [] u = tt
get_all-AllServed size (q ∷ qs) u = (get_one-Served size q u.0, get_all-AllServed size qs u.1)

-- For Rates whose burst is the one for their limit, Get with a positive size serves each Rate of
-- the chain: the limit stays, the size is counted, unless a sample has just reset the count, and
-- the loop ends with chunks from 1 to the burst that are together the size, or 0 without a limit,
-- unless WaitN returned an error, when they are at most that.
pub get-AllServed :
    (n : ℕ) (qs : List Asked) → All IsReady qs → AllServed (suc n) qs (get (pos (suc n)) qs)
unfolding get
get-AllServed n qs u = get_all-AllServed (suc n) qs u
