-- ===== src/Rate.antt =====
-- lib/rate/rate.go and directional.go: limits in bytes per second. The token bucket of
-- golang.org/x/time/rate, whose WaitN blocks until the tokens are there, is a parameter: whether
-- each call ends without an error. A Rate with its parents is a list, the global one last. Numbers
-- are int64; a limit may be negative. A clock is a number of nanoseconds.
pub mod Charges
use nps.Prelude.{
  ℕ, zero, suc, ◌+◌, ◌-◌, ◌*◌, ◌/◌, ◌^◌, Option, none, some, List, [], ◌∷◌, ◌++◌, Bool, true, false,
  ◌&&◌, ◌||◌, not, ltb, leb, ◌==◌, if◌then◌else◌,
}

-- An int64: negative, or a number below 2 ^ 63
pub data ℤ : Type 0 where
  pos : ℕ → ℤ
  negsuc : ℕ → ℤ

-- normalizeLimit, and the first lines of newRate and setLimit
abbrev pub at_least_zero : ℤ → ℕ
at_least_zero (pos n) = n
at_least_zero (negsuc n) = 0

abbrev pub max_int : ℕ
max_int = 2 ^ 63 - 1

-- The burst on a platform with int of 64 bits
abbrev pub burst_for : ℕ → ℕ
burst_for limit = if ltb limit max_int then limit else max_int

-- Rate without its limiter, which has the same limit and burst; the zero sample_at is none
pub record Rate : Type 0 where
  pub limit : ℕ
  pub burst : ℕ
  pub stopped : Bool
  pub consumed : ℕ
  pub now_rate : ℕ
  pub lazy : Bool
  pub sample_at : Option ℕ

-- newRate
unfoldable pub new_rate : ℤ → Rate
new_rate limit = record {
  limit = at_least_zero limit;
  burst = burst_for (at_least_zero limit);
  stopped = false;
  consumed = 0;
  now_rate = 0;
  lazy = false;
  sample_at = none;
}

-- NewStandaloneRate
unfoldable pub new_standalone : ℕ → ℤ → Rate
unfolding new_rate
new_standalone now limit = record (new_rate limit) { lazy = true; sample_at = some now }

-- setLimit
unfoldable pub set_limit : ℤ → Rate → Rate
set_limit limit r = record r {
  limit = at_least_zero limit;
  burst = burst_for (at_least_zero limit);
}

-- Stop
unfoldable pub stop : Rate → Rate
stop r = record r { stopped = true }

-- The tick of Start
unfoldable pub tick : Rate → Rate
tick r = if r.stopped then r else record r { now_rate = r.consumed; consumed = 0 }

abbrev pub second : ℕ
second = 10 ^ 9

-- sampleLazyRate; the quotient is taken without the rounding of floating point
unfoldable pub sample_since : ℕ → ℕ → Rate → Rate
sample_since now at r = if ltb (now - at) second then r else record r {
  now_rate = r.consumed * second / (now - at);
  consumed = 0;
  sample_at = some now;
}

unfoldable pub sample_from : ℕ → Option ℕ → Rate → Rate
sample_from now none r = record r { sample_at = some now }
sample_from now (some at) r = sample_since now at r

unfoldable pub sample : ℕ → Rate → Rate
unfolding sample_from sample_since
sample now r = sample_from now r.sample_at r

-- CurrentRate, at a first and a second reading of the clock
unfoldable pub current_rate : ℕ → ℕ → Rate → Rate × ℕ
current_rate now later r =
    let s = sample now r in
    if r.lazy
    then (
      s,
      if ltb (2 * second) (later - (elim s.sample_at [ none ↦ 0 | some at ↦ at ]))
          then 0
          else s.now_rate,
    )
    else (r, r.now_rate)

-- Whether the calls of WaitN, one after the other, end without an error
abbrev pub Waits : Type 0
Waits = List Bool

abbrev pub next : Waits → Bool
next [] = false
next (w ∷ ws) = w

abbrev pub rest : Waits → Waits
rest [] = []
rest (w ∷ ws) = ws

-- The sizes that WaitN was called with, and whether the loop ended
pub record Charged : Type 0 where
  pub chunks : List ℕ
  pub ended : Bool

abbrev pub charge : ℕ → Charged → Charged
charge c l = record { chunks = c ∷ l.chunks; ended = l.ended }

abbrev pub nothing_charged : Charged
nothing_charged = record { chunks = []; ended = true }

-- The loop of Get, with fuel
unfoldable pub charges : ℕ → ℕ → Waits → ℕ → Charged
charges fuel burst waits zero = nothing_charged
charges zero burst waits (suc n) = record { chunks = []; ended = false }
charges (suc fuel) burst waits (suc n) =
    let chunk = if ltb burst (suc n) then burst else suc n in
    let go_on = charges fuel burst (rest waits) (suc n - chunk) in
    charge chunk (if next waits then go_on else nothing_charged)

-- A Rate, what the clock shows, and what its limiter answers
pub record Asked : Type 0 where
  pub rate : Rate
  pub now : ℕ
  pub waits : Waits

-- One call of Get on one Rate: what it becomes, and what its limiter was charged
unfoldable pub get_one : ℕ → Asked → Rate × Charged
get_one size q =
    let counted = record q.rate { consumed = q.rate.consumed + size } in
    let sampled = if q.rate.lazy then sample q.now counted else counted in
    let loop = charges size q.rate.burst q.waits size in
    (sampled, if ltb 0 q.rate.limit && ltb 0 q.rate.burst then loop else nothing_charged)

-- Get on a Rate and its parents
unfoldable pub get_all : ℕ → List Asked → List (Rate × Charged)
get_all size [] = []
get_all size (q ∷ qs) = get_one size q ∷ get_all size qs

abbrev pub untouched : List Asked → List (Rate × Charged)
untouched [] = []
untouched (q ∷ qs) = (q.rate, nothing_charged) ∷ untouched qs

unfoldable pub get : ℤ → List Asked → List (Rate × Charged)
get (negsuc n) qs = untouched qs
get (pos zero) qs = untouched qs
get (pos (suc n)) qs = get_all (suc n) qs

-- Directional: NewDirectional, SetLimits, Upload and Download
pub record Directional : Type 0 where
  pub upload : Rate
  pub download : Rate

unfoldable pub new_directional : ℕ → ℤ → ℤ → Directional
new_directional now upload download = record {
  upload = new_standalone now upload;
  download = new_standalone now download;
}

unfoldable pub set_limits : ℤ → ℤ → Directional → Directional
set_limits upload download d = record {
  upload = set_limit upload d.upload;
  download = set_limit download d.download;
}

abbrev one_rate : Rate → List (Rate × Charged) → Rate
one_rate r [] = r
one_rate r ((s, c) ∷ rest) = s

unfoldable pub count_upload : ℤ → ℕ → Waits → Directional → Directional
count_upload size now waits d = record d {
  upload = one_rate d.upload (get size (record { rate = d.upload; now = now; waits = waits } ∷ []));
}

unfoldable pub count_download : ℤ → ℕ → Waits → Directional → Directional
count_download size now waits d = record d {
  download =
      one_rate d.download (get size (record { rate = d.download; now = now; waits = waits } ∷ []));
}
