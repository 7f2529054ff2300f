-- ===== src/Mux/Session/Numbers.antt =====
-- getId of Mux (lib/nps_mux/mux.go) comes to an end: it tries the numbers of a range one after the
-- other, and the map has too few entries for all of them.
use nps.Prelude.{
  ℕ, zero, suc, ◌+◌, ◌-◌, ◌%◌, ◌≤◌, ◌<◌, ◌≡◌, ◌≢◌, sym, ap, ◌∙◌, none, some, List, length, inl, inr,
  Option-cases, subst, arith,
}
use nps.Mux.Session.ConnMap
use nps.Mux.Session.ConnMap.{get-delete_ne, length-delete-lt}
use nps.Mux.Session.Opening.{max_int32, next_id, unless_taken, get_id}

-- A turn ends with its number, or goes on to the next.
get_id-free :
    (fuel : ℕ) (m : List (ℕ × ℕ)) (current : ℕ)
    → ConnMap.get m (next_id current) ≡ none
    → get_id (suc fuel) m current ≡ some (next_id current)
unfolding get_id unless_taken
get_id-free fuel m current free =
    ap (λ o. unless_taken o (next_id current) (get_id fuel m (next_id current))) free

get_id-taken :
    (fuel : ℕ) (m : List (ℕ × ℕ)) (current c : ℕ)
    → ConnMap.get m (next_id current) ≡ some c
    → get_id (suc fuel) m current ≡ get_id fuel m (next_id current)
unfolding get_id unless_taken
get_id-taken fuel m current c taken =
    ap (λ o. unless_taken o (next_id current) (get_id fuel m (next_id current))) taken

-- What holds of every free number that is tried holds of the one that is found.
found-holds :
    (P : ℕ → Type 0) (fuel : ℕ) (m : List (ℕ × ℕ)) (current id : ℕ)
    → ((k : ℕ) → ConnMap.get m (next_id k) ≡ none → P (next_id k))
    → get_id fuel m current ≡ some id
    → P id
unfolding get_id
found-holds P zero m current id h e = absurd (cc e)
found-holds P (suc fuel) m current id h e = elim (Option-cases (ConnMap.get m (next_id current))) [
  | inl free ↦
      let same : next_id current ≡ id = cc (sym (get_id-free fuel m current free) ∙ e) in
      subst P same (h current free)
  | inr (c, taken) ↦
      found-holds P fuel m (next_id current) id h (sym (get_id-taken fuel m current c taken) ∙ e)
]

-- getId returns a number that is not in the map.
pub get_id-unmapped :
    (fuel : ℕ) (m : List (ℕ × ℕ)) (current id : ℕ)
    → get_id fuel m current ≡ some id
    → ConnMap.get m id ≡ none
get_id-unmapped fuel m current id e =
    found-holds (λ i. ConnMap.get m i ≡ none) fuel m current id (λ k free. free) e

-- How many numbers there are.
abbrev pub range : ℕ
range = max_int32 - 9999

-- A map with different entries at each of n numbers has at least n of them.
pigeonhole :
    (n : ℕ) (f : ℕ → ℕ) (m : List (ℕ × ℕ))
    → ((i j : ℕ) → i < j → j < n → f i ≢ f j)
    → ((i : ℕ) → i < n → ConnMap.get m (f i) ≢ none)
    → n ≤ length m
pigeonhole zero f m apart there = omega arith
pigeonhole (suc n) f m apart there = elim (Option-cases (ConnMap.get m (f n))) [
  | inl e ↦ absurd (there n (omega arith) e)
  | inr (c, e) ↦
      let fewer =
        pigeonhole n f (ConnMap.delete m (f n)) (λ i j l h. apart i j l (omega arith))
          λ i l h.
            there i (omega arith)
              (sym (get-delete_ne m (f n) (f i) (apart i n l (omega arith))) ∙ h) in
      omega (arith, fewer, length-delete-lt m (f n) c e)
]

-- The numbers that getId tries.
tried : ℕ → ℕ → ℕ
tried current zero = next_id current
tried current (suc i) = tried (next_id current) i

-- A search that finds none has met an entry at each number that it tried.
none-tried :
    (fuel : ℕ) (m : List (ℕ × ℕ)) (current i : ℕ)
    → get_id fuel m current ≡ none
    → i < fuel
    → ConnMap.get m (tried current i) ≢ none
unfolding get_id tried
none-tried zero m current i e l h = absurd (omega arith)
none-tried (suc fuel) m current zero e l h = absurd (cc (sym (get_id-free fuel m current h) ∙ e))
none-tried (suc fuel) m current (suc i) e l h =
    elim (Option-cases (ConnMap.get m (next_id current))) [
      | inl free ↦ absurd (cc (sym (get_id-free fuel m current free) ∙ e))
      | inr (c, taken) ↦
          none-tried fuel m (next_id current) i (sym (get_id-taken fuel m current c taken) ∙ e)
            (omega arith) h
    ]

next_id-turns : (x : ℕ) → next_id (x % range + 1) ≡ (x + 1) % range + 1
next_id-turns x = ground arith

tried-turns : (x i : ℕ) → tried (x % range + 1) i ≡ (x + 1 + i) % range + 1
unfolding tried
tried-turns x zero = next_id-turns x ∙ ap (λ k. k % range + 1) (omega arith)
tried-turns x (suc i) =
    ap (λ k. tried k i) (next_id-turns x)
    ∙ tried-turns (x + 1) i
    ∙ ap (λ k. k % range + 1) (omega arith)

-- The first number less one.
abbrev first : ℕ → ℕ
first current = next_id current - 1

first-turns : (current : ℕ) → current ≤ max_int32 → next_id current ≡ first current % range + 1
first-turns current h = ground arith

tried-range :
    (current i : ℕ) → current ≤ max_int32 → tried current i ≡ (first current + i) % range + 1
unfolding tried
tried-range current zero h = first-turns current h ∙ ap (λ k. k % range + 1) (omega arith)
tried-range current (suc i) h =
    ap (λ k. tried k i) (first-turns current h)
    ∙ tried-turns (first current) i
    ∙ ap (λ k. k % range + 1) (omega arith)

turns-ne : (x i j : ℕ) → i < j → j < range → (x + i) % range ≢ (x + j) % range
turns-ne x i j l h e = omega arith

tried-ne :
    (current i j : ℕ) → current ≤ max_int32 → i < j → j < range → tried current i ≢ tried current j
tried-ne current i j low l h e =
    turns-ne (first current) i j l h
      (omega (arith, e, tried-range current i low, tried-range current j low))

-- Every number that is tried lies in the range.
next_id-range : (current : ℕ) → (0 < next_id current) × (next_id current ≤ range)
next_id-range current = ground arith

-- If the counter is at most MaxInt32 and the map has fewer than MaxInt32 - 9999 connections,
-- getId ends within one turn more than there are connections, with a number from 1 to MaxInt32 -
-- 9999 that is not in the map.
pub get_id-finds :
    (m : List (ℕ × ℕ)) (current : ℕ)
    → current ≤ max_int32
    → ConnMap.size m < range
    → (id : ℕ) × (get_id (suc (ConnMap.size m)) m current ≡ some id)
      × (ConnMap.get m id ≡ none)
      × (0 < id)
      × (id ≤ range)
get_id-finds m current low small = elim (Option-cases (get_id (suc (length m)) m current)) [
  | inl e ↦ absurd (
      omega (
        arith,
        pigeonhole (suc (length m)) (tried current) m
            (λ i j l h. tried-ne current i j low l (omega arith))
            (λ i l. none-tried (suc (length m)) m current i e l),
      ))
  | inr (id, e) ↦
      let (positive, below) =
        found-holds (λ i. (0 < i) × (i ≤ range)) (suc (length m)) m current id
          (λ k free. next_id-range k) e in
      (id, e, get_id-unmapped (suc (length m)) m current id e, positive, below)
]
