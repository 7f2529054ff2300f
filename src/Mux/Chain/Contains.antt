-- ===== src/Mux/Chain/Contains.antt =====
-- What a bufChain (lib/nps_mux/queue.go) contains, as a list, oldest first.
use native.Mathlib.Nat.{pow-le-pow_right, pow-suc, one-le-pow}
use native.Mathlib.Decide.{dec_lt}
use nps.Prelude.{
  ℕ, suc, ◌*◌, ◌^◌, ◌≤◌, ◌<◌, ◌≡◌, refl, ap, ◌∙◌, List, [], ◌∷◌, ◌++◌, Bool, true, false, length,
  arith, append_assoc, none, length-replicate,
}
use nps.Mux.Deque.{Deque, dequeue_limit, make, push_head}
use nps.Mux.Deque.Holds.{
  Holds, make-Holds, push_head-full, push_head-room, pop_tail-empty, pop_tail-popped,
}
use nps.Mux.Chain.{Chain, Taken, nothing, taken, next_size, new, place, push, pop_from, pop}

-- Doubling keeps to powers of two, up to the limit.
next_size-pow : (k : ℕ) → k ≤ 30 → (j : ℕ) × (j ≤ 30) × (next_size (2 ^ k) ≡ 2 ^ j)
unfolding next_size
next_size-pow k h = elim (dec_lt k 29) [
  | yes small ↦ (suc k, omega arith, ground (arith, pow-suc 2 k, below small))
  | no large ↦ (30, omega arith, ground (arith, above large))
]
  where
    below : k < 29 → 2 ^ k * 2 < dequeue_limit
    below small =
        omega
          (arith, pow-suc 2 k, pow-le-pow_right {n = 2} (omega arith) {i = suc k} {j = 29} small)

    above : ¬ (k < 29) → dequeue_limit ≤ 2 ^ k * 2
    above large =
        omega (
          arith,
          pow-suc 2 k,
          pow-le-pow_right {n = 2} (omega arith) {i = 29} {j = k} (omega arith),
        )

make_room {ℓ} : (A : Type ℓ) (j : ℕ) → 0 < length (make {A = A} (2 ^ j)).vals
unfolding make
make_room A j = omega (arith, length-replicate {ℓ} (2 ^ j) none, one-le-pow j 2 (omega arith))

module _ {ℓ} {A : Type ℓ} where
  -- Each ring holds its part of the values, in the order of the rings.
  abbrev pub Parts : List (Deque A) → Deque A → List A → Type ℓ
  Parts [] head xs = Holds head xs
  Parts (d ∷ ds) head xs =
      (ys : List A) × (zs : List A) × (xs ≡ ys ++ zs) × Holds d ys × Parts ds head zs

  abbrev pub Contains : Chain A → List A → Type ℓ
  Contains c xs = Parts c.older c.head xs

  -- The new ring of a full head holds the value.
  next-Holds :
      (d : Deque A) (xs : List A) (x : A)
      → Holds d xs
      → Holds (push_head (make (next_size (length d.vals))) x).0 (x ∷ [])
  next-Holds d xs x h =
      let (j, le, e) = next_size-pow h.bits h.small in
      rw (h.size, e) (push_head-room (make (2 ^ j)) [] x (make-Holds j le) (make_room A j)).1

  -- A push onto the head, given what it does to the head's ring.
  Parts-head :
      (ds : List (Deque A)) (head head' : Deque A) (xs : List A) (x : A)
      → ((ys : List A) → Holds head ys → Holds head' (ys ++ (x ∷ [])))
      → Parts ds head xs
      → Parts ds head' (xs ++ (x ∷ []))
  Parts-head [] head head' xs x grow p = grow xs p
  Parts-head (d ∷ ds) head head' xs x grow (ys, zs, e, h, rest) = (
    ys,
    zs ++ (x ∷ []),
    ap (λ l. l ++ (x ∷ [])) e ∙ append_assoc ys zs (x ∷ []),
    h,
    Parts-head ds head head' zs x grow rest,
  )

  Parts-snoc :
      (ds : List (Deque A)) (head next : Deque A) (xs ws : List A)
      → Holds next ws
      → Parts ds head xs
      → Parts (ds ++ (head ∷ [])) next (xs ++ ws)
  Parts-snoc [] head next xs ws n p = (xs, ws, refl, p, n)
  Parts-snoc (d ∷ ds) head next xs ws n (ys, zs, e, h, rest) = (
    ys,
    zs ++ ws,
    ap (λ l. l ++ ws) e ∙ append_assoc ys zs ws,
    h,
    Parts-snoc ds head next zs ws n rest,
  )

  -- A ring that took the value holds it behind the others; one that refused it is as it was.
  took :
      (d : Deque A) (x : A)
      → (push_head d x).1 ≡ true
      → (ys : List A) → Holds d ys
      → Holds (push_head d x).0 (ys ++ (x ∷ []))
  took d x e ys h = elim (dec_lt (length ys) (length d.vals)) [
    | yes lt ↦ (push_head-room d ys x h lt).1
    | no ge ↦ absurd (cc (push_head-full d ys x h (omega arith)))
  ]

  refused :
      (d : Deque A) (x : A)
      → (push_head d x).1 ≡ false
      → (ys : List A) → Holds d ys
      → (push_head d x).0 ≡ d
  refused d x e ys h = elim (dec_lt (length ys) (length d.vals)) [
    | yes lt ↦ absurd (cc (push_head-room d ys x h lt).0)
    | no ge ↦ cc (push_head-full d ys x h (omega arith))
  ]

  Parts-last :
      (ds : List (Deque A)) (head : Deque A) (xs : List A)
      → Parts ds head xs
      → (ys : List A) × Holds head ys
  Parts-last [] head xs p = (xs, p)
  Parts-last (d ∷ ds) head xs p = Parts-last ds head p.1 p.4

  place-Contains :
      (c : Chain A) (xs : List A) (x : A) (r : Deque A × Bool)
      → (r.1 ≡ true → (ys : List A) → Holds c.head ys → Holds r.0 (ys ++ (x ∷ [])))
      → (r.1 ≡ false → (ys : List A) → Holds c.head ys → r.0 ≡ c.head)
      → Contains c xs
      → Contains (place c x r) (xs ++ (x ∷ []))
  unfolding place
  place-Contains c xs x (d, true) grow same p = Parts-head c.older c.head d xs x (grow refl) p
  place-Contains c xs x (d, false) grow same p =
      let (ys, h) = Parts-last c.older c.head xs p in
      rw (same refl ys h) (Parts-snoc c.older c.head _ xs (x ∷ []) (next-Holds c.head ys x h) p)

  -- If a chain contains a list of values, after a push it contains them with the new value
  -- behind, also when the head ring is full and a ring is added.
  pub push-Contains :
      (c : Chain A) (xs : List A) (x : A) → Contains c xs → Contains (push c x) (xs ++ (x ∷ []))
  unfolding push
  push-Contains c xs x p =
      place-Contains c xs x (push_head c.head x) (took c.head x) (refused c.head x) p

  -- What a pop answers, and what the chain contains after it.
  abbrev pub Pops : List A → Taken A × Chain A → Type ℓ
  Pops [] r = (r.0 ≡ nothing) × Contains r.1 []
  Pops (x ∷ xs) r = (r.0 ≡ taken x) × Contains r.1 xs

  pop_from-Pops :
      (ds : List (Deque A)) (head : Deque A) (xs : List A)
      → Parts ds head xs
      → Pops xs (pop_from ds head)
  unfolding pop_from
  pop_from-Pops [] head [] p = rw (pop_tail-empty head p, pop_from) (refl, p)
  pop_from-Pops [] head (x ∷ xs) p =
      let (e, eq, h) = pop_tail-popped head x xs p in rw (eq, pop_from) (refl, h)
  pop_from-Pops (d ∷ ds) head xs ([], zs, e, h, rest) =
      rw (pop_tail-empty d h, pop_from) (rw e (pop_from-Pops ds head zs rest))
  pop_from-Pops (d ∷ ds) head xs (y ∷ ys, zs, e, h, rest) =
      let (d', eq, h') = pop_tail-popped d y ys h in
      rw (eq, pop_from, e) (refl, (ys, zs, refl, h', rest))

  -- If a chain contains a list of values, a pop takes the first of them and leaves the others,
  -- and finds nothing exactly when the list is empty; it never hangs.
  pub pop-Pops : (c : Chain A) (xs : List A) → Contains c xs → Pops xs (pop c)
  unfolding pop
  pop-Pops c xs p = pop_from-Pops c.older c.head xs p

-- A new chain contains nothing.
pub new-Contains {ℓ} : (A : Type ℓ) (k : ℕ) → k ≤ 30 → Contains (new {A = A} (2 ^ k)) []
unfolding new
new-Contains A k h = make-Holds k h
