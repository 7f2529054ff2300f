-- ===== src/Mux/Deque/Holds.antt =====
-- What a bufDequeue (lib/nps_mux/queue.go) holds, as a list, oldest first.
use native.Mathlib.Nat.{mod-add-mod}
use native.Mathlib.Nat.{mod-lt}
use native.Mathlib.Nat.{add-mod_right}
use nps.Prelude.{
  ℕ, suc, ◌+◌, ◌-◌, ◌*◌, ◌/◌, ◌%◌, ◌^◌, ◌≤◌, ◌<◌, ◌≡◌, refl, sym, ap, ◌∙◌, ◌≢◌, Option, none, some,
  List, [], ◌∷◌, ◌++◌, true, false, length, get_or, set, arith, length-set, length-replicate,
  length-append, get_or-set_self, get_or-set_ne, ◌==◌,
}
use nps.Prelude.Words.{u32_mod, bit_and-mask}
use nps.Mux.Deque.{
  Deque, empty, popped, dequeue_limit, make, slot, push_head, pop_tail, advance_tail,
}
use nps.Mux.Deque.Indices.{add-mod-ne, size_bounds, index-mod, advance_tail-word}

module _ {ℓ} {A : Type ℓ} where
  -- The values stand in the slots from index `t` on, round the ring.
  abbrev pub Window : List (Option A) → ℕ → List A → Type ℓ
  Window vals t [] = Unit
  Window vals t (x ∷ xs) = (get_or vals (t % length vals) none ≡ some x) × Window vals (t + 1) xs

  -- A ring of a power of two slots, whose indices bound the values that it holds.
  pub record Holds (d : Deque A) (xs : List A) : Type ℓ where
    pub bits : ℕ
    pub size : length d.vals ≡ 2 ^ bits
    pub small : bits ≤ 30
    pub tail : ℕ
    pub tail_lt : tail < u32_mod
    pub word : d.head_tail ≡ (tail + length xs) % u32_mod * u32_mod + tail
    pub room : length xs ≤ length d.vals
    pub window : Window d.vals tail xs

  slot-mod :
      (i k : ℕ) (vals : List (Option A)) → length vals ≡ 2 ^ k → slot i vals ≡ i % length vals
  slot-mod i k vals size = rw size (bit_and-mask i k)

  -- A write past the window, and before it comes round again, leaves it alone.
  Window-set :
      (vals : List (Option A)) (v : Option A) (t m j : ℕ) (xs : List A)
      → j ≡ (t + length xs + m) % length vals
      → length xs + m < length vals
      → Window vals t xs
      → Window (set vals j v) t xs
  Window-set vals v t m j [] at room w = tt
  Window-set vals v t m j (x ∷ xs) at room w = (
    rw (length-set vals j v, get_or-set_ne vals {i = j} {j = t % length vals} v none apart) w.0,
    Window-set vals v (t + 1) m j xs (at ∙ ap (λ k. k % length vals) (omega arith)) (omega arith)
        w.1,
  )
    where
      apart : j ≢ t % length vals
      apart e =
          add-mod-ne (length vals) t (suc (length xs + m)) (omega arith) (omega arith)
            (ap (λ k. k % length vals) (omega arith) ∙ sym at ∙ e)

  Window-snoc :
      (vals : List (Option A)) (t : ℕ) (xs : List A) (x : A)
      → get_or vals ((t + length xs) % length vals) none ≡ some x
      → Window vals t xs
      → Window vals t (xs ++ (x ∷ []))
  Window-snoc vals t [] x h w = (ap (λ k. get_or vals (k % length vals) none) (omega arith) ∙ h, tt)
  Window-snoc vals t (y ∷ xs) x h w = (
    w.0,
    Window-snoc vals (t + 1) xs x (ap (λ k. get_or vals (k % length vals) none) (omega arith) ∙ h)
        w.1,
  )

  -- Indices that differ by a multiple of the size name the same slots.
  Window-mod :
      (vals : List (Option A)) (t u : ℕ) (xs : List A)
      → t % length vals ≡ u % length vals
      → Window vals t xs
      → Window vals u xs
  Window-mod vals t u [] e w = tt
  Window-mod vals t u (x ∷ xs) e w = (
    ap (λ k. get_or vals k none) (sym e) ∙ w.0,
    Window-mod vals (t + 1) (u + 1) xs
        (sym (mod-add-mod t (length vals) 1)
          ∙ ap (λ k. (k + 1) % length vals) e
          ∙ mod-add-mod u (length vals) 1)
        w.1,
  )

  -- A new ring holds nothing.
  pub make-Holds : (k : ℕ) → k ≤ 30 → Holds (make (2 ^ k)) []
  unfolding make
  make-Holds k h = record {
    bits = k;
    size = length-replicate (2 ^ k) none;
    small = h;
    tail = 0;
    tail_lt = omega arith;
    word = omega arith;
    room = omega arith;
    window = tt;
  }

  -- The two indices of the packed word.
  indices :
      (d : Deque A) (xs : List A) (h : Holds d xs)
      → (d.head_tail / u32_mod % u32_mod ≡ (h.tail + length xs) % u32_mod)
        × (d.head_tail % u32_mod ≡ h.tail)
        × (length d.vals ≤ dequeue_limit)
        × (0 < length d.vals)
  indices d xs h = (omega arith, omega arith, rw h.size bounds.1, rw h.size bounds.0)
    where
      bounds : (0 < 2 ^ h.bits) × (2 ^ h.bits ≤ dequeue_limit)
      bounds = size_bounds h.bits h.small

  slot-index :
      (d : Deque A) (xs : List A) (h : Holds d xs) (i : ℕ)
      → slot (i % u32_mod) d.vals ≡ i % length d.vals
  slot-index d xs h i =
      slot-mod (i % u32_mod) h.bits d.vals h.size ∙ rw h.size (index-mod h.bits i h.small)

  -- The ring after a push, with its indices in terms of the tail and the number of values.
  grown : (d : Deque A) (xs : List A) → Holds d xs → A → Deque A
  grown d xs h x = record {
    head_tail = (h.tail + length xs + 1) % u32_mod * u32_mod + h.tail;
    vals = set d.vals ((h.tail + length xs) % length d.vals) (some x);
  }

  push_head-grown :
      (d : Deque A) (xs : List A) (x : A) (h : Holds d xs)
      → length xs < length d.vals
      → push_head d x ≡ (grown d xs h x, true)
  unfolding push_head grown
  push_head-grown d xs x h lt =
      ground (arith, indices d xs h, slot-index d xs h (h.tail + length xs))

  grown-Holds :
      (d : Deque A) (xs : List A) (x : A) (h : Holds d xs)
      → length xs < length d.vals
      → Holds (grown d xs h x) (xs ++ (x ∷ []))
  unfolding grown
  grown-Holds d xs x h lt = record {
    bits = h.bits;
    size = same ∙ h.size;
    small = h.small;
    tail = h.tail;
    tail_lt = h.tail_lt;
    word = ap (λ k. k % u32_mod * u32_mod + h.tail) (omega (arith, length-append {ℓ} xs (x ∷ [])));
    room = omega (arith, length-append {ℓ} xs (x ∷ []), same);
    window =
        Window-snoc _ h.tail xs x
          (rw same (get_or-set_self d.vals at (some x) none (mod-lt _ (omega arith))))
          (Window-set d.vals (some x) h.tail 0 at xs (ap (λ k. k % length d.vals) (omega arith))
            (omega arith) h.window);
  }
    where
      at : ℕ
      at = (h.tail + length xs) % length d.vals

      same : length (set d.vals at (some x)) ≡ length d.vals
      same = length-set d.vals at (some x)

  -- A full ring refuses a value and stays as it was.
  pub push_head-full :
      (d : Deque A) (xs : List A) (x : A)
      → Holds d xs
      → length xs ≡ length d.vals
      → push_head d x ≡ (d, false)
  unfolding push_head
  push_head-full d xs x h full = ground (arith, indices d xs h)

  -- If a ring holds fewer values than it has slots, a push is accepted and the ring then holds
  -- them with the new value behind.
  pub push_head-room :
      (d : Deque A) (xs : List A) (x : A)
      → Holds d xs
      → length xs < length d.vals
      → ((push_head d x).1 ≡ true) × Holds (push_head d x).0 (xs ++ (x ∷ []))
  push_head-room d xs x h lt = rw (push_head-grown d xs x h lt) (refl, grown-Holds d xs x h lt)

  pub pop_tail-empty : (d : Deque A) → Holds d [] → pop_tail d ≡ empty
  unfolding pop_tail
  pop_tail-empty d h = ground (arith, indices d [] h)

  -- The ring after a pop. The tail index goes round without touching the head index.
  shrunk : (d : Deque A) (x : A) (xs : List A) → Holds d (x ∷ xs) → Deque A
  shrunk d x xs h = record {
    head_tail = (h.tail + suc (length xs)) % u32_mod * u32_mod + (h.tail + 1) % u32_mod;
    vals = set d.vals (h.tail % length d.vals) none;
  }

  pop_tail-shrunk :
      (d : Deque A) (x : A) (xs : List A) (h : Holds d (x ∷ xs))
      → pop_tail d ≡ popped x (shrunk d x xs h)
  unfolding pop_tail shrunk
  pop_tail-shrunk d x xs h = ground (arith, found, apart, advanced, at_slot)
    where
      at_slot : slot (d.head_tail % u32_mod) d.vals ≡ h.tail % length d.vals
      at_slot = ap (λ k. slot k d.vals) (omega arith) ∙ slot-index d (x ∷ xs) h h.tail

      found : get_or d.vals (slot (d.head_tail % u32_mod) d.vals) none ≡ some x
      found = rw at_slot h.window.0

      apart : (d.head_tail % u32_mod == d.head_tail / u32_mod % u32_mod) ≡ false
      apart = ground (arith, indices d (x ∷ xs) h)

      advanced :
          advance_tail (d.head_tail % u32_mod) d.head_tail
          ≡ (h.tail + suc (length xs)) % u32_mod * u32_mod + (h.tail + 1) % u32_mod
      advanced =
          ap (λ k. advance_tail k d.head_tail) (indices d (x ∷ xs) h).1
          ∙ advance_tail-word ((h.tail + suc (length xs)) % u32_mod) h.tail d.head_tail
              (omega arith) h.tail_lt h.word

  shrunk-Holds :
      (d : Deque A) (x : A) (xs : List A) (h : Holds d (x ∷ xs)) → Holds (shrunk d x xs h) xs
  unfolding shrunk
  shrunk-Holds d x xs h = record {
    bits = h.bits;
    size = same ∙ h.size;
    small = h.small;
    tail = (h.tail + 1) % u32_mod;
    tail_lt = omega arith;
    word = omega arith;
    room = omega (arith, same);
    window =
        Window-mod _ (h.tail + 1) _ xs
          (rw (same, h.size) (sym (index-mod h.bits (h.tail + 1) h.small)))
          (Window-set d.vals none (h.tail + 1) (length d.vals - suc (length xs)) at xs
            (sym (add-mod_right h.tail (length d.vals)) ∙ ap (λ k. k % length d.vals) (omega arith))
            (omega arith) h.window.1);
  }
    where
      at : ℕ
      at = h.tail % length d.vals

      same : length (set d.vals at none) ≡ length d.vals
      same = length-set d.vals at none

  -- If a ring holds a value and others behind it, a pop takes that value and leaves the others;
  -- it never spins.
  pub pop_tail-popped :
      (d : Deque A) (x : A) (xs : List A)
      → Holds d (x ∷ xs)
      → (e : Deque A) × (pop_tail d ≡ popped x e) × Holds e xs
  pop_tail-popped d x xs h = (shrunk d x xs h, pop_tail-shrunk d x xs h, shrunk-Holds d x xs h)
