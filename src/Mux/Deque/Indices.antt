-- ===== src/Mux/Deque/Indices.antt =====
-- Arithmetic of the indices of bufDequeue: round the ring, and round their 32 bits.
use native.Mathlib.Nat.{mod-mod_of_dvd, mod-add-mod}
use native.Mathlib.Nat.{mod-lt, mod-eq_of_lt, mod-eq-sub-mod, pow-le-pow_right, one-le-pow}
use native.Mathlib.Nat.{dvd_refl, dvd-mul_right_of_dvd, zero-add, pow-suc}
use Prim.Native.Nat.{◌∣◌}
use native.Mathlib.Decide.{dec_lt}
use nps.Prelude.{ℕ, zero, suc, ◌+◌, ◌-◌, ◌*◌, ◌%◌, ◌^◌, ◌≤◌, ◌<◌, ◌≡◌, ◌≢◌, arith}
use nps.Prelude.Words.{u32_mod}
use nps.Mux.Deque.{dequeue_limit, advance_tail}

-- Fewer than `size` steps round a ring do not come back to the start.
pub add-mod-ne : (size t k : ℕ) → 0 < k → k < size → (t + k) % size ≢ t % size
add-mod-ne size t k pos lt e = elim (dec_lt (t % size + k) size) [
  | yes near ↦ omega (arith, mod-add-mod t size k, mod-eq_of_lt near)
  | no far ↦ omega (
    arith,
    mod-add-mod t size k,
    mod-lt t {m = size} (omega arith),
    mod-eq-sub-mod {n = t % size + k} {m = size} (omega arith),
    mod-eq_of_lt {n = t % size + k - size} {m = size}
        (omega (arith, mod-lt t {m = size} (omega arith))),
  )
]

-- A power of two up to 2 ^ 30 is positive, and divides the range of an index.
pub size_bounds : (k : ℕ) → k ≤ 30 → (0 < 2 ^ k) × (2 ^ k ≤ dequeue_limit)
size_bounds k h =
    (one-le-pow k 2 (omega arith), pow-le-pow_right {n = 2} (omega arith) {i = k} {j = 30} h)

pow-dvd : (k m n : ℕ) → n ≡ m + k → 2 ^ k ∣ 2 ^ n
pow-dvd k zero n e = rw e (rw zero-add (dvd_refl (2 ^ k)))
pow-dvd k (suc m) n e =
    let n' : n ≡ suc (n - 1) = omega arith in
    rw n' (rw pow-suc (dvd-mul_right_of_dvd (2 ^ k) (pow-dvd k m (n - 1) (omega arith)) 2))

pub index-mod : (k i : ℕ) → k ≤ 30 → i % u32_mod % 2 ^ k ≡ i % 2 ^ k
index-mod k i h = mod-mod_of_dvd (2 ^ k) i (pow-dvd k (32 - k) 32 (omega arith))

-- Whether or not the tail goes round, the head index stays.
pub advance_tail-word :
    (head tail word : ℕ)
    → head < u32_mod
    → tail < u32_mod
    → word ≡ head * u32_mod + tail
    → advance_tail tail word ≡ head * u32_mod + (tail + 1) % u32_mod
unfolding advance_tail
advance_tail-word head tail word hh ht e = ground arith
