-- ===== src/Mux/Deque.antt =====
-- bufDequeue of lib/nps_mux/queue.go: a ring of slots with a packed pair of 32-bit indices.
-- Its callers hold their queue's lock, so a call runs alone and its compare-and-swaps succeed at
-- once. The counter `starving` of the ring only makes a producer yield, and is left out.
pub mod Indices
pub mod Holds
use Prim.Native.Nat.{bit_and}
use nps.Prelude.{
  ℕ, ◌+◌, ◌-◌, ◌*◌, ◌/◌, ◌%◌, ◌^◌, Option, none, some, List, Bool, true, false, length, get_or, set,
  replicate, ltb, ◌==◌, if◌then◌else◌,
}
use nps.Prelude.Words.{u32_mod, u64_mod}

-- A slot holds a pointer or nil.
pub record Deque {ℓ} (A : Type ℓ) : Type ℓ where
  pub head_tail : ℕ
  pub vals : List (Option A)

-- dequeueLimit
abbrev pub dequeue_limit : ℕ
dequeue_limit = 2 ^ 32 / 4

-- The low half of a word is a mask of 32 ones away.
unfoldable pub unpack : ℕ → ℕ × ℕ
unpack ptrs = (ptrs / u32_mod % u32_mod, ptrs % u32_mod)

unfoldable pub pack : ℕ → ℕ → ℕ
pack head tail = head * u32_mod + tail % u32_mod

-- What popTail does: it finds the ring empty, it spins on a slot that is nil, or it has a value.
pub data Popped {ℓ} (A : Type ℓ) : Type ℓ where
  empty spins : Popped A
  popped : A → Deque A → Popped A

-- The tail index is the low half of the word: at its maximum it is set to 0 without a carry.
pub advance_tail : ℕ → ℕ → ℕ
advance_tail tail ptrs =
    if ltb tail (u32_mod - 1)
    then (ptrs + 1) % u64_mod
    else (ptrs + (u64_mod - 1 - (u32_mod - 1 - 1))) % u64_mod

module _ {ℓ} {A : Type ℓ} where
  -- new(initSize), and the allocations in pushHead of the chain
  unfoldable pub make : ℕ → Deque A
  make size = record { head_tail = 0; vals = replicate size none }

  -- head & uint32(len(d.vals)-1)
  abbrev pub slot : ℕ → List (Option A) → ℕ
  slot i vals = bit_and i (length vals - 1)

  pub push_head : Deque A → A → Deque A × Bool
  unfolding unpack pack
  push_head d val =
      let (head, tail) = unpack d.head_tail in
      if (tail + length d.vals) % u32_mod == head then (d, false) else (
        record d {
          head_tail = pack ((head + 1) % u32_mod) tail;
          vals = set d.vals (slot head d.vals) (some val);
        },
        true,
      )

  take_slot : Deque A → ℕ → Option A → Popped A
  take_slot d tail none = spins
  take_slot d tail (some val) = popped val (record d {
    head_tail = advance_tail tail d.head_tail;
    vals = set d.vals (slot tail d.vals) none;
  })

  pub pop_tail : Deque A → Popped A
  unfolding unpack take_slot
  pop_tail d =
      let (head, tail) = unpack d.head_tail in
      if tail == head then empty else take_slot d tail (get_or d.vals (slot tail d.vals) none)
