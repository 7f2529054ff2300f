-- ===== src/Mux/Window.antt =====
-- The window word of lib/nps_mux/conn.go: from the highest bit, a wait bit, 31 bits of window size,
-- a spare bit and 31 bits of progress. A mask of low ones is a remainder, and the parts are disjoint.
pub mod Send
pub mod Receive
pub mod Link
use nps.Prelude.{
  ℕ, ◌+◌, ◌*◌, ◌/◌, ◌%◌, ◌^◌, ◌<◌, ◌≡◌, ap, Bool, true, false, arith, ◌==◌, if◌then◌else◌,
}

-- mask31 + 1
abbrev pub u31_mod : ℕ
u31_mod = 2 ^ 31

unfoldable pub unpack : ℕ → ℕ × ℕ × Bool
unpack ptrs = (ptrs / 2 ^ 32 % u31_mod, ptrs % u31_mod, ptrs / 2 ^ 63 % 2 == 1)

unfoldable pub pack : ℕ → ℕ → Bool → ℕ
pack max_size done wait =
    (if wait then 2 ^ 63 else 0) + max_size % u31_mod * 2 ^ 32 + done % u31_mod

-- A word gives back the parts that it was made of, up to 31 bits of each number.
pub unpack-pack :
    (max_size done : ℕ) (wait : Bool)
    → unpack (pack max_size done wait) ≡ (max_size % u31_mod, done % u31_mod, wait)
unfolding unpack pack
unpack-pack max_size done true = ground arith
unpack-pack max_size done false = ground arith

pub unpack_bounds : (p : ℕ) → ((unpack p).0 < u31_mod) × ((unpack p).1 < u31_mod)
unfolding unpack
unpack_bounds p = omega arith

-- The same, part by part, for numbers that fit.
pub pack_parts :
    (max_size done : ℕ) (wait : Bool)
    → max_size < u31_mod
    → done < u31_mod
    → ((unpack (pack max_size done wait)).0 ≡ max_size)
      × ((unpack (pack max_size done wait)).1 ≡ done)
      × ((unpack (pack max_size done wait)).2 ≡ wait)
pack_parts max_size done wait hm hd = (
  omega (arith, ap (λ (t : ℕ × ℕ × Bool). t.0) (unpack-pack max_size done wait)),
  omega (arith, ap (λ (t : ℕ × ℕ × Bool). t.1) (unpack-pack max_size done wait)),
  ap (λ (t : ℕ × ℕ × Bool). t.2) (unpack-pack max_size done wait),
)

-- The progress alone, whatever the size.
pub pack_done :
    (max_size done : ℕ) (wait : Bool) → done < u31_mod → (unpack (pack max_size done wait)).1 ≡ done
pack_done max_size done wait h =
    omega (arith, ap (λ (t : ℕ × ℕ × Bool). t.1) (unpack-pack max_size done wait))
