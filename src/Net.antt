-- ===== src/Net.antt =====
-- The parts of Go's net and net/netip that the access lists use: addresses and prefixes as numbers,
-- and their texts. The text of an IPv6 address is read by a parameter; its zone is dropped.
pub mod Parse
use nps.Prelude.{
  ℕ, ◌+◌, ◌-◌, ◌*◌, ◌/◌, ◌%◌, ◌^◌, Option, none, some, List, [], ◌∷◌, Bool, true, false, ◌&&◌, ltb,
  leb, ◌==◌, length, if◌then◌else◌,
}

-- netip.Addr that is valid: 32 or 128 bits
pub data Addr : Type 0 where
  v4 v6 : ℕ → Addr

abbrev pub width : Addr → ℕ
width (v4 n) = 32
width (v6 n) = 128

abbrev pub value : Addr → ℕ
value (v4 n) = n
value (v6 n) = n

abbrev pub is_v4 : Addr → Bool
is_v4 (v4 n) = true
is_v4 (v6 n) = false

-- Unmap: ::ffff:a.b.c.d is a.b.c.d
abbrev pub unmap : Addr → Addr
unmap (v4 n) = v4 n
unmap (v6 n) = if n / 2 ^ 32 == 65535 then v4 (n % 2 ^ 32) else v6 n

-- netip.Prefix; it is valid when `bits` is at most the width of the address.
pub record Prefix : Type 0 where
  pub addr : Addr
  pub bits : ℕ

-- The number of an address without its lowest bits.
abbrev pub clear : ℕ → ℕ → ℕ
clear n low = n / 2 ^ low * 2 ^ low

abbrev pub masked_addr : Addr → ℕ → Addr
masked_addr (v4 n) bits = v4 (clear n (32 - bits))
masked_addr (v6 n) bits = v6 (clear n (128 - bits))

-- Masked of a valid prefix
abbrev pub masked : Prefix → Prefix
masked p = record p { addr = masked_addr p.addr p.bits }

-- Contains
abbrev pub covers : Addr → ℕ → Addr → Bool
covers (v4 p) bits (v4 a) = leb bits 32 && (p / 2 ^ (32 - bits) == a / 2 ^ (32 - bits))
covers (v6 p) bits (v6 a) = leb bits 128 && (p / 2 ^ (128 - bits) == a / 2 ^ (128 - bits))
covers (v4 p) bits (v6 a) = false
covers (v6 p) bits (v4 a) = false

abbrev pub holds : Prefix → Addr → Bool
holds p a = covers p.addr p.bits a

-- Whether two prefixes have the same text.
abbrev pub same_addr : Addr → Addr → Bool
same_addr (v4 a) (v4 b) = a == b
same_addr (v6 a) (v6 b) = a == b
same_addr (v4 a) (v6 b) = false
same_addr (v6 a) (v4 b) = false

abbrev pub same_prefix : Prefix → Prefix → Bool
same_prefix p q = same_addr p.addr q.addr && p.bits == q.bits
