-- ===== src/Net/Parse.antt =====
-- The texts of addresses and prefixes, as net.SplitHostPort, netip.ParseAddr and netip.ParsePrefix
-- read them.
use nps.Prelude.{
  ℕ, ◌+◌, ◌-◌, ◌*◌, ◌^◌, Option, none, some, List, [], ◌∷◌, Bool, false, ◌&&◌, ◌||◌, not, ltb, leb,
  ◌==◌, length, if◌then◌else◌,
}
use nps.Text.{Text, is_empty}
use nps.Text.Find.{any, cut, cut_last, split}
use nps.Net.{Addr, v4, v6, width, Prefix}

abbrev pub is_digit : ℕ → Bool
is_digit c = leb b'0' c && leb c b'9'

abbrev pub all_digits : Text → Bool
all_digits s = not (any (λ c. not (is_digit c)) s)

-- The number of some digits, behind those of `n`.
abbrev pub number_from : ℕ → Text → ℕ
number_from n [] = n
number_from n (c ∷ s) = number_from (n * 10 + (c - b'0')) s

abbrev pub number : Text → ℕ
number s = number_from 0 s

-- One to `most` digits, without a zero in front of another.
abbrev pub leading_zero : Text → Bool
leading_zero [] = false
leading_zero (c ∷ []) = false
leading_zero (c ∷ d ∷ s) = c == b'0'

unfoldable pub octet : Text → Option ℕ
octet s =
    if is_empty s || ltb 3 (length s) || not (all_digits s) || leading_zero s || ltb 255 (number s)
    then none
    else some (number s)

unfoldable pub join_octets : Option ℕ → Option ℕ → Option ℕ → Option ℕ → Option ℕ
join_octets (some a) (some b) (some c) (some d) = some (a * 2 ^ 24 + b * 2 ^ 16 + c * 2 ^ 8 + d)
join_octets _ _ _ _ = none

unfoldable pub parse_v4 : List Text → Option ℕ
unfolding join_octets
parse_v4 (a ∷ b ∷ c ∷ d ∷ []) = join_octets (octet a) (octet b) (octet c) (octet d)
parse_v4 _ = none

-- Whether the first of the bytes '.', ':' and '%' is a dot or a colon.
pub data Kind : Type 0 where
  dotted coloned neither : Kind

abbrev pub kind : Text → Kind
kind [] = neither
kind (c ∷ s) =
    if c == b'.'
    then dotted
    else if c == b':'
    then coloned
    else if c == b'%'
    then neither
    else kind s

as_v4 : Option ℕ → Option Addr
as_v4 none = none
as_v4 (some n) = some (v4 n)

as_v6 : Option ℕ → Option Addr
as_v6 none = none
as_v6 (some n) = some (v6 n)

module _ (parse_v6 : Text → Option ℕ) where
  -- ParseAddr
  unfoldable pub parse_addr : Text → Option Addr
  unfolding as_v4 as_v6
  parse_addr s = elim (kind s) [
    | dotted ↦ as_v4 (parse_v4 (split b'.' s))
    | coloned ↦ as_v6 (parse_v6 s)
    | neither ↦ none
  ]

  with_bits : Text → Option Addr → Option Prefix
  with_bits bits none = none
  with_bits bits (some a) =
      if is_empty bits || not (all_digits bits) || leading_zero bits || ltb (width a) (number bits)
      then none
      else some (record { addr = a; bits = number bits })

  -- ParsePrefix; a zone is refused
  unfoldable pub parse_prefix : Text → Option Prefix
  unfolding with_bits
  parse_prefix s = elim (cut_last b'/' s) [
    | none ↦ none
    | some (addr, bits) ↦
        if any (λ c. c == b'%') addr then none else with_bits bits (parse_addr addr)
  ]

-- SplitHostPort: the host, where the text is host:port or [host]:port.
bracketed : Text → Option (Text × Text) → Option Text
bracketed s none = none
bracketed s (some (host, after)) = elim after [
  | [] ↦ none
  | c ∷ port ↦
      if not (c == b':') || any (λ d. d == b':') port
      then none
      else if any (λ d. d == b'[') host || any (λ d. d == b'[' || d == b']') port
      then none
      else some host
]

plain : Option (Text × Text) → Option Text
plain none = none
plain (some (host, port)) =
    if any (λ c. c == b':') host
    then none
    else if any (λ c. c == b'[' || c == b']') host || any (λ c. c == b'[' || c == b']') port
    then none
    else some host

unfoldable pub split_host_port : Text → Option Text
unfolding bracketed plain
split_host_port [] = none
split_host_port (c ∷ s) =
    if c == b'[' then bracketed s (cut b']' s) else plain (cut_last b':' (c ∷ s))
