-- ===== src/Acl/Wildcard.antt =====
-- parseIPv4Wildcard and parseIPPrefix of lib/acl/acl.go: the prefix of a rule that is an address.
pub mod Octets
use nps.Prelude.{
  ℕ, ◌*◌, Option, none, some, List, [], ◌∷◌, ◌++◌, ◌&&◌, not, ltb, ◌==◌, length, if◌then◌else◌,
}
use nps.Text.{Text, codes, same, is_empty, trim, trim_space, starts, trim_prefix, ends, trim_suffix}
use nps.Text.Find.{contains, one_of, split}
use nps.Net.{Addr, v4, width, Prefix, masked}
use nps.Net.Parse.{parse_v4, parse_addr, parse_prefix, split_host_port}
use nps.Acl.{Env}
use nps.Acl.Rules.{is_decimal_octet}

-- The octets in front of the first "*", or none for a part that is no octet or for no "*".
unfoldable pub fixed_octets : List Text → Option (List Text)
fixed_octets [] = none
fixed_octets (part ∷ parts) =
    let p = trim_space part in
    if same p (codes "*")
    then some []
    else if is_decimal_octet p
    then elim (fixed_octets parts) [ none ↦ none | some octets ↦ some (p ∷ octets) ]
    else none

-- The octets with "0" for those that are open.
abbrev pub padded : List Text → ℕ → List Text
padded octets n =
    octets
    ++ (if n == 3
        then codes "0" ∷ []
        else if n == 2
        then codes "0" ∷ codes "0" ∷ []
        else if n == 1
        then codes "0" ∷ codes "0" ∷ codes "0" ∷ []
        else codes "0" ∷ codes "0" ∷ codes "0" ∷ codes "0" ∷ [])

-- What a rule is read as: no wildcard form, a prefix, or an error
pub data Read : Type 0 where
  other broken : Read
  prefix : Prefix → Read

pub with_octets : List Text → Option ℕ → Read
with_octets octets none = broken
with_octets octets (some n) = prefix (masked (record { addr = v4 n; bits = 8 * length octets }))

pub of_octets : Option (List Text) → Read
unfolding with_octets
of_octets none = broken
of_octets (some octets) = with_octets octets (parse_v4 (padded octets (length octets)))

-- parseIPv4Wildcard
unfoldable pub parse_ipv4_wildcard : Text → Read
unfolding of_octets
parse_ipv4_wildcard raw =
    if not (contains (codes "*") raw)
    then other
    else if contains (codes ":") raw
    then broken
    else if ltb 4 (length (split b'.' raw))
    then broken
    else of_octets (fixed_octets (split b'.' raw))

-- The text without a port or the brackets
strip_port : Text → Option Text → Text
strip_port raw (some host) = host
strip_port raw none =
    if starts (codes "[") raw && ends (codes "]") raw
    then trim_suffix (codes "]") (trim_prefix (codes "[") raw)
    else raw

masked_option : Option Prefix → Option Prefix
masked_option none = none
masked_option (some p) = some (masked p)

whole : Option Addr → Option Prefix
whole none = none
whole (some a) = some (record { addr = a; bits = width a })

unfoldable pub literal : Env → Text → Read → Option Prefix
unfolding masked_option whole
literal env raw (prefix p) = some p
literal env raw broken = none
literal env raw other =
    if contains (codes "/") raw
    then masked_option (parse_prefix env.parse_v6 raw)
    else whole (parse_addr env.parse_v6 (trim (one_of (codes "[]")) raw))

-- parseIPPrefix
unfoldable pub parse_ip_prefix : Env → Text → Option Prefix
unfolding strip_port literal
parse_ip_prefix env text =
    let raw = trim_space text in
    let bare = strip_port raw (split_host_port raw) in
    if is_empty raw then none else literal env bare (parse_ipv4_wildcard bare)
