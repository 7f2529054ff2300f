-- ===== src/Acl/Geo.antt =====
-- lib/acl/geodata.go: the decoders of GeoIP and Geosite files, on the fields of Acl/Proto. A map
-- from categories is a table of Text/Table; the prefix that PrefixFrom and Masked give for a number
-- of bits that is too large is the zero Prefix, here none.
pub mod Written
use nps.Prelude.{
  ℕ, ◌+◌, ◌*◌, ◌≡◌, Option, none, some, List, [], ◌∷◌, ◌++◌, Bool, true, false, ◌&&◌, ◌||◌, ltb,
  leb, ◌==◌, length, if◌then◌else◌,
}
use nps.Text.{Text, is_empty, to_lower}
use nps.Text.Table.{find, put}
use nps.Net.{Addr, v4, v6, width, unmap, Prefix, masked}
use nps.Acl.{Domain}
use nps.Acl.Proto.{Bytes, Field, Fields, out_of_fuel, malformed, done, proto_fields}

-- Big-endian bytes, and AddrFromSlice
abbrev pub big_endian : ℕ → Bytes → ℕ
big_endian n [] = n
big_endian n (b ∷ bs) = big_endian (256 * n + b) bs

abbrev pub from_slice : Bytes → Option Addr
from_slice bs =
    if length bs == 4
    then some (v4 (big_endian 0 bs))
    else if length bs == 16
    then some (v6 (big_endian 0 bs))
    else none

-- PrefixFrom and Masked
abbrev pub prefix_from : Addr → ℕ → Option Prefix
prefix_from a bits =
    if leb bits (width a) then some (masked (record { addr = a; bits = bits })) else none

-- Whether a field is the text or message of that number, and whether it is the number
abbrev pub is_bytes : ℕ → Field → Bool
is_bytes n f = f.number == n && f.wire == 2

abbrev pub is_number : ℕ → Field → Bool
is_number n f = f.number == n && f.wire == 0

-- The loop of parseGeoIPCIDR
unfoldable pub cidr_fields : List Field → Option Addr → ℕ → Option Addr × ℕ
cidr_fields [] ip bits = (ip, bits)
cidr_fields (f ∷ fs) ip bits =
    cidr_fields fs (if is_bytes 1 f then from_slice f.bytes else ip)
      (if is_bytes 1 f then bits else if is_number 2 f then f.value else bits)

unfoldable pub judged : Option Addr → ℕ → Option (Option Prefix)
judged none bits = none
judged (some ip) bits = if ltb (width ip) bits then none else some (prefix_from (unmap ip) bits)

unfoldable pub cidr_of : Fields → Option (Option Prefix)
cidr_of out_of_fuel = none
cidr_of malformed = none
cidr_of (done fs) = let (ip, bits) = cidr_fields fs none 0 in judged ip bits

-- parseGeoIPCIDR
unfoldable pub parse_cidr : Bytes → Option (Option Prefix)
unfolding cidr_of
parse_cidr message = cidr_of (proto_fields message)

abbrev pub added {ℓ} : {A : Type ℓ} → Option A → List A → List A
added none xs = xs
added (some x) xs = xs ++ x ∷ []

-- The loop of parseGeoIPEntry and parseGeoSiteEntry, with the parser of a part
unfoldable pub entry_fields {ℓ} :
    {A : Type ℓ} → (Bytes → Option A) → List Field → Text → List A → Text × List A
entry_fields part [] name parts = (name, parts)
entry_fields part (f ∷ fs) name parts =
    entry_fields part fs (if is_bytes 1 f then f.bytes else name)
      (if is_bytes 1 f then parts else if is_bytes 2 f then added (part f.bytes) parts else parts)

abbrev pub no_parts {ℓ} : {A : Type ℓ} → List A → Bool
no_parts [] = true
no_parts (x ∷ xs) = false

unfoldable pub complete {ℓ} : {A : Type ℓ} → Text × List A → Option (Text × List A)
complete (name, parts) = if is_empty name || no_parts parts then none else some (name, parts)

unfoldable pub entry_of {ℓ} : {A : Type ℓ} → (Bytes → Option A) → Fields → Option (Text × List A)
unfolding complete
entry_of part out_of_fuel = none
entry_of part malformed = none
entry_of part (done fs) = complete (entry_fields part fs [] [])

-- parseGeoIPEntry and parseGeoSiteEntry
unfoldable pub parse_entry {ℓ} : {A : Type ℓ} → (Bytes → Option A) → Bytes → Option (Text × List A)
unfolding entry_of
parse_entry part message = entry_of part (proto_fields message)

-- result[key] = append(result[key], parts...)
abbrev pub found {ℓ} : {A : Type ℓ} → Option (List A) → List A
found none = []
found (some xs) = xs

abbrev pub append_at {ℓ} :
    {A : Type ℓ} → Text → List A → List (Text × List A) → List (Text × List A)
append_at key parts m = put key (found (find key m) ++ parts) m

abbrev pub include {ℓ} :
    {A : Type ℓ} → List (Text × List A) → Option (Text × List A) → Option (List (Text × List A))
include m none = none
include m (some (name, parts)) = some (append_at (to_lower name) parts m)

-- The loop of parseGeoIPProto and parseGeoSiteProto
unfoldable pub list_fields {ℓ} :
    {A : Type ℓ}
    → (Bytes → Option A)
    → List Field
    → Option (List (Text × List A))
    → Option (List (Text × List A))
list_fields part fs none = none
list_fields part [] (some m) = some m
list_fields part (f ∷ fs) (some m) =
    list_fields part fs (if is_bytes 1 f then include m (parse_entry part f.bytes) else some m)

abbrev pub some_entry {ℓ} :
    {A : Type ℓ} → Option (List (Text × List A)) → Option (List (Text × List A))
some_entry none = none
some_entry (some m) = if no_parts m then none else some m

unfoldable pub list_of {ℓ} :
    {A : Type ℓ} → (Bytes → Option A) → Fields → Option (List (Text × List A))
list_of part out_of_fuel = none
list_of part malformed = none
list_of part (done fs) = some_entry (list_fields part fs (some []))

-- parseGeoIPProto
unfoldable pub parse_geo_ip : Bytes → Option (List (Text × List (Option Prefix)))
unfolding list_of
parse_geo_ip message = list_of parse_cidr (proto_fields message)

-- parseGeoSiteDomain
unfoldable pub domain_fields : List Field → Domain → Domain
domain_fields [] d = d
domain_fields (f ∷ fs) d = domain_fields fs (
    if is_number 1 f
    then record d { kind = f.value }
    else if is_bytes 2 f
    then record d { value = f.bytes }
    else d)

unfoldable pub named_domain : Domain → Option Domain
named_domain d = if is_empty d.value then none else some d

unfoldable pub domain_of : Fields → Option Domain
unfolding named_domain
domain_of out_of_fuel = none
domain_of malformed = none
domain_of (done fs) = named_domain (domain_fields fs (record { kind = 0; value = [] }))

unfoldable pub parse_site_domain : Bytes → Option Domain
unfolding domain_of
parse_site_domain message = domain_of (proto_fields message)

-- parseGeoSiteProto
unfoldable pub parse_geo_site : Bytes → Option (List (Text × List Domain))
unfolding list_of
parse_geo_site message = list_of parse_site_domain (proto_fields message)
