-- ===== src/Candidates.antt =====
-- bridge/p2p_addr.go: the addresses at which a client probes the observers, and IsPublicIP of
-- lib/common/util.go. An address that is not valid is none, and none has a zone. The outbound
-- addresses of this host and the resolver are arguments.
pub mod Ordered
pub mod Sources
use nps.Prelude.{
  ℕ, ◌+◌, ◌-◌, ◌*◌, ◌/◌, ◌%◌, ◌^◌, Option, none, some, List, [], ◌∷◌, ◌++◌, Bool, true, false, ◌&&◌,
  ◌||◌, not, ltb, leb, ◌==◌, if◌then◌else◌,
}
use nps.Text.{Text, codes, is_empty, trim, trim_space}
use nps.Text.Find.{one_of, split}
use nps.Text.Table.{find, put}
use nps.Net.{Addr, v4, v6, value, is_v4, unmap, same_addr}
use nps.Net.Parse.{parse_addr}

-- The first bits of an address, and the tests of net and netip on valid, unmapped addresses
abbrev pub starts_with : Addr → ℕ → ℕ → Bool
starts_with (v4 n) bits head = n / 2 ^ (32 - bits) == head
starts_with (v6 n) bits head = n / 2 ^ (128 - bits) == head

abbrev pub is_unspecified : Addr → Bool
is_unspecified a = value a == 0

abbrev pub is_multicast : Addr → Bool
is_multicast a = if is_v4 a then starts_with a 4 14 else starts_with a 8 255

abbrev pub is_loopback : Addr → Bool
is_loopback a = if is_v4 a then starts_with a 8 127 else value a == 1

abbrev pub is_link_local : Addr → Bool
is_link_local a = if is_v4 a then starts_with a 16 43518 else starts_with a 10 1018

abbrev pub is_link_local_multicast : Addr → Bool
is_link_local_multicast a =
    if is_v4 a
    then starts_with a 24 14680064
    else starts_with a 8 255 && value a / 2 ^ 112 % 16 == 2

-- IsPublicIP
unfoldable pub is_public : Addr → Bool
is_public a =
    if is_loopback a || is_link_local_multicast a || is_link_local a
    then false
    else if not (is_v4 a)
    then false
    else if starts_with a 8 10
    then false
    else if starts_with a 12 2753
    then false
    else if starts_with a 16 49320
    then false
    else true

-- p2pPublic
unfoldable pub p2p_public : Option Addr → Bool
p2p_public none = false
p2p_public (some a) = is_public (unmap a)

-- The families of IPv4 and IPv6 that are named, and p2pFamily
pub record Families : Type 0 where
  pub four : Bool
  pub six : Bool

abbrev pub allows_family : Families → Addr → Bool
allows_family f a = if is_v4 (unmap a) then f.four else f.six

abbrev pub with_family : Addr → Families → Families
with_family a f = if is_v4 (unmap a) then record f { four = true } else record f { six = true }

-- What orderCandidates has so far
pub record Chosen : Type 0 where
  pub near : List Addr
  pub far : List Addr
  pub seen : List Addr

abbrev pub is_in : Addr → List Addr → Bool
is_in a [] = false
is_in a (b ∷ bs) = same_addr a b || is_in a bs

-- The tests of add but the one for repetition
unfoldable pub is_usable : Families → Bool → Addr → Bool
is_usable families automatic c =
    not (is_unspecified c)
    && not (is_multicast c)
    && allows_family families c
    && not (automatic && (is_loopback c || is_link_local c))

unfoldable pub choose : Bool → Addr → Chosen → Chosen
choose client_public c st =
    if client_public && not (is_public c)
    then record st { seen = c ∷ st.seen; far = st.far ++ c ∷ [] }
    else record st { seen = c ∷ st.seen; near = st.near ++ c ∷ [] }

unfoldable pub add_candidate : Families → Bool → Bool → Option Addr → Chosen → Chosen
unfolding choose
add_candidate families client_public automatic none st = st
add_candidate families client_public automatic (some raw) st =
    let c = unmap raw in
    if not (is_usable families automatic c) || is_in c st.seen
    then st
    else choose client_public c st

unfoldable pub add_all : Families → Bool → Bool → List (Option Addr) → Chosen → Chosen
unfolding add_candidate
add_all families client_public automatic [] st = st
add_all families client_public automatic (c ∷ cs) st =
    add_all families client_public automatic cs
      (add_candidate families client_public automatic c st)

-- orderCandidates
unfoldable pub order_candidates :
    List (Option Addr) → List (Option Addr) → Option Addr → Families → List Addr
unfolding add_all p2p_public
order_candidates explicit auto client families =
    let st = add_all families (p2p_public client) true auto (
      add_all families (p2p_public client) false explicit
        (record { near = []; far = []; seen = [] })) in
    st.near ++ st.far

-- nonEmpty
unfoldable pub non_empty : List Text → List Text
non_empty [] = []
non_empty (v ∷ vs) =
    let trimmed = trim_space v in if is_empty trimmed then non_empty vs else trimmed ∷ non_empty vs

-- detected, with what detect answers for a wildcard
unfoldable pub detected : (Addr → Option Addr) → List Addr → List Addr
detected detect [] = []
detected detect (w ∷ ws) =
    let others = detected detect ws in
    elim (detect w) [ none ↦ others | some d ↦ if differ_family d w then others else d ∷ others ]
  where
    both_or_neither : Bool → Bool → Bool
    both_or_neither true b = b
    both_or_neither false b = not b

    differ_family : Addr → Addr → Bool
    differ_family a b = not (both_or_neither (is_v4 (unmap a)) (is_v4 (unmap b)))
