-- ===== src/Candidates/Sources.antt =====
-- bridge/p2p_addr.go: where the candidates come from. The addresses of the control connection are
-- those that addrIP reads; the clock is read once for each lookup, in seconds.
use nps.Prelude.{
  ℕ, ◌-◌, Option, none, some, List, [], ◌∷◌, ◌++◌, map, Bool, true, false, ◌&&◌, not, ltb,
  if◌then◌else◌,
}
use nps.Text.{Text, codes, trim, trim_space}
use nps.Text.Find.{one_of, split}
use nps.Text.Table.{find, put}
use nps.Net.{Addr, v4, v6, unmap}
use nps.Net.Parse.{parse_addr}
use nps.Candidates.{Families, with_family, is_unspecified, non_empty, detected, order_candidates}

-- p2pResolved
pub record Resolved : Type 0 where
  pub addrs : List Addr
  pub at : ℕ
  pub failed : Bool

abbrev pub Cache : Type 0
Cache = List (Text × Resolved)

-- p2pResolveTTL and p2pResolveRetry
abbrev pub resolve_ttl : ℕ
resolve_ttl = 60

abbrev pub resolve_retry : ℕ
resolve_retry = 30

-- What the host can tell: the text of an IPv6 address, the resolver, which gives nothing for an error,
-- the outbound address for a wildcard and for a client, and the clock
pub record Host : Type 0 where
  pub parse_v6 : Text → Option ℕ
  pub lookup : Text → List Addr
  pub detect : Addr → Option Addr
  pub egress : Option Addr → Option Addr
  pub now : ℕ

abbrev pub is_cached : ℕ → Resolved → Bool
is_cached now r = if r.failed then ltb (now - r.at) resolve_retry else ltb (now - r.at) resolve_ttl

abbrev pub last_addrs : Option Resolved → List Addr
last_addrs none = []
last_addrs (some r) = r.addrs

-- The answer of the resolver, stored
pub looked_up : ℕ → Text → List Addr → List Addr → Cache → Cache × List Addr
looked_up now host old [] cache =
    (put host (record { addrs = old; at = now; failed = true }) cache, old)
looked_up now host old (a ∷ addrs) cache =
    let found = map unmap (a ∷ addrs) in
    (put host (record { addrs = found; at = now; failed = false }) cache, found)

-- resolve
unfoldable pub resolve : Host → Text → Cache → Cache × List Addr
unfolding looked_up
resolve h host cache =
    let asked = looked_up h.now host (last_addrs (find host cache)) (h.lookup host) cache in
    elim (find host cache) [
      | none ↦ asked
      | some r ↦ if is_cached h.now r then (cache, r.addrs) else asked
    ]

-- What configured has read so far
pub record Configured : Type 0 where
  pub cache : Cache
  pub addrs : List Addr
  pub wildcards : List Addr
  pub families : Families

abbrev pub with_families : List Addr → Families → Families
with_families [] f = f
with_families (a ∷ addrs) f = with_families addrs (with_family a f)

pub add_entry : Host → Text → Configured → Option Addr → Configured
add_entry h v c (some raw) =
    let ip = unmap raw in
    let families = with_family ip c.families in
    if is_unspecified ip
    then record c { wildcards = c.wildcards ++ ip ∷ []; families = families }
    else record c { addrs = c.addrs ++ ip ∷ []; families = families }
add_entry h v c none =
    let (cache, found) = resolve h v c.cache in
    record c { cache = cache; addrs = c.addrs ++ found; families = with_families found c.families }

pub read_entries : Host → List Text → Configured → Configured
unfolding add_entry
read_entries h [] c = c
read_entries h (raw ∷ entries) c =
    let v = trim (one_of (codes "[]")) (trim_space raw) in
    read_entries h entries (add_entry h v c (parse_addr h.parse_v6 v))

abbrev pub both : Families
both = record { four = true; six = true }

-- The end of configured: no family named is both
abbrev pub named : Configured → Configured
named c = if not c.families.four && not c.families.six then record c { families = both } else c

pub configured_by : Host → List Text → Cache → Configured
unfolding read_entries
configured_by h [] cache = record {
  cache = cache;
  addrs = [];
  wildcards = v4 0 ∷ v6 0 ∷ [];
  families = both;
}
configured_by h (v ∷ entries) cache = named (
    read_entries h (v ∷ entries) (record {
      cache = cache;
      addrs = [];
      wildcards = [];
      families = record { four = false; six = false };
    }))

-- configured
unfoldable pub configured : Host → Text → Cache → Configured
unfolding configured_by
configured h p2p_ip cache = configured_by h (non_empty (split b',' p2p_ip)) cache

abbrev pub somes : List Addr → List (Option Addr)
somes = map some

-- candidates
unfoldable pub candidates :
    Host → Text → Text → Bool → Option Addr → Option Addr → Cache → Cache × List Addr
candidates h p2p_ip reported trusted client local cache =
    let c = configured h p2p_ip cache in
    let told : List (Option Addr) = if trusted then parse_addr h.parse_v6 reported ∷ [] else [] in
    let auto = told ++ (local ∷ h.egress client ∷ somes (detected h.detect c.wildcards)) in
    (c.cache, order_candidates (somes c.addrs) auto client c.families)
