-- ===== src/Hosts/Routes.antt =====
-- The entries for HTTP of lib/file/db.go: owners, conflicts, and the entry that serves a request. The
-- entries are a list, in the order in which Range meets them.
use nps.Prelude.{
  ℕ, Option, none, some, List, [], ◌∷◌, Bool, true, false, ◌&&◌, ◌||◌, not, length, ltb, ◌==◌,
  if◌then◌else◌,
}
use nps.Text.{Text, same, is_empty, starts}
use nps.Rate.{ℤ, pos, negsuc}
use nps.Hosts.Rules.{
  valid_rule, rule_matches, rules_overlap, specificity, normalize_scheme, schemes_overlap,
  locations_overlap, path_matches, all_schemes,
}

-- A client as far as ownership goes
pub record Client : Type 0 where
  pub user_id : ℤ
  pub id : ℤ

pub record Host : Type 0 where
  pub id : ℕ
  pub host : Text
  pub location : Text
  pub scheme : Text
  pub is_close : Bool
  pub client : Option Client

-- The sign and the equality of an int
abbrev is_positive : ℤ → Bool
is_positive (pos n) = ltb 0 n
is_positive (negsuc n) = false

abbrev is_negative : ℤ → Bool
is_negative (pos n) = false
is_negative (negsuc n) = true

abbrev same_number : ℤ → ℤ → Bool
same_number (pos m) (pos n) = m == n
same_number (negsuc m) (negsuc n) = m == n
same_number (pos m) (negsuc n) = false
same_number (negsuc m) (pos n) = false

-- sameHostOwner, for clients that are there
unfoldable pub same_owner : Client → Client → Bool
same_owner a b =
    if is_positive a.user_id || is_positive b.user_id
    then is_positive a.user_id && same_number a.user_id b.user_id
    else if is_negative a.id || is_negative b.id
    then is_negative a.id && same_number a.id b.id
    else is_positive a.id && same_number a.id b.id

-- The candidates that the loop of IsHostRouteConflict passes over, by their client
unfoldable pub foreign : Client → Option Client → Bool
unfolding same_owner
foreign owner none = false
foreign owner (some c) = not (same_owner owner c)

unfoldable pub conflicts : (Text → Bool) → Host → Client → List Host → Bool
unfolding foreign
conflicts is_ip h owner [] = false
conflicts is_ip h owner (k ∷ ks) =
    let rest = conflicts is_ip h owner ks in
    if k.id == h.id || not (foreign owner k.client)
    then rest
    else if schemes_overlap (normalize_scheme h.scheme) k.scheme
        && rules_overlap is_ip h.host k.host
        && locations_overlap h.location k.location
    then true
    else rest

unfoldable pub conflict_of : (Text → Bool) → Host → Option Client → List Host → Bool
unfolding conflicts
conflict_of is_ip h none hosts = false
conflict_of is_ip h (some owner) hosts =
    if not (valid_rule is_ip h.host)
    then false
    else if same_number owner.user_id (pos 0) && same_number owner.id (pos 0)
    then true
    else conflicts is_ip h owner hosts

-- IsHostRouteConflict
unfoldable pub is_route_conflict : (Text → Bool) → Host → List Host → Bool
unfolding conflict_of
is_route_conflict is_ip h hosts = conflict_of is_ip h h.client hosts

-- A request: its host, its scheme and its URI, none where only the name is known ("*")
pub record Request : Type 0 where
  pub host : Text
  pub scheme : Text
  pub uri : Option Text

-- The location with a slash in front, as GetInfoByHost takes it
unfoldable pub rooted : Text → Text
rooted location =
    if is_empty location
    then b'/' ∷ []
    else if starts (b'/' ∷ []) location
    then location
    else b'/' ∷ location

unfoldable pub uri_matches : Option Text → Text → Bool
uri_matches none location = true
uri_matches (some uri) location = path_matches uri location

-- An entry that GetInfoByHost takes into account
unfoldable pub serves : Request → Host → Bool
unfolding rooted uri_matches
serves r h =
    not h.is_close
    && (same h.scheme all_schemes || same h.scheme r.scheme)
    && rule_matches r.host h.host
    && uri_matches r.uri (rooted h.location)

-- The order of the candidates: exact names first, then longer suffixes, longer locations and smaller
-- numbers.
unfoldable pub before : Bool → ℕ → ℕ → ℕ → Bool → ℕ → ℕ → ℕ → Bool
before exact suffix size id best_exact best_suffix best_size best_id =
    let same_exact = if exact then best_exact else not best_exact in
    exact && not best_exact
    || same_exact && ltb best_suffix suffix
    || same_exact && suffix == best_suffix && ltb best_size size
    || same_exact && suffix == best_suffix && size == best_size && ltb id best_id

-- betterHost
unfoldable pub better : Host → Host → Bool
unfolding before rooted
better h best =
    let (exact, suffix) = specificity h.host in
    let (best_exact, best_suffix) = specificity best.host in
    before exact suffix (length (rooted h.location)) h.id best_exact best_suffix
      (length (rooted best.location)) best.id

abbrev pub take_better : Option Host → Host → Option Host
take_better none h = some h
take_better (some best) h = if better h best then some h else some best

-- The loops of GetInfoByHost
unfoldable pub best_of : Request → List Host → Option Host → Option Host
unfolding better serves
best_of r [] best = best
best_of r (h ∷ hs) best = best_of r hs (if serves r h then take_better best h else best)

-- GetInfoByHost
unfoldable pub get_info_by_host : Request → List Host → Option Host
unfolding best_of
get_info_by_host r hosts = best_of r hosts none
