-- ===== src/Hosts/Rules.antt =====
-- The rules of an entry for HTTP (lib/file/db.go): names with a wildcard, locations and schemes.
use nps.Prelude.{
  ℕ, suc, ◌+◌, List, [], ◌∷◌, Bool, true, false, ◌&&◌, ◌||◌, not, length, drop, ltb, leb, ◌==◌,
  if◌then◌else◌,
}
use nps.Text.{
  Text, codes, same, is_empty, to_lower, trim_space, starts, trim_prefix, ends, trim_suffix,
}
use nps.Text.Find.{any, one_of, split}

-- normalizeHostName
unfoldable pub normalize_name : Text → Text
normalize_name value = trim_suffix (b'.' ∷ []) (trim_space (to_lower value))

abbrev pub has_star : Text → Bool
has_star rule = any (λ c. c == b'*') rule

-- strings.Count of a byte
abbrev pub count_byte : ℕ → Text → ℕ
count_byte c [] = 0
count_byte c (d ∷ s) = let rest = count_byte c s in if d == c then suc rest else rest

-- "*."
abbrev pub wild : Text
wild = b'*' ∷ b'.' ∷ []

-- A label of validHostRule
abbrev pub is_label_byte : ℕ → Bool
is_label_byte c = leb b'a' c && leb c b'z' || leb b'0' c && leb c b'9' || c == b'-'

abbrev pub ends_in_dash : Text → Bool
ends_in_dash label = starts (b'-' ∷ []) label || ends (b'-' ∷ []) label

unfoldable pub is_label : Text → Bool
is_label label =
    not (is_empty label || ltb 63 (length label) || ends_in_dash label)
    && not (any (λ c. not (is_label_byte c)) label)

unfoldable pub all_labels : List Text → Bool
all_labels [] = true
all_labels (l ∷ ls) = is_label l && all_labels ls

-- The end of validHostRule, for the rule without its wildcard
unfoldable pub valid_name : Text → Bool
valid_name rule = not (is_empty rule || ltb 253 (length rule)) && all_labels (split b'.' rule)

-- ":/%?#\\\r\n\t "
abbrev pub forbidden : Text
forbidden = b':' ∷ b'/' ∷ b'%' ∷ b'?' ∷ b'#' ∷ b'\\' ∷ 13 ∷ 10 ∷ 9 ∷ b' ' ∷ []

-- validHostRule, with net.ParseIP as a test
unfoldable pub valid_rule : (Text → Bool) → Text → Bool
valid_rule is_ip text =
    let rule = normalize_name text in
    if is_empty rule
    then false
    else if is_ip rule
    then true
    else if any (one_of forbidden) rule
    then false
    else if has_star rule
    then starts wild rule && count_byte b'*' rule == 1 && valid_name (trim_prefix wild rule)
    else valid_name rule

-- hostRuleMatches, for names that are normalized
unfoldable pub name_matches : Text → Text → Bool
name_matches host rule =
    let suffix = trim_prefix wild rule in
    if is_empty host || is_empty rule
    then false
    else if not (has_star rule)
    then same host rule
    else if not (starts wild rule) || not (count_byte b'*' rule == 1)
    then false
    else not (is_empty suffix) && ltb (length suffix + 1) (length host) && ends (b'.' ∷ suffix) host

-- hostRuleMatches
unfoldable pub rule_matches : Text → Text → Bool
unfolding name_matches
rule_matches host rule = name_matches (normalize_name host) (normalize_name rule)

-- hostRulesOverlap, for rules that are normalized and valid
unfoldable pub names_overlap : Text → Text → Bool
unfolding name_matches
names_overlap a b =
    let a_suffix = trim_prefix wild a in
    let b_suffix = trim_prefix wild b in
    if not (starts wild a) && not (starts wild b)
    then same a b
    else if not (starts wild b)
    then rule_matches b a
    else if not (starts wild a)
    then rule_matches a b
    else same a_suffix b_suffix
      || ends (b'.' ∷ b_suffix) a_suffix
      || ends (b'.' ∷ a_suffix) b_suffix

-- hostRulesOverlap
unfoldable pub rules_overlap : (Text → Bool) → Text → Text → Bool
unfolding names_overlap
rules_overlap is_ip x y =
    let a = normalize_name x in
    let b = normalize_name y in
    if not (valid_rule is_ip a) || not (valid_rule is_ip b) then false else names_overlap a b

-- hostRuleSpecificity
unfoldable pub specificity : Text → Bool × ℕ
specificity text =
    let rule = normalize_name text in
    if is_empty rule
    then (false, 0)
    else if starts wild rule && count_byte b'*' rule == 1
    then (false, length (trim_prefix wild rule))
    else if not (has_star rule)
    then (true, length rule)
    else (false, 0)

-- The loop of normalizeHostLocation, which takes off the slashes at the end while there is more
unfoldable pub without_slashes : Text → Text
without_slashes [] = []
without_slashes (c ∷ s) =
    let rest = without_slashes s in if is_empty rest && c == b'/' then [] else c ∷ rest

-- normalizeHostLocation
unfoldable pub normalize_location : Text → Text
normalize_location text =
    let location = trim_space text in
    if is_empty location
    then b'/' ∷ []
    else if starts (b'/' ∷ []) location
    then b'/' ∷ without_slashes (drop 1 location)
    else b'/' ∷ without_slashes location

abbrev pub slash_at : ℕ → Text → Bool
slash_at n s = starts (b'/' ∷ []) (drop n s)

-- hostLocationsOverlap, for locations that are normalized
unfoldable pub paths_overlap : Text → Text → Bool
paths_overlap a b =
    if same a (b'/' ∷ []) || same b (b'/' ∷ []) || same a b
    then true
    else if starts b a
    then ltb (length b) (length a) && slash_at (length b) a
    else if starts a b
    then ltb (length a) (length b) && slash_at (length a) b
    else false

-- hostLocationsOverlap
unfoldable pub locations_overlap : Text → Text → Bool
unfolding paths_overlap
locations_overlap x y = paths_overlap (normalize_location x) (normalize_location y)

-- hostPathMatches
unfoldable pub path_matches : Text → Text → Bool
path_matches uri location =
    let next = drop (length location) uri in
    if is_empty location || same location (b'/' ∷ [])
    then starts (b'/' ∷ []) uri
    else if not (starts location uri)
    then false
    else length uri == length location || starts (b'/' ∷ []) next || starts (b'?' ∷ []) next

abbrev pub all_schemes : Text
all_schemes = codes "all"

-- One side of hostSchemesOverlap
unfoldable pub normalize_scheme : Text → Text
normalize_scheme text =
    let scheme = to_lower (trim_space text) in if is_empty scheme then all_schemes else scheme

-- hostSchemesOverlap
unfoldable pub schemes_overlap : Text → Text → Bool
unfolding normalize_scheme
schemes_overlap x y =
    let a = normalize_scheme x in
    let b = normalize_scheme y in same a all_schemes || same b all_schemes || same a b
