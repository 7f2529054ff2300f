-- ===== src/Acl/Dest.antt =====
-- Dest of lib/acl/acl.go: the policy for the destinations of a proxy. Mode 1 is a list of what is
-- allowed, and mode 2 of what is denied.
pub mod Modes
use nps.Prelude.{
  ℕ, zero, suc, ◌+◌, ◌-◌, Option, none, some, List, [], ◌∷◌, ◌++◌, Bool, true, false, ◌&&◌, ◌||◌,
  not, ltb, leb, ◌==◌, length, drop, if◌then◌else◌,
}
use nps.Text.{
  Text, codes, same, is_empty, to_lower, trim, trim_space, starts, trim_prefix, ends, trim_suffix,
}
use nps.Text.Find.{contains, any, one_of, cut}
use nps.Net.{Addr, Prefix, holds}
use nps.Net.Parse.{parse_prefix, split_host_port}
use nps.Acl.{Env}
use nps.Acl.Rules.{
  split_lines, is_active, active_rule_count, geo_category_exists, geo_ip_rule_matches,
  geo_site_matches, is_below,
}
use nps.Acl.Wildcard.{parse_ip_prefix}
use nps.Acl.Level.{address_of}

-- geoRequirement
pub record Requirement : Type 0 where
  pub kind : Text
  pub category : Text

has_any : Text → Text → Bool
has_any chars s = any (one_of chars) s

-- IndexByte of ':' where it is greater than 0
abbrev pub nonempty_kind : Option (Text × Text) → Option (Text × Text)
nonempty_kind none = none
nonempty_kind (some (before, after)) = if is_empty before then none else some (before, after)

abbrev pub kind_of : Text → Option (Text × Text)
kind_of rule = nonempty_kind (cut b':' rule)

-- The category of a GeoIP rule without its "!"
abbrev pub positive : Text → Text → Text
positive kind category =
    if same kind (codes "geoip") && starts (codes "!") category
    then trim_space (trim_prefix (codes "!") category)
    else category

requirement_of : Option (Text × Text) → Option Requirement
unfolding has_any
requirement_of none = none
requirement_of (some (before, after)) =
    let kind = to_lower (trim_space before) in
    let category = positive kind (to_lower (trim_space after)) in
    if not (same kind (codes "geoip")) && not (same kind (codes "geosite"))
    then none
    else if is_empty category
        || has_any (codes " \t\r\n,;|") category
        || starts (codes "!") category
    then none
    else some (record { kind = kind; category = category })

-- destinationGeoRequirement
unfoldable pub geo_requirement : Text → Option Requirement
unfolding requirement_of
geo_requirement rule = requirement_of (kind_of rule)

requirement_exists : Env → Option Requirement → Bool
requirement_exists env none = false
requirement_exists env (some r) = geo_category_exists env r.kind r.category

abbrev pub is_prefix : Option Prefix → Bool
is_prefix none = false
is_prefix (some p) = true

abbrev pub is_name_kind : Text → Bool
is_name_kind kind =
    same kind (codes "full") || same kind (codes "domain") || same kind (codes "keyword")

-- The end of validDestinationRule
abbrev pub valid_bare : Env → Text → Bool
valid_bare env rule =
    is_prefix (parse_ip_prefix env rule)
    || any (one_of (codes ".*_-")) rule && not (any (one_of (codes " \t/\\")) rule)

valid_kind : Env → Text → Option (Text × Text) → Bool
valid_kind env rule none = valid_bare env rule
valid_kind env rule (some (kind, after)) =
    let value = trim_space after in
    if is_name_kind kind
    then not (is_empty value) && not (any (one_of (codes " \t/\\")) value)
    else is_prefix (parse_ip_prefix env rule)

-- validDestinationRule
unfoldable pub valid_destination_rule : Env → Text → Bool
unfolding requirement_exists valid_kind
valid_destination_rule env rule =
    if starts (codes "geoip:") rule || starts (codes "geosite:") rule
    then requirement_exists env (geo_requirement rule)
    else if not (any (one_of (codes ".:/\\ \t")) rule)
    then not (is_empty rule)
    else valid_kind env rule (kind_of rule)

pub record Dest : Type 0 where
  pub mode : ℕ
  pub rules : List Text
  pub requirements : List Requirement
  pub invalid : Bool

pub data DestError : Type 0 where
  too_many bad_rule : ℕ → DestError

pub record Loaded : Type 0 where
  pub rules : List Text
  pub requirements : List Requirement
  pub errors : List DestError

unfoldable pub add_requirement : Option Requirement → Loaded → Loaded
add_requirement none l = l
add_requirement (some r) l = record l { requirements = r ∷ l.requirements }

-- The loop of CompileDest
unfoldable pub load_rules : Env → ℕ → List Text → Loaded
unfolding add_requirement
load_rules env line [] = record { rules = []; requirements = []; errors = [] }
load_rules env line (raw ∷ lines) =
    let rule = to_lower (trim_space raw) in
    let later = load_rules env (line + 1) lines in
    if not (is_active rule)
    then later
    else if not (valid_destination_rule env rule)
    then record later { errors = bad_rule line ∷ later.errors }
    else add_requirement (geo_requirement rule) (record later { rules = rule ∷ later.rules })

abbrev pub some_error : List DestError → Bool
some_error [] = false
some_error (e ∷ es) = true

-- CompileDest: no policy in another mode
unfoldable pub compile_dest : Env → ℕ → Text → Option Dest × List DestError
unfolding load_rules
compile_dest env mode rules =
    let lines = split_lines (rules ∷ []) in
    let count = active_rule_count lines in
    let l = load_rules env 1 lines in
    if not (mode == 1) && not (mode == 2)
    then (none, [])
    else if ltb 0 env.max_rules && ltb env.max_rules count
    then (
      some (record { mode = mode; rules = []; requirements = []; invalid = true }),
      too_many count ∷ [],
    )
    else (
      some (record {
        mode = mode;
        rules = l.rules;
        requirements = l.requirements;
        invalid = some_error l.errors;
      }),
      l.errors,
    )

host_or_text : Text → Option Text → Text
host_or_text text none = text
host_or_text text (some host) = host

-- hostPart
unfoldable pub host_part : Text → Text
unfolding host_or_text
host_part addr =
    let text = trim_space (to_lower addr) in
    trim_suffix (codes ".") (trim (one_of (codes "[]")) (host_or_text text (split_host_port text)))

-- The rule of a name, by its kind
pub name_matches : Text → Text → Text → Bool
name_matches kind rule host =
    if same kind (codes "full")
    then same host rule
    else if same kind (codes "domain")
    then is_below rule host
    else if same kind (codes "keyword")
    then contains rule host
    else if starts (codes "*.") rule
    then not (same host (drop 2 rule)) && ends (b'.' ∷ drop 2 rule) host
    else if starts (codes "*") rule
    then (let domain = trim_prefix (codes ".") (drop 1 rule) in
        same host domain || ends (b'.' ∷ domain) host)
    else contains rule host

-- The text of an address rule is compared with the host's own address text, which a parameter gives.
abbrev pub AddrText : Type 0
AddrText = Addr → Text

unfoldable pub prefix_matches : Option Prefix → Addr → Bool
prefix_matches none a = false
prefix_matches (some p) a = holds p a

pub geo_matches : Env → Text → Option Addr → Bool
geo_matches env rule none = false
geo_matches env rule (some a) = geo_ip_rule_matches env rule a

unfoldable pub host_matches : Env → AddrText → Text → Text → Text → Option Prefix → Bool
unfolding prefix_matches name_matches
host_matches env addr_text kind rule host (some p) =
    same (addr_text p.addr) rule
    || contains (codes "/") rule && prefix_matches (parse_prefix env.parse_v6 rule) p.addr
host_matches env addr_text kind rule host none = name_matches kind rule host

-- The kind of a rule is empty when it has none.
abbrev pub parts : Text → Option (Text × Text) → Text × Text
parts raw none = ([], raw)
parts raw (some (kind, rule)) = (kind, rule)

-- The loop body of Allows
unfoldable pub rule_matches : Env → AddrText → Text → Text → Bool
unfolding geo_matches host_matches
rule_matches env addr_text raw host =
    let (kind, rule) = parts raw (kind_of raw) in
    if starts (codes "geosite:") raw
    then geo_site_matches env (trim_prefix (codes "geosite:") raw) host
    else if same kind (codes "geoip")
    then geo_matches env rule (address_of env host)
    else host_matches env addr_text kind rule host (parse_ip_prefix env host)

abbrev pub any_rule : Env → AddrText → List Text → Text → Bool
any_rule env addr_text [] host = false
any_rule env addr_text (raw ∷ rules) host =
    rule_matches env addr_text raw host || any_rule env addr_text rules host

abbrev pub all_there : Env → List Requirement → Bool
all_there env [] = true
all_there env (r ∷ rs) = geo_category_exists env r.kind r.category && all_there env rs

-- Allows of a policy that is not nil
unfoldable pub allows_dest : Env → AddrText → Dest → Text → Bool
unfolding rule_matches
allows_dest env addr_text d addr =
    let matched = any_rule env addr_text d.rules (host_part addr) in
    if d.mode == 0
    then true
    else if d.invalid
    then false
    else if not (all_there env d.requirements)
    then false
    else if d.mode == 1
    then matched
    else not matched

-- Allows; nil allows
unfoldable pub allows : Env → AddrText → Option Dest → Text → Bool
unfolding allows_dest
allows env addr_text none addr = true
allows env addr_text (some d) addr = allows_dest env addr_text d addr
