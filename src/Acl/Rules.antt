-- ===== src/Acl/Rules.antt =====
-- lib/acl: lines of rules, the prefix of an address rule, and the lookups in the geographic data.
use nps.Prelude.{
  ℕ, ◌+◌, ◌*◌, ◌^◌, Option, none, some, List, [], ◌∷◌, ◌++◌, Bool, true, false, ◌&&◌, ◌||◌, not,
  ltb, leb, ◌==◌, length, if◌then◌else◌,
}
use nps.Text.{
  Text, codes, same, is_empty, to_lower, trim_space, starts, trim_prefix, ends, trim_suffix,
}
use nps.Text.Find.{contains, fields}
use nps.Net.{Addr, v4, v6, Prefix, holds, unmap}
use nps.Net.Parse.{number, all_digits}
use nps.Acl.{Env, Domain}

-- splitLines
abbrev pub is_break : ℕ → Bool
is_break c = c == b'\r' || c == b'\n' || c == b','

unfoldable pub split_lines : List Text → List Text
split_lines [] = []
split_lines (raw ∷ rules) = fields is_break raw ++ split_lines rules

-- The test of hasActiveRule, activeRuleCount and the loops: neither empty nor a comment
abbrev pub is_active : Text → Bool
is_active rule =
    not (is_empty rule) && not (starts (codes "#") rule) && not (starts (codes ";") rule)

unfoldable pub has_active_rule : List Text → Bool
has_active_rule [] = false
has_active_rule (raw ∷ lines) = is_active (trim_space raw) || has_active_rule lines

unfoldable pub active_rule_count : List Text → ℕ
active_rule_count [] = 0
active_rule_count (raw ∷ lines) =
    if is_active (trim_space raw) then 1 + active_rule_count lines else active_rule_count lines

-- isDecimalOctet
unfoldable pub is_decimal_octet : Text → Bool
is_decimal_octet s = not (is_empty s) && leb (length s) 3 && all_digits s && leb (number s) 255

-- geoCategoryExists, once its arguments are in lower case and trimmed
unfoldable pub category_exists : Env → Text → Text → Bool
category_exists env kind category =
    if is_empty category
    then false
    else if same kind (codes "geoip") && same category (codes "private")
    then true
    else if same kind (codes "geoip")
    then ltb 0 (length (env.geo_ip category))
    else if same kind (codes "geosite")
    then ltb 0 (length (env.geo_site category))
    else false

unfoldable pub geo_category_exists : Env → Text → Text → Bool
unfolding category_exists
geo_category_exists env kind category =
    category_exists env (to_lower (trim_space kind)) (to_lower (trim_space category))

-- The private networks of geoPrefixes
abbrev pub private_prefixes : List Prefix
private_prefixes =
    record { addr = v4 (10 * 2 ^ 24); bits = 8 }
    ∷ record { addr = v4 (172 * 2 ^ 24 + 16 * 2 ^ 16); bits = 12 }
    ∷ record { addr = v4 (192 * 2 ^ 24 + 168 * 2 ^ 16); bits = 16 }
    ∷ record { addr = v4 (127 * 2 ^ 24); bits = 8 }
    ∷ record { addr = v6 1; bits = 128 }
    ∷ record { addr = v6 (252 * 2 ^ 120); bits = 7 }
    ∷ []

-- geoPrefixes
unfoldable pub geo_prefixes : Env → Text → List Prefix
geo_prefixes env category =
    let key = to_lower (trim_space category) in
    if same key (codes "private") then private_prefixes else env.geo_ip key

abbrev pub any_holds : List Prefix → Addr → Bool
any_holds [] a = false
any_holds (p ∷ ps) a = holds p a || any_holds ps a

abbrev pub differ : Bool → Bool → Bool
differ true b = not b
differ false b = b

-- geoIPRuleMatches
unfoldable pub geo_ip_rule_matches : Env → Text → Addr → Bool
geo_ip_rule_matches env rule a =
    differ (any_holds (geo_prefixes env (trim_prefix (codes "!") rule)) (unmap a))
      (starts (codes "!") rule)

-- The host or a name below it
abbrev pub is_below : Text → Text → Bool
is_below domain host = same host domain || ends (b'.' ∷ trim_prefix (codes ".") domain) host

by_regexp : Option (Text → Bool) → Text → Bool
by_regexp none host = false
by_regexp (some matches) host = matches host

-- The loop body of geoSiteMatches
unfoldable pub domain_matches : Env → ℕ → Text → Text → Bool
unfolding by_regexp
domain_matches env kind value host =
    not (is_empty value)
    && (if kind == 0
        then contains value host
        else if kind == 1
        then by_regexp (env.regexp value) host
        else if kind == 3
        then same host value
        else is_below value host)

clean_host : Text → Text
clean_host host = trim_suffix (codes ".") (to_lower (trim_space host))

any_domain : Env → List Domain → Text → Bool
unfolding clean_host
any_domain env [] host = false
any_domain env (d ∷ ds) host =
    domain_matches env d.kind (clean_host d.value) host || any_domain env ds host

-- geoSiteMatches and geoSiteRuleMatches
unfoldable pub geo_site_matches : Env → Text → Text → Bool
unfolding any_domain clean_host
geo_site_matches env category host =
    any_domain env (env.geo_site (to_lower (trim_space category))) (clean_host host)
