-- ===== src/Tests/Lists.antt =====
-- Access lists with a few rules, and no geographic data but one category.
use nps.Prelude.{
  arith, ℕ, ◌+◌, ◌*◌, ◌^◌, ◌≡◌, ◌≢◌, refl, Option, none, some, List, [], ◌∷◌, ◌&&◌, ◌||◌, not, true,
  false, if◌then◌else◌,
}
use nps.Text.{Text, codes, same}
use nps.Net.{holds, Addr, v4, v6, Prefix}
use nps.Acl.{Env}
use nps.Acl.Rules.{is_decimal_octet, has_active_rule, split_lines, active_rule_count}
use nps.Text.Find.{fields, cut, cut_last, split}
use nps.Acl.Wildcard.Octets.{same_octets, parse_ipv4_wildcard-holds}
use nps.Acl.Wildcard.{prefix, fixed_octets, parse_ip_prefix, parse_ipv4_wildcard}
use nps.Net.Parse.{octet, split_host_port, parse_prefix, parse_addr, parse_v4}
use nps.Acl.Source.{bounded, rule_kind, user, Source, compile_source, allows_addr}
use nps.Acl.Source.Allowed.{
  has_rule, list_good, allowed, allows_addr-allowed, compile_source-closed,
}
use nps.Acl.Level.{allows, decide_levels}
use nps.Acl.Level.First.{Says, decide_levels-allows}
use nps.Acl.Dest.{kind_of, AddrText, compile_dest, rule_matches, some_error}
use nps.Acl.Dest
use nps.Acl.Dest.Modes.{allowed_dest, is_listed, readable, compile_dest-allowed, own_text-unmatched}

abbrev v6_text : Text
v6_text = codes "2001:db8::1"

abbrev v6_value : ℕ
v6_value = 8193 * 2 ^ 112 + 3512 * 2 ^ 96 + 1

abbrev read_v6 : Text → Option ℕ
read_v6 s = if same s v6_text then some v6_value else none

abbrev some_env : Env
some_env = record {
  max_rules = 100;
  geo_ip = λ category. [];
  geo_site = λ category. [];
  parse_v6 = read_v6;
  regexp = λ pattern. none;
}

abbrev black : List Text
black = codes "10.1.*" ∷ codes "192.168.0.0/16 # office" ∷ []

abbrev white : List Text
white = codes "10.1.2.3" ∷ []

abbrev bad : List Text
bad = codes "10.1.2.3.4/8" ∷ []

abbrev visitor_value : ℕ
visitor_value = 10 * 2 ^ 24 + 2 ^ 16 + 2 * 2 ^ 8 + 3

abbrev visitor : Addr
visitor = v4 visitor_value

allows_addr-allowed_example :
    allows_addr some_env (compile_source some_env user 0 black white).0 visitor
    ≡ allowed some_env user 0 black white visitor
allows_addr-allowed_example = allows_addr-allowed some_env user 0 black white visitor

bad-rule : has_rule bad || has_rule [] ≡ true
unfolding has_active_rule split_lines fields
bad-rule = refl

bad-list : list_good some_env user bad && list_good some_env user [] ≡ false
unfolding active_rule_count split_lines fields bounded rule_kind parse_ip_prefix parse_ipv4_wildcard
    split_host_port parse_prefix parse_addr parse_v4 cut_last split
bad-list = refl

compile_source-closed_example :
    ((compile_source some_env user 0 bad []).1 ≢ [])
    × (allows_addr some_env (compile_source some_env user 0 bad []).0 visitor ≡ false)
compile_source-closed_example =
    compile_source-closed some_env user 0 bad [] visitor bad-rule bad-list

abbrev level : Option Source
level = (compile_source some_env user 0 black white).0

decide_levels-allows_example :
    let d = decide_levels some_env (codes "10.1.2.3:80") [] none level none in
    (d.allowed ≡ allows some_env (codes "10.1.2.3:80") none level none)
    × Says some_env (codes "10.1.2.3:80") none level none d.allowed d.level
decide_levels-allows_example =
    decide_levels-allows some_env (codes "10.1.2.3:80") [] none level none

abbrev addr_text : AddrText
addr_text a = v6_text

abbrev dest_rules : Text
dest_rules = codes "example.com, 2001:db8::1"

-- The same with a category that the other has not.
abbrev rich_env : Env
rich_env = record some_env { geo_ip = λ category. record { addr = v6 v6_value; bits = 128 } ∷ [] }

abbrev geo_rules : Text
geo_rules = codes "example.com, geoip:cn"

compile_dest-allowed_example :
    (Dest.allows some_env addr_text (compile_dest rich_env 2 geo_rules).0 v6_text
      ≡ allowed_dest rich_env some_env addr_text 2 geo_rules v6_text)
    × (some_error (compile_dest rich_env 2 geo_rules).1
        ≡ is_listed 2 && not (readable rich_env geo_rules))
compile_dest-allowed_example = compile_dest-allowed rich_env some_env addr_text 2 geo_rules v6_text

abbrev v6_prefix : Prefix
v6_prefix = record { addr = v6 v6_value; bits = 128 }

read-v6 : parse_ip_prefix some_env v6_text ≡ some v6_prefix
unfolding parse_ip_prefix parse_ipv4_wildcard split_host_port parse_addr cut_last
read-v6 = refl

kind-v6 : kind_of v6_text ≡ some (codes "2001", codes "db8::1")
unfolding cut
kind-v6 = refl

own_text-unmatched_example : rule_matches some_env addr_text v6_text v6_text ≡ false
own_text-unmatched_example =
    own_text-unmatched some_env addr_text v6_text v6_prefix (codes "2001") (codes "db8::1") read-v6
      kind-v6 refl refl refl

abbrev pattern_text : Text
pattern_text = codes "10.1.*"

abbrev pattern_prefix : Prefix
pattern_prefix = record { addr = v4 (10 * 2 ^ 24 + 2 ^ 16); bits = 16 }

pattern-read : parse_ipv4_wildcard pattern_text ≡ prefix pattern_prefix
unfolding parse_ipv4_wildcard fixed_octets split parse_v4 is_decimal_octet octet
pattern-read = refl

pattern-octets : fixed_octets (split b'.' pattern_text) ≡ some (codes "10" ∷ codes "1" ∷ [])
unfolding fixed_octets split is_decimal_octet
pattern-octets = refl

parse_ipv4_wildcard-holds_example :
    holds pattern_prefix visitor ≡ same_octets (codes "10" ∷ codes "1" ∷ []) 24 visitor_value
parse_ipv4_wildcard-holds_example =
    parse_ipv4_wildcard-holds pattern_text pattern_prefix (codes "10" ∷ codes "1" ∷ [])
      visitor_value pattern-read pattern-octets (omega arith)
