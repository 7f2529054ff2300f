-- ===== src/Acl/Source.antt =====
-- Source of lib/acl/acl.go: the policy for the addresses of visitors. The sorting of the compiled
-- rules is left out, since only whether one of them matches is asked.
pub mod Meaning
pub mod Verdict
pub mod Allowed
use nps.Prelude.{
  ℕ, ◌+◌, ◌-◌, Option, none, some, List, [], ◌∷◌, ◌++◌, Bool, true, false, ◌&&◌, ◌||◌, not, ltb,
  leb, ◌==◌, length, drop, if◌then◌else◌,
}
use nps.Text.{Text, codes, same, is_empty, to_lower, trim_space, starts, trim_prefix}
use nps.Net.{Addr, Prefix, holds, same_prefix}
use nps.Acl.{Env}
use nps.Acl.Rules.{
  split_lines, is_active, has_active_rule, active_rule_count, geo_category_exists, geo_prefixes,
  any_holds, geo_ip_rule_matches,
}
use nps.Acl.Wildcard.{parse_ip_prefix}

pub data Scope : Type 0 where
  global user : Scope

-- NormalizePriority: AllowFirst, or DenyFirst for any other number
pub data Priority : Type 0 where
  deny_first allow_first : Priority

unfoldable pub normalize_priority : ℕ → Priority
normalize_priority n = if n == 1 then allow_first else deny_first

-- The errors of compileIPRules, with the line's number
pub data RuleError : Type 0 where
  too_many : ℕ → RuleError
  needs_geo not_for_sources not_an_address : ℕ → RuleError

-- What compileIPRules has collected; `seen` is told by the other two.
pub record Compiled : Type 0 where
  pub prefixes : List Prefix
  pub negated : List Text
  pub errors : List RuleError

abbrev pub nothing_yet : Compiled
nothing_yet = record { prefixes = []; negated = []; errors = [] }

abbrev pub any_same : List Prefix → Prefix → Bool
any_same [] p = false
any_same (q ∷ qs) p = same_prefix q p || any_same qs p

abbrev pub any_text : List Text → Text → Bool
any_text [] t = false
any_text (u ∷ us) t = same u t || any_text us t

unfoldable pub add_prefix : Compiled → Prefix → Compiled
add_prefix c p = if any_same c.prefixes p then c else record c { prefixes = c.prefixes ++ (p ∷ []) }

unfoldable pub add_prefixes : Compiled → List Prefix → Compiled
unfolding add_prefix
add_prefixes c [] = c
add_prefixes c (p ∷ ps) = add_prefixes (add_prefix c p) ps

unfoldable pub add_negated : Compiled → Text → Compiled
add_negated c t = if any_text c.negated t then c else record c { negated = c.negated ++ (t ∷ []) }

unfoldable pub fail : Compiled → RuleError → Compiled
fail c e = record c { errors = c.errors ++ (e ∷ []) }

-- The kinds of a rule that is active, by its first bytes
pub data RuleKind : Type 0 where
  negated_geo geo : Text → RuleKind
  geosite address : RuleKind

unfoldable pub rule_kind : Text → RuleKind
rule_kind rule =
    let category = trim_space (drop 6 rule) in
    if starts (codes "geoip:") (to_lower rule)
    then (if starts (codes "!") category
        then negated_geo (trim_space (trim_prefix (codes "!") category))
        else geo category)
    else if starts (codes "geosite:") (to_lower rule)
    then geosite
    else address

pub add_geo : Compiled → ℕ → List Prefix → Compiled
add_geo c line [] = fail c (needs_geo line)
add_geo c line (p ∷ ps) = add_prefixes c (p ∷ ps)

pub add_address : Compiled → ℕ → Option Prefix → Compiled
add_address c line none = fail c (not_an_address line)
add_address c line (some p) = add_prefix c p

unfoldable pub add_kind : Env → Compiled → ℕ → Text → RuleKind → Compiled
unfolding add_geo add_address fail add_prefix add_prefixes add_negated
add_kind env c line rule (negated_geo base) =
    if geo_category_exists env (codes "geoip") base
    then add_negated c (b'!' ∷ to_lower base)
    else fail c (needs_geo line)
add_kind env c line rule (geo category) = add_geo c line (geo_prefixes env category)
add_kind env c line rule geosite = fail c (not_for_sources line)
add_kind env c line rule address = add_address c line (parse_ip_prefix env rule)

-- The loop body of compileIPRules
unfoldable pub add_rule : Env → Compiled → ℕ → Text → Compiled
unfolding add_kind
add_rule env c line raw =
    if is_active (trim_space raw)
    then add_kind env c line (trim_space raw) (rule_kind (trim_space raw))
    else c

unfoldable pub add_rules : Env → Compiled → ℕ → List Text → Compiled
unfolding add_rule
add_rules env c line [] = c
add_rules env c line (raw ∷ lines) = add_rules env (add_rule env c line raw) (line + 1) lines

unfoldable pub bounded : Scope → Bool
bounded global = false
bounded user = true

-- compileIPRules, with the errors so far
unfoldable pub compile_ip_rules : Env → Scope → List Text → List RuleError → Compiled
unfolding bounded add_rules
compile_ip_rules env scope rules errors =
    let lines = split_lines rules in
    let count = active_rule_count lines in
    if bounded scope && ltb 0 env.max_rules && ltb env.max_rules count
    then record { prefixes = []; negated = []; errors = errors ++ (too_many count ∷ []) }
    else add_rules env (record { prefixes = []; negated = []; errors = errors }) 1 lines

pub record Source : Type 0 where
  pub priority : Priority
  pub black : List Prefix
  pub white : List Prefix
  pub black_neg_geo : List Text
  pub white_neg_geo : List Text
  pub has_black : Bool
  pub has_white : Bool
  pub invalid : Bool

abbrev pub no_errors : List RuleError → Bool
no_errors [] = true
no_errors (e ∷ es) = false

-- No policy, or the one that was compiled
abbrev pub chosen : Bool → Source → List RuleError → Option Source × List RuleError
chosen idle s es = if idle then (none, []) else (some s, es)

-- CompileSource: no policy when neither list has a rule
unfoldable pub compile_source :
    Env → Scope → ℕ → List Text → List Text → Option Source × List RuleError
unfolding compile_ip_rules
compile_source env scope priority black white =
    let black_lines = split_lines black in
    let white_lines = split_lines white in
    let b = compile_ip_rules env scope black_lines [] in
    let w = compile_ip_rules env scope white_lines b.errors in
    chosen (not (has_active_rule black_lines) && not (has_active_rule white_lines))
      (record {
        priority = normalize_priority priority;
        black = b.prefixes;
        white = w.prefixes;
        black_neg_geo = b.negated;
        white_neg_geo = w.negated;
        has_black = has_active_rule black_lines;
        has_white = has_active_rule white_lines;
        invalid = not (no_errors w.errors);
      })
      w.errors

abbrev pub any_geo : Env → List Text → Addr → Bool
any_geo env [] a = false
any_geo env (t ∷ ts) a = geo_ip_rule_matches env t a || any_geo env ts a

-- matches
unfoldable pub matches : Env → Source → Addr → Bool × Bool
matches env s a = (
  any_holds s.black a || any_geo env s.black_neg_geo a,
  any_holds s.white a || any_geo env s.white_neg_geo a,
)

-- The switch at the end of allowsAddr
unfoldable pub decide : Priority → Bool → Bool → Bool → Bool → Bool
decide priority has_black has_white black white =
    if not has_black && not has_white
    then true
    else if not has_black
    then white
    else if not has_white
    then not black
    else elim priority [ allow_first ↦ white || not black | deny_first ↦ not black && white ]

-- allowsAddr of a policy that is not nil
unfoldable pub allows_source : Env → Source → Addr → Bool
unfolding decide matches
allows_source env s a =
    let (black, white) = matches env s a in
    if s.invalid then false else decide s.priority s.has_black s.has_white black white

-- allowsAddr; nil allows
unfoldable pub allows_addr : Env → Option Source → Addr → Bool
unfolding allows_source
allows_addr env none a = true
allows_addr env (some s) a = allows_source env s a
