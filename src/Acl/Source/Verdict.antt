-- ===== src/Acl/Source/Verdict.antt =====
-- What a policy of lib/acl/acl.go answers, against the rules as they are written.
use nps.Prelude.{
  ℕ, ◌+◌, ◌≡◌, refl, ap, ap₂, ◌∙◌, Option, none, some, List, [], ◌∷◌, ◌++◌, Bool, true, false, ◌&&◌,
  Bool-cases, inl, inr, All,
}
use nps.Text.{Text, codes, trim_space, to_lower}
use nps.Text.Find.{fields}
use nps.Text.Fields.{IsField, fields_from-IsField, fields-one}
use nps.Net.{Prefix}
use nps.Acl.{Env}
use nps.Acl.Rules.{is_break, split_lines, is_active, geo_category_exists, geo_prefixes}
use nps.Acl.Wildcard.{parse_ip_prefix}
use nps.Acl.Source.{
  RuleError, Compiled, add_prefix, add_prefixes, add_negated, fail, any_same, any_text, RuleKind,
  negated_geo, geo, geosite, address, rule_kind, add_geo, add_address, add_kind, add_rule,
  add_rules, no_errors,
}
use nps.Acl.Source.Meaning.{is_some, has_prefixes, kind_good, line_good, lines_good}

pub no_errors-append : (es : List RuleError) (e : RuleError) → no_errors (es ++ (e ∷ [])) ≡ false
no_errors-append [] e = refl
no_errors-append (d ∷ es) e = refl

pub and_false : (a : Bool) → false ≡ a && false
and_false true = refl
and_false false = refl

and_true : (a : Bool) → a ≡ a && true
and_true true = refl
and_true false = refl

and_assoc : (a b c : Bool) → (a && b) && c ≡ a && (b && c)
and_assoc true b c = refl
and_assoc false b c = refl

errors-add_prefix : (c : Compiled) (p : Prefix) → (add_prefix c p).errors ≡ c.errors
unfolding add_prefix
errors-add_prefix c p = elim (Bool-cases (any_same c.prefixes p)) [
  | inl old ↦ rw old refl
  | inr fresh ↦ rw fresh refl
]

errors-add_prefixes : (ps : List Prefix) (c : Compiled) → (add_prefixes c ps).errors ≡ c.errors
unfolding add_prefixes
errors-add_prefixes [] c = refl
errors-add_prefixes (p ∷ ps) c = errors-add_prefixes ps (add_prefix c p) ∙ errors-add_prefix c p

errors-add_negated : (c : Compiled) (t : Text) → (add_negated c t).errors ≡ c.errors
unfolding add_negated
errors-add_negated c t = elim (Bool-cases (any_text c.negated t)) [
  | inl old ↦ rw old refl
  | inr fresh ↦ rw fresh refl
]

-- A list stays without errors while its rules are good.
kept : (c d : Compiled) → d.errors ≡ c.errors → no_errors d.errors ≡ no_errors c.errors && true
kept c d e = ap no_errors e ∙ and_true (no_errors c.errors)

failed : (c : Compiled) (e : RuleError) → no_errors (fail c e).errors ≡ no_errors c.errors && false
unfolding fail
failed c e = no_errors-append c.errors e ∙ and_false (no_errors c.errors)

add_kind-good :
    (env : Env) (c : Compiled) (line : ℕ) (rule : Text) (k : RuleKind)
    → no_errors (add_kind env c line rule k).errors ≡ no_errors c.errors && kind_good env rule k
unfolding add_kind add_geo add_address
add_kind-good env c line rule (negated_geo base) =
    elim (Bool-cases (geo_category_exists env (codes "geoip") base)) [
      | inl there ↦ rw there (
          kept c (add_negated c (b'!' ∷ to_lower base))
            (errors-add_negated c (b'!' ∷ to_lower base)))
      | inr missing ↦ rw missing (failed c (RuleError.needs_geo line))
    ]
add_kind-good env c line rule (geo category) = by_data (geo_prefixes env category)
  where
    by_data :
        (ps : List Prefix)
        → no_errors (add_geo c line ps).errors ≡ no_errors c.errors && has_prefixes ps
    by_data [] = failed c (RuleError.needs_geo line)
    by_data (p ∷ ps) = kept c (add_prefixes c (p ∷ ps)) (errors-add_prefixes (p ∷ ps) c)
add_kind-good env c line rule geosite = failed c (RuleError.not_for_sources line)
add_kind-good env c line rule address = by_text (parse_ip_prefix env rule)
  where
    by_text :
        (o : Option Prefix)
        → no_errors (add_address c line o).errors ≡ no_errors c.errors && is_some o
    by_text none = failed c (RuleError.not_an_address line)
    by_text (some p) = kept c (add_prefix c p) (errors-add_prefix c p)

pub add_rules-good :
    (env : Env) (lines : List Text) (c : Compiled) (line : ℕ)
    → no_errors (add_rules env c line lines).errors ≡ no_errors c.errors && lines_good env lines
unfolding add_rules add_rule
add_rules-good env [] c line = and_true (no_errors c.errors)
add_rules-good env (raw ∷ lines) c line =
    add_rules-good env lines (add_rule env c line raw) (line + 1)
    ∙ ap (λ x. x && lines_good env lines) one_line
    ∙ and_assoc (no_errors c.errors) (line_good env raw) (lines_good env lines)
  where
    one_line : no_errors (add_rule env c line raw).errors ≡ no_errors c.errors && line_good env raw
    one_line = elim (Bool-cases (is_active (trim_space raw))) [
      | inl active ↦
          rw active (add_kind-good env c line (trim_space raw) (rule_kind (trim_space raw)))
      | inr idle ↦ rw idle (and_true (no_errors c.errors))
    ]

-- Lines that were cut are not cut again.
pub split_lines-again : (rules : List Text) → split_lines (split_lines rules) ≡ split_lines rules
unfolding split_lines fields
split_lines-again [] = refl
split_lines-again (raw ∷ rules) =
    cut_again (fields is_break raw) (split_lines rules) (fields_from-IsField is_break raw [] refl)
      (split_lines-again rules)
  where
    cut_again :
        (ts us : List Text)
        → All (IsField is_break) ts
        → split_lines us ≡ us
        → split_lines (ts ++ us) ≡ ts ++ us
    cut_again [] us f e = e
    cut_again (t ∷ ts) us f e = ap₂ ◌++◌ (fields-one is_break t f.0) (cut_again ts us f.1 e)
