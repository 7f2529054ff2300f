-- ===== src/Acl/Source/Allowed.antt =====
-- CompileSource and Allows of lib/acl/acl.go together, and the two priorities.
use nps.Prelude.{
  ℕ, ◌≡◌, ◌≢◌, refl, sym, ap, ap₂, ◌∙◌, List, [], Bool, true, false, ◌&&◌, ◌||◌, not, ltb, ◌==◌,
  arith, if◌then◌else◌, Bool-cases, inl, inr,
}
use nps.Text.{Text}
use nps.Net.{Addr}
use nps.Acl.{Env}
use nps.Acl.Rules.{split_lines, has_active_rule, active_rule_count}
use nps.Acl.Source.{
  Scope, RuleError, too_many, Compiled, bounded, compile_ip_rules, Source, no_errors,
  compile_source, chosen, decide, normalize_priority, matches, allows_source, allows_addr,
}
use nps.Acl.Source.Meaning.{lines_good, lines_match, both, found, add_rules-found}
use nps.Acl.Source.Verdict.{add_rules-good, split_lines-again, no_errors-append, and_false}

-- A list of rules is over the limit, or good, and what it matches.
abbrev pub over : Env → Scope → List Text → Bool
over env scope rules =
    bounded scope
    && ltb 0 env.max_rules
    && ltb env.max_rules (active_rule_count (split_lines rules))

abbrev pub list_good : Env → Scope → List Text → Bool
list_good env scope rules = not (over env scope rules) && lines_good env (split_lines rules)

abbrev pub list_matches : Env → List Text → Addr → Bool
list_matches env rules = lines_match env (split_lines rules)

abbrev pub has_rule : List Text → Bool
has_rule rules = has_active_rule (split_lines rules)

compile-good :
    (env : Env) (scope : Scope) (rules : List Text) (es : List RuleError)
    → no_errors (compile_ip_rules env scope (split_lines rules) es).errors
      ≡ no_errors es && list_good env scope rules
unfolding compile_ip_rules
compile-good env scope rules es =
    rw (split_lines-again rules) (elim (Bool-cases (over env scope rules)) [
      | inl many ↦ rw many (
          no_errors-append es (too_many (active_rule_count (split_lines rules)))
          ∙ and_false (no_errors es))
      | inr few ↦ rw few (
          add_rules-good env (split_lines rules)
            (record { prefixes = []; negated = []; errors = es }) 1)
    ])

compile-found :
    (env : Env) (scope : Scope) (rules : List Text) (es : List RuleError) (a : Addr)
    → over env scope rules ≡ false
    → found env (compile_ip_rules env scope (split_lines rules) es) a ≡ list_matches env rules a
unfolding compile_ip_rules
compile-found env scope rules es a few =
    rw (split_lines-again rules, few)
      (add_rules-found env (split_lines rules) (record { prefixes = []; negated = []; errors = es })
        1 a)

not-true : (x : Bool) → not x ≡ true → x ≡ false
not-true true e = absurd (cc e)
not-true false e = refl

good-over :
    (env : Env) (scope : Scope) (rules : List Text)
    → list_good env scope rules ≡ true
    → over env scope rules ≡ false
good-over env scope rules e =
    not-true (over env scope rules)
      (both (not (over env scope rules)) (lines_good env (split_lines rules)) e).0

-- Both lists one after the other, as CompileSource compiles them.
abbrev compiled : Env → Scope → List Text → List Text → Compiled
compiled env scope black white =
    compile_ip_rules env scope (split_lines white)
      (compile_ip_rules env scope (split_lines black) []).errors

compiled-good :
    (env : Env) (scope : Scope) (black white : List Text)
    → no_errors (compiled env scope black white).errors
      ≡ list_good env scope black && list_good env scope white
compiled-good env scope black white =
    compile-good env scope white (compile_ip_rules env scope (split_lines black) []).errors
    ∙ ap (λ x. x && list_good env scope white) (compile-good env scope black [])

-- Some rule, so that there is a policy.
has-idle : (x y : Bool) → x || y ≡ true → not x && not y ≡ false
has-idle true y e = refl
has-idle false true e = refl
has-idle false false e = absurd (cc e)

-- The verdict of two lists of which there is one at least. The white list comes first in mode 1: what
-- it matches passes, and otherwise what a black list does not match. In every other mode what the
-- black list matches is denied, and a white list must match.
abbrev pub verdict_of : ℕ → Bool → Bool → Bool → Bool → Bool
verdict_of priority has_black has_white black white =
    if priority == 1
    then has_white && white || has_black && not black
    else not (has_black && black) && (not has_white || white)

-- The answer by the rules as they are written: no rule allows, a bad list denies, and otherwise the
-- priority decides on what the lists match.
abbrev pub allowed : Env → Scope → ℕ → List Text → List Text → Addr → Bool
allowed env scope priority black white a =
    if not (has_rule black) && not (has_rule white)
    then true
    else if list_good env scope black && list_good env scope white
    then verdict_of priority (has_rule black) (has_rule white) (list_matches env black a)
        (list_matches env white a)
    else false

-- The same with the switch of the code.
abbrev decided : Env → Scope → ℕ → List Text → List Text → Addr → Bool
decided env scope priority black white a =
    if not (has_rule black) && not (has_rule white)
    then true
    else if list_good env scope black && list_good env scope white
    then decide (normalize_priority priority) (has_rule black) (has_rule white)
        (list_matches env black a) (list_matches env white a)
    else false

decided-allowed :
    (priority : ℕ) (has_black has_white good black white : Bool)
    → (if not has_black && not has_white
        then true
        else if good
        then decide (normalize_priority priority) has_black has_white black white
        else false)
      ≡ (if not has_black && not has_white
          then true
          else if good
          then verdict_of priority has_black has_white black white
          else false)
unfolding decide normalize_priority
decided-allowed priority has_black has_white good black white = ground arith

allows-if :
    (env : Env) (idle : Bool) (s : Source) (es : List RuleError) (a : Addr)
    → allows_addr env (chosen idle s es).0 a ≡ (if idle then true else allows_source env s a)
unfolding allows_addr
allows-if env true s es a = refl
allows-if env false s es a = refl

unless : (x y : Bool) → (if not x then false else y) ≡ (if x then y else false)
unless true y = refl
unless false y = refl

answer-of :
    (env : Env) (s : Source) (fine : Bool) (a : Addr)
    → s.invalid ≡ not fine
    → allows_source env s a ≡ (
        if fine
        then decide s.priority s.has_black s.has_white (matches env s a).0 (matches env s a).1
        else false)
unfolding allows_source
answer-of env s fine a e =
    ap
      (λ x.
        if x
        then false
        else decide s.priority s.has_black s.has_white (matches env s a).0 (matches env s a).1)
      e
    ∙ unless fine _

abbrev idle : List Text → List Text → Bool
idle black white = not (has_rule black) && not (has_rule white)

guarded :
    (idle good x y : Bool)
    → (good ≡ true → x ≡ y)
    → (if idle then true else if good then x else false)
      ≡ (if idle then true else if good then y else false)
guarded true good x y e = refl
guarded false true x y e = e refl
guarded false false x y e = refl

allows_addr-decided :
    (env : Env) (scope : Scope) (priority : ℕ) (black white : List Text) (a : Addr)
    → allows_addr env (compile_source env scope priority black white).0 a
      ≡ decided env scope priority black white a
unfolding compile_source matches
allows_addr-decided env scope priority black white a =
    allows-if env (idle black white) policy w.errors a
    ∙ ap (λ x. if idle black white then true else x) (answer ∙ by_goods)
    ∙ guarded (idle black white) (list_good env scope black && list_good env scope white) _ _
        (λ good.
          let (black_good, white_good) =
            both (list_good env scope black) (list_good env scope white) good in
          ap₂ (decide (normalize_priority priority) (has_rule black) (has_rule white))
            (compile-found env scope black [] a (good-over env scope black black_good))
            (compile-found env scope white b.errors a (good-over env scope white white_good)))
  where
    b : Compiled
    b = compile_ip_rules env scope (split_lines black) []

    w : Compiled
    w = compiled env scope black white

    policy : Source
    policy = record {
      priority = normalize_priority priority;
      black = b.prefixes;
      white = w.prefixes;
      black_neg_geo = b.negated;
      white_neg_geo = w.negated;
      has_black = has_rule black;
      has_white = has_rule white;
      invalid = not (no_errors w.errors);
    }

    verdict : Bool
    verdict =
        decide (normalize_priority priority) (has_rule black) (has_rule white) (found env b a)
          (found env w a)

    answer : allows_source env policy a ≡ (if no_errors w.errors then verdict else false)
    answer = answer-of env policy (no_errors w.errors) a refl

    by_goods :
        (if no_errors w.errors then verdict else false)
        ≡ (if list_good env scope black && list_good env scope white then verdict else false)
    by_goods = ap (λ x. if x then verdict else false) (compiled-good env scope black white)

-- A compiled pair of lists answers every address as the written rules do: with no rule it allows;
-- with a list that is over the limit or has a bad rule it denies; otherwise, with the white list
-- first, what a line of it matches passes, and what no line of a black list matches, and with the
-- black list first what a line of it matches is denied, and a line of a white list must match.
pub allows_addr-allowed :
    (env : Env) (scope : Scope) (priority : ℕ) (black white : List Text) (a : Addr)
    → allows_addr env (compile_source env scope priority black white).0 a
      ≡ allowed env scope priority black white a
allows_addr-allowed env scope priority black white a =
    allows_addr-decided env scope priority black white a
    ∙ decided-allowed priority (has_rule black) (has_rule white)
        (list_good env scope black && list_good env scope white) (list_matches env black a)
        (list_matches env white a)

-- If there is some rule and one of the two lists is over the limit or has a bad rule,
-- CompileSource returns an error, and its policy denies every address.
pub compile_source-closed :
    (env : Env) (scope : Scope) (priority : ℕ) (black white : List Text) (a : Addr)
    → has_rule black || has_rule white ≡ true
    → list_good env scope black && list_good env scope white ≡ false
    → ((compile_source env scope priority black white).1 ≢ [])
      × (allows_addr env (compile_source env scope priority black white).0 a ≡ false)
unfolding compile_source
compile_source-closed env scope priority black white a some_rule bad = (
  errors-some,
  allows_addr-allowed env scope priority black white a
      ∙ rw (bad, has-idle (has_rule black) (has_rule white) some_rule) refl,
)
  where
    false-true : ¬ (false ≡ true)
    false-true e = cc e

    same_errors :
        (compiled env scope black white).errors ≡ (compile_source env scope priority black white).1
    same_errors = rw (has-idle (has_rule black) (has_rule white) some_rule) refl

    errors-some : (compile_source env scope priority black white).1 ≢ []
    errors-some e =
        false-true
          (sym bad ∙ sym (compiled-good env scope black white) ∙ ap no_errors (same_errors ∙ e))
