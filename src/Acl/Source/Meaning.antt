-- ===== src/Acl/Source/Meaning.antt =====
-- What the compiled rules of lib/acl/acl.go match, against the rules as they are written.
use nps.Prelude.{
  ℕ, ◌+◌, ◌≡◌, refl, sym, ap, ap₂, ◌∙◌, Option, none, some, List, [], ◌∷◌, ◌++◌, Bool, true, false,
  ◌&&◌, ◌||◌, not, ◌==◌, ==_iff, arith, Bool-cases, inl, inr,
}
use nps.Text.{Text, codes, same, to_lower, trim_space}
use nps.Text.Table.{same-eq}
use nps.Net.{Addr, v4, v6, Prefix, holds, covers, same_addr, same_prefix}
use nps.Acl.{Env}
use nps.Acl.Rules.{is_active, geo_category_exists, geo_prefixes, any_holds, geo_ip_rule_matches}
use nps.Acl.Wildcard.{parse_ip_prefix}
use nps.Acl.Source.{
  Compiled, any_same, any_text, add_prefix, add_prefixes, add_negated, fail, RuleKind, negated_geo,
  geo, geosite, address, rule_kind, add_geo, add_address, add_kind, add_rule, add_rules, any_geo,
}

-- An address rule covers an address.
abbrev pub read_holds : Option Prefix → Addr → Bool
read_holds none a = false
read_holds (some p) a = holds p a

-- What a rule matches, by its kind.
abbrev pub kind_matches : Env → Text → RuleKind → Addr → Bool
kind_matches env rule (negated_geo base) a =
    geo_category_exists env (codes "geoip") base && geo_ip_rule_matches env (b'!' ∷ to_lower base) a
kind_matches env rule (geo category) a = any_holds (geo_prefixes env category) a
kind_matches env rule geosite a = false
kind_matches env rule address a = read_holds (parse_ip_prefix env rule) a

abbrev pub is_some : Option Prefix → Bool
is_some none = false
is_some (some p) = true

abbrev pub has_prefixes : List Prefix → Bool
has_prefixes [] = false
has_prefixes (p ∷ ps) = true

-- Whether a rule is good.
abbrev pub kind_good : Env → Text → RuleKind → Bool
kind_good env rule (negated_geo base) = geo_category_exists env (codes "geoip") base
kind_good env rule (geo category) = has_prefixes (geo_prefixes env category)
kind_good env rule geosite = false
kind_good env rule address = is_some (parse_ip_prefix env rule)

-- Lines that are no rules match nothing, and are good.
abbrev pub line_matches : Env → Text → Addr → Bool
line_matches env raw a =
    is_active (trim_space raw) && kind_matches env (trim_space raw) (rule_kind (trim_space raw)) a

abbrev pub line_good : Env → Text → Bool
line_good env raw =
    not (is_active (trim_space raw)) || kind_good env (trim_space raw) (rule_kind (trim_space raw))

abbrev pub lines_match : Env → List Text → Addr → Bool
lines_match env [] a = false
lines_match env (raw ∷ lines) a = line_matches env raw a || lines_match env lines a

abbrev pub lines_good : Env → List Text → Bool
lines_good env [] = true
lines_good env (raw ∷ lines) = line_good env raw && lines_good env lines

-- What the collected rules match.
abbrev pub found : Env → Compiled → Addr → Bool
found env c a = any_holds c.prefixes a || any_geo env c.negated a

or_assoc : (a b c : Bool) → (a || b) || c ≡ a || (b || c)
or_assoc true b c = refl
or_assoc false b c = refl

or_false : (a : Bool) → a || false ≡ a
or_false true = refl
or_false false = refl

again : (x y : Bool) → (x || y) || x ≡ x || y
again true y = refl
again false true = refl
again false false = refl

or_swap : (a b c : Bool) → (a || b) || c ≡ (a || c) || b
or_swap true b c = refl
or_swap false true true = refl
or_swap false true false = refl
or_swap false false true = refl
or_swap false false false = refl

any_holds-append :
    (ps qs : List Prefix) (a : Addr) → any_holds (ps ++ qs) a ≡ any_holds ps a || any_holds qs a
any_holds-append [] qs a = refl
any_holds-append (p ∷ ps) qs a =
    ap (◌||◌ (holds p a)) (any_holds-append ps qs a)
    ∙ sym (or_assoc (holds p a) (any_holds ps a) (any_holds qs a))

any_geo-append :
    (env : Env) (ts us : List Text) (a : Addr)
    → any_geo env (ts ++ us) a ≡ any_geo env ts a || any_geo env us a
any_geo-append env [] us a = refl
any_geo-append env (t ∷ ts) us a =
    ap (◌||◌ (geo_ip_rule_matches env t a)) (any_geo-append env ts us a)
    ∙ sym (or_assoc (geo_ip_rule_matches env t a) (any_geo env ts a) (any_geo env us a))

covers-same :
    (x y : Addr) (m n : ℕ) (a : Addr)
    → same_addr x y ≡ true
    → (m == n) ≡ true
    → covers x m a ≡ covers y n a
covers-same (v4 x) (v4 y) m n a e b =
    ap₂ (λ i j. covers (v4 i) j a) ((==_iff x y).0 e) ((==_iff m n).0 b)
covers-same (v6 x) (v6 y) m n a e b =
    ap₂ (λ i j. covers (v6 i) j a) ((==_iff x y).0 e) ((==_iff m n).0 b)
covers-same (v4 x) (v6 y) m n a e b = absurd (cc e)
covers-same (v6 x) (v4 y) m n a e b = absurd (cc e)

pub both : (a b : Bool) → a && b ≡ true → (a ≡ true) × (b ≡ true)
both true b e = (refl, e)
both false b e = absurd (cc e)

-- Equal prefixes hold the same addresses, and equal texts are one text.
same_prefix-holds : (p q : Prefix) (a : Addr) → same_prefix p q ≡ true → holds p a ≡ holds q a
same_prefix-holds p q a e =
    let (x, m) = both (same_addr p.addr q.addr) (p.bits == q.bits) e in
    covers-same p.addr q.addr p.bits q.bits a x m

any_same-holds :
    (ps : List Prefix) (p : Prefix) (a : Addr)
    → any_same ps p ≡ true
    → any_holds ps a || holds p a ≡ any_holds ps a
any_same-holds [] p a e = absurd (cc e)
any_same-holds (q ∷ qs) p a e = elim (Bool-cases (same_prefix q p)) [
  | inl here ↦ rw (← same_prefix-holds q p a here) (again (holds q a) (any_holds qs a))
  | inr other ↦
      or_assoc (holds q a) (any_holds qs a) (holds p a)
      ∙ ap (◌||◌ (holds q a)) (any_same-holds qs p a (ground (arith, e, other)))
]

any_text-matches :
    (env : Env) (ts : List Text) (t : Text) (a : Addr)
    → any_text ts t ≡ true
    → any_geo env ts a || geo_ip_rule_matches env t a ≡ any_geo env ts a
any_text-matches env [] t a e = absurd (cc e)
any_text-matches env (u ∷ us) t a e = elim (Bool-cases (same u t)) [
  | inl here ↦
      ap (λ v. any_geo env (u ∷ us) a || geo_ip_rule_matches env v a) (sym (same-eq u t here))
      ∙ again (geo_ip_rule_matches env u a) (any_geo env us a)
  | inr other ↦
      or_assoc (geo_ip_rule_matches env u a) (any_geo env us a) (geo_ip_rule_matches env t a)
      ∙ ap (◌||◌ (geo_ip_rule_matches env u a))
          (any_text-matches env us t a (ground (arith, e, other)))
]

-- What each addition adds to the rules found.
add_prefix-found :
    (env : Env) (c : Compiled) (p : Prefix) (a : Addr)
    → found env (add_prefix c p) a ≡ found env c a || holds p a
unfolding add_prefix
add_prefix-found env c p a = elim (Bool-cases (any_same c.prefixes p)) [
  | inl old ↦ rw old (
      ap (λ x. x || any_geo env c.negated a) (sym (any_same-holds c.prefixes p a old))
      ∙ or_swap (any_holds c.prefixes a) (holds p a) (any_geo env c.negated a))
  | inr fresh ↦ rw fresh (
      ap (λ x. x || any_geo env c.negated a)
        (any_holds-append c.prefixes (p ∷ []) a
          ∙ ap (◌||◌ (any_holds c.prefixes a)) (or_false (holds p a)))
      ∙ or_swap (any_holds c.prefixes a) (holds p a) (any_geo env c.negated a))
]

add_prefixes-found :
    (env : Env) (ps : List Prefix) (c : Compiled) (a : Addr)
    → found env (add_prefixes c ps) a ≡ found env c a || any_holds ps a
unfolding add_prefixes
add_prefixes-found env [] c a = sym (or_false (found env c a))
add_prefixes-found env (p ∷ ps) c a =
    add_prefixes-found env ps (add_prefix c p) a
    ∙ ap (λ x. x || any_holds ps a) (add_prefix-found env c p a)
    ∙ or_assoc (found env c a) (holds p a) (any_holds ps a)

add_negated-found :
    (env : Env) (c : Compiled) (t : Text) (a : Addr)
    → found env (add_negated c t) a ≡ found env c a || geo_ip_rule_matches env t a
unfolding add_negated
add_negated-found env c t a = elim (Bool-cases (any_text c.negated t)) [
  | inl old ↦ rw old (
      ap (◌||◌ (any_holds c.prefixes a)) (sym (any_text-matches env c.negated t a old))
      ∙ sym (
          or_assoc (any_holds c.prefixes a) (any_geo env c.negated a)
            (geo_ip_rule_matches env t a)))
  | inr fresh ↦ rw fresh (
      ap (◌||◌ (any_holds c.prefixes a)) (
        any_geo-append env c.negated (t ∷ []) a
        ∙ ap (◌||◌ (any_geo env c.negated a)) (or_false (geo_ip_rule_matches env t a)))
      ∙ sym (
          or_assoc (any_holds c.prefixes a) (any_geo env c.negated a)
            (geo_ip_rule_matches env t a)))
]

add_kind-found :
    (env : Env) (c : Compiled) (line : ℕ) (rule : Text) (k : RuleKind) (a : Addr)
    → found env (add_kind env c line rule k) a ≡ found env c a || kind_matches env rule k a
unfolding add_kind add_geo add_address fail
add_kind-found env c line rule (negated_geo base) a =
    elim (Bool-cases (geo_category_exists env (codes "geoip") base)) [
      | inl there ↦ rw there (add_negated-found env c (b'!' ∷ to_lower base) a)
      | inr missing ↦ rw missing (sym (or_false (found env c a)))
    ]
add_kind-found env c line rule (geo category) a = by_data (geo_prefixes env category)
  where
    by_data : (ps : List Prefix) → found env (add_geo c line ps) a ≡ found env c a || any_holds ps a
    by_data [] = sym (or_false (found env c a))
    by_data (p ∷ ps) = add_prefixes-found env (p ∷ ps) c a
add_kind-found env c line rule geosite a = sym (or_false (found env c a))
add_kind-found env c line rule address a = by_text (parse_ip_prefix env rule)
  where
    by_text :
        (o : Option Prefix) → found env (add_address c line o) a ≡ found env c a || read_holds o a
    by_text none = sym (or_false (found env c a))
    by_text (some p) = add_prefix-found env c p a

-- The collected rules match what the lines match.
pub add_rules-found :
    (env : Env) (lines : List Text) (c : Compiled) (line : ℕ) (a : Addr)
    → found env (add_rules env c line lines) a ≡ found env c a || lines_match env lines a
unfolding add_rules add_rule
add_rules-found env [] c line a = sym (or_false (found env c a))
add_rules-found env (raw ∷ lines) c line a =
    add_rules-found env lines (add_rule env c line raw) (line + 1) a
    ∙ ap (λ x. x || lines_match env lines a) one_line
    ∙ or_assoc (found env c a) (line_matches env raw a) (lines_match env lines a)
  where
    one_line : found env (add_rule env c line raw) a ≡ found env c a || line_matches env raw a
    one_line = elim (Bool-cases (is_active (trim_space raw))) [
      | inl active ↦
          rw active (add_kind-found env c line (trim_space raw) (rule_kind (trim_space raw)) a)
      | inr idle ↦ rw idle (sym (or_false (found env c a)))
    ]
