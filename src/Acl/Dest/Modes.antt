-- ===== src/Acl/Dest/Modes.antt =====
-- A destination policy of lib/acl/acl.go against its list as it is written, and rules that are
-- addresses.
use nps.Prelude.{
  ℕ, ◌<◌, Option-cases, ◌+◌, ◌≡◌, refl, sym, ap, ◌∙◌, Option, none, some, List, [], ◌∷◌, Bool, true,
  false, ◌&&◌, ◌||◌, not, ltb, ◌==◌, length, arith, Bool-cases, inl, inr, if◌then◌else◌,
}
use nps.Text.{Text, codes, same, starts, to_lower, trim_space}
use nps.Text.Find.{contains, cut, prefix_with}
use nps.Net.{Prefix}
use nps.Acl.{Env}
use nps.Acl.Rules.{split_lines, active_rule_count, is_active, geo_category_exists}
use nps.Acl.Wildcard.{parse_ip_prefix}
use nps.Acl.Dest.{
  Requirement, geo_requirement, valid_destination_rule, Loaded, add_requirement, load_rules,
  some_error, compile_dest, kind_of, nonempty_kind, host_matches, rule_matches, any_rule, all_there,
  AddrText, allows_dest, allows, host_part,
}

-- What CompileDest makes of a line before it reads it.
abbrev pub normal : Text → Text
normal raw = to_lower (trim_space raw)

abbrev pub over : Env → Text → Bool
over env rules =
    ltb 0 env.max_rules && ltb env.max_rules (active_rule_count (split_lines (rules ∷ [])))

abbrev pub lines_valid : Env → List Text → Bool
lines_valid env [] = true
lines_valid env (raw ∷ lines) =
    (not (is_active (normal raw)) || valid_destination_rule env (normal raw))
    && lines_valid env lines

abbrev pub is_there : Env → Option Requirement → Bool
is_there env none = true
is_there env (some r) = geo_category_exists env r.kind r.category

abbrev pub lines_there : Env → List Text → Bool
lines_there env [] = true
lines_there env (raw ∷ lines) =
    (not (is_active (normal raw)) || is_there env (geo_requirement (normal raw)))
    && lines_there env lines

abbrev pub lines_match : Env → AddrText → Text → List Text → Bool
lines_match env addr_text host [] = false
lines_match env addr_text host (raw ∷ lines) =
    is_active (normal raw) && rule_matches env addr_text (normal raw) host
    || lines_match env addr_text host lines

-- The list is within the limit and each line is a rule.
abbrev pub readable : Env → Text → Bool
readable env rules = not (over env rules) && lines_valid env (split_lines (rules ∷ []))

abbrev pub is_listed : ℕ → Bool
is_listed mode = mode == 1 || mode == 2

-- The answer to the list as it is written, when it is read with one set of geographic data and
-- asked with another: a mode that is no list allows; a list that cannot be read, or that names
-- missing data, denies; and otherwise it is on whether a line matches.
abbrev pub allowed_dest : Env → Env → AddrText → ℕ → Text → Text → Bool
allowed_dest env env' addr_text mode rules addr =
    let lines = split_lines (rules ∷ []) in
    let matched = lines_match env' addr_text (host_part addr) lines in
    if not (is_listed mode)
    then true
    else readable env rules
      && lines_there env' lines
      && (if mode == 1 then matched else not matched)

adds :
    (o : Option Requirement) (l : Loaded)
    → ((add_requirement o l).rules ≡ l.rules) × ((add_requirement o l).errors ≡ l.errors)
unfolding add_requirement
adds none l = (refl, refl)
adds (some r) l = (refl, refl)

adds-there :
    (env : Env) (o : Option Requirement) (l : Loaded)
    → all_there env (add_requirement o l).requirements
      ≡ is_there env o && all_there env l.requirements
unfolding add_requirement
adds-there env none l = refl
adds-there env (some r) l = refl

-- What the loop loads, against the lines.
record Shown (env env' : Env) (addr_text : AddrText) (host : Text) (lines : List Text) (l : Loaded)
    : Type 0 where
  bad : some_error l.errors ≡ not (lines_valid env lines)
  matched :
      lines_valid env lines ≡ true
      → any_rule env' addr_text l.rules host ≡ lines_match env' addr_text host lines
  there : lines_valid env lines ≡ true → all_there env' l.requirements ≡ lines_there env' lines

load_rules-Shown :
    (env env' : Env) (addr_text : AddrText) (host : Text) (line : ℕ) (lines : List Text)
    → Shown env env' addr_text host lines (load_rules env line lines)
unfolding load_rules
load_rules-Shown env env' addr_text host line [] = record {
  bad = refl;
  matched = λ fine. refl;
  there = λ fine. refl;
}
load_rules-Shown env env' addr_text host line (raw ∷ lines) =
    let v = load_rules-Shown env env' addr_text host (line + 1) lines in
    let later = load_rules env (line + 1) lines in
    let found : Loaded = record later { rules = normal raw ∷ later.rules } in
    let (rules, errors) = adds (geo_requirement (normal raw)) found in
    let needs = adds-there env' (geo_requirement (normal raw)) found in
    elim (Bool-cases (is_active (normal raw))) [
      | inr idle ↦ record {
        bad = rw idle v.bad;
        matched = rw idle v.matched;
        there = rw idle v.there;
      }
      | inl active ↦ elim (Bool-cases (valid_destination_rule env (normal raw))) [
        | inr wrong ↦ record {
          bad = rw (active, wrong) refl;
          matched = rw (active, wrong) (λ fine. absurd (cc fine));
          there = rw (active, wrong) (λ fine. absurd (cc fine));
        }
        | inl right ↦ record {
          bad = rw (active, right, errors) v.bad;
          matched =
              rw (active, right, rules)
                (λ fine.
                  ap (λ x. rule_matches env' addr_text (normal raw) host || x) (v.matched fine));
          there =
              rw (active, right, needs)
                (λ fine.
                  ap (λ x. is_there env' (geo_requirement (normal raw)) && x) (v.there fine));
        }
      ]
    ]

not-listed : (m : ℕ) → not (m == 1) && not (m == 2) ≡ not (is_listed m)
not-listed m = elim (Bool-cases (m == 1)) [ inl one ↦ rw one refl | inr other ↦ rw other refl ]

listed-pos : (m : ℕ) → is_listed m ≡ true → (m == 0) ≡ false
listed-pos m h = ground (arith, h)

-- For any number as the mode, and for geographic data that may have changed since, the policy
-- that CompileDest makes of a list answers every address as the list is written: a mode that is
-- no list allows; a list over the limit, with a line that is no rule, or with missing data
-- denies; mode 1 allows exactly what a line matches, and mode 2 exactly what no line matches.
-- Errors are reported exactly for a list that is over the limit or has a line that is no rule.
pub compile_dest-allowed :
    (env env' : Env) (addr_text : AddrText) (mode : ℕ) (rules addr : Text)
    → (allows env' addr_text (compile_dest env mode rules).0 addr
        ≡ allowed_dest env env' addr_text mode rules addr)
      × (some_error (compile_dest env mode rules).1 ≡ is_listed mode && not (readable env rules))
unfolding compile_dest allows allows_dest
compile_dest-allowed env env' addr_text mode rules addr =
    let v = load_rules-Shown env env' addr_text (host_part addr) 1 (split_lines (rules ∷ [])) in
    elim (Bool-cases (is_listed mode)) [
      | inr other ↦ rw (not-listed mode, other) (refl, refl)
      | inl listed ↦
          rw (not-listed mode, listed)
            (elim (Bool-cases (over env rules)) [
              | inl many ↦ rw (many, listed-pos mode listed) (refl, refl)
              | inr few ↦
                  rw (few, listed-pos mode listed, v.bad)
                    (elim (Bool-cases (lines_valid env (split_lines (rules ∷ [])))) [
                      | inr wrong ↦ rw wrong (refl, refl)
                      | inl right ↦
                          rw (right, v.matched right, v.there right)
                            (elim (Bool-cases (lines_there env' (split_lines (rules ∷ [])))) [
                              | inl there ↦ rw there (refl, refl)
                              | inr missing ↦ rw missing (refl, refl)
                            ])
                    ])
            ])
    ]

cut-parts :
    (sep : ℕ) (s before after : Text)
    → cut sep s ≡ some (before, after)
    → length s ≡ length before + 1 + length after
unfolding cut prefix_with
cut-parts sep [] before after e = absurd (cc e)
cut-parts sep (c ∷ s) before after e = elim (Bool-cases (c == sep)) [
  | inl here ↦ ground (arith, e, here)
  | inr later ↦ cut-later (cut sep s) (cut-parts sep s) (sym (passed later) ∙ e)
]
  where
    passed : (c == sep) ≡ false → cut sep (c ∷ s) ≡ prefix_with c (cut sep s)
    passed later = rw later refl

    cut-later :
        (o : Option (Text × Text))
        → ((b a : Text) → o ≡ some (b, a) → length s ≡ length b + 1 + length a)
        → prefix_with c o ≡ some (before, after)
        → length (c ∷ s) ≡ length before + 1 + length after
    cut-later none known k = absurd (cc k)
    cut-later (some (b, a)) known k = ground (arith, known b a refl, k)

same-length : (s t : Text) → same s t ≡ true → length s ≡ length t
same-length [] [] e = refl
same-length [] (c ∷ t) e = absurd (cc e)
same-length (c ∷ s) [] e = absurd (cc e)
same-length (c ∷ s) (d ∷ t) e = omega (arith, same-length s t (ground (arith, e)))

kind_of-length : (raw kind rule : Text) → kind_of raw ≡ some (kind, rule) → length rule < length raw
kind_of-length raw kind rule e = elim (Option-cases (cut b':' raw)) [
  | inl missing ↦ absurd (cc (sym (ap nonempty_kind missing) ∙ e))
  | inr ((before, after), found) ↦ by_kind before after found (sym (ap nonempty_kind found) ∙ e)
]
  where
    by_kind :
        (before after : Text)
        → cut b':' raw ≡ some (before, after)
        → nonempty_kind (some (before, after)) ≡ some (kind, rule)
        → length rule < length raw
    by_kind [] after found k = absurd (cc k)
    by_kind (c ∷ before) after found k =
        ground (arith, k, cut-parts b':' raw (c ∷ before) after found)

-- If the host is read as an address whose text has a kind before its first colon that is not
-- geoip, does not start with geosite:, and has no slash behind that colon, then a rule that is
-- the text of this address does not match the host.
pub own_text-unmatched :
    (env : Env) (addr_text : AddrText) (host : Text) (p : Prefix) (kind rule : Text)
    → parse_ip_prefix env host ≡ some p
    → kind_of (addr_text p.addr) ≡ some (kind, rule)
    → starts (codes "geosite:") (addr_text p.addr) ≡ false
    → same kind (codes "geoip") ≡ false
    → contains (codes "/") rule ≡ false
    → rule_matches env addr_text (addr_text p.addr) host ≡ false
unfolding rule_matches host_matches
own_text-unmatched env addr_text host p kind rule read kinds no_site no_geo no_slash =
    rw (no_site, kinds, no_geo, read, no_slash, shorter) refl
  where
    shorter : same (addr_text p.addr) rule ≡ false
    shorter = elim (Bool-cases (same (addr_text p.addr) rule)) [
      | inl equal ↦ absurd (
          omega (
            arith,
            same-length (addr_text p.addr) rule equal,
            kind_of-length (addr_text p.addr) kind rule kinds,
          ))
      | inr other ↦ other
    ]
