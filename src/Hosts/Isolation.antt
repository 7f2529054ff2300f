-- ===== src/Hosts/Isolation.antt =====
-- Entries of different owners that one request could go to are in conflict (lib/file/db.go).
use nps.Prelude.{
  suc, ◌+◌, ◌-◌, ◌≤◌, ◌≡◌, refl, sym, ap, ap₂, ◌∙◌, some, List, [], ◌∷◌, Bool, true, false, ◌&&◌,
  ◌||◌, not, ◌⊎◌, inl, inr, length, drop, drop-drop, ltb, leb, ◌==◌, if◌then◌else◌, arith,
  Bool-cases, subst,
}
use nps.Text.{Text, same, is_empty, starts, trim_prefix, ends}
use nps.Text.Table.{same-eq, same_refl}
use nps.Hosts.Rules.{
  normalize_name, has_star, count_byte, wild, valid_rule, name_matches, rule_matches, names_overlap,
  rules_overlap, normalize_location, paths_overlap, locations_overlap, path_matches, all_schemes,
  normalize_scheme, schemes_overlap,
}
use nps.Hosts.Shadows.{plain, paths_overlap-matched}
use nps.Hosts.Routes.{
  Client, Host, Request, same_owner, foreign, conflicts, conflict_of, is_route_conflict, rooted,
  uri_matches, serves,
}

-- Of two ends of a text, the shorter one ends the longer one.
ends-both :
    (p q s : Text)
    → ends p s ≡ true
    → ends q s ≡ true
    → length p ≤ length q
    → drop (length q - length p) q ≡ p
ends-both p q s hp hq l =
    ap (drop (length q - length p))
      (sym (same-eq (drop (length s - length q) s) q (ground (arith, hq))))
    ∙ drop-drop (length q - length p) (length s - length q) s
    ∙ ap (λ n. drop n s) (ground (arith, hp, hq, l))
    ∙ same-eq (drop (length s - length p) s) p (ground (arith, hp))

-- Of two suffixes behind a dot, one is the other or ends it behind a dot.
suffixes-related :
    (a b s : Text)
    → ends (b'.' ∷ a) s ≡ true
    → ends (b'.' ∷ b) s ≡ true
    → length a ≤ length b
    → (same a b || ends (b'.' ∷ a) b) ≡ true
suffixes-related a b s ha hb l = elim (Bool-cases (length a == length b)) [
  | inl e ↦
      let whole : b'.' ∷ b ≡ b'.' ∷ a =
        ap (λ n. drop n (b'.' ∷ b)) {x = 0} {y = suc (length b) - suc (length a)}
          (ground (arith, e))
        ∙ ends-both (b'.' ∷ a) (b'.' ∷ b) s ha hb (omega (arith, l)) in
      let equal : same a b ≡ true = subst (λ x. same a x ≡ true) (sym (cc whole)) (same_refl a) in
      ground (arith, equal)
  | inr n ↦
      let behind : drop (length b - suc (length a)) b ≡ b'.' ∷ a =
        ap (λ n. drop n (b'.' ∷ b)) {x = suc (length b - suc (length a))}
          {y = suc (length b) - suc (length a)} (ground (arith, n, l))
        ∙ ends-both (b'.' ∷ a) (b'.' ∷ b) s ha hb (omega (arith, l)) in
      let equal : same (drop (length b - suc (length a)) b) (b'.' ∷ a) ≡ true =
        subst (λ x. same x (b'.' ∷ a) ≡ true) (sym behind) (same_refl (b'.' ∷ a)) in
      ground (arith, equal, n, l)
]

same_sym : (s t : Text) → same s t ≡ true → same t s ≡ true
same_sym s t h = subst (λ x. same x s ≡ true) (same-eq s t h) (same_refl s)

-- A name that matches a rule without a wildcard is the rule.
exact_match : (h a : Text) → starts wild a ≡ false → name_matches h a ≡ true → h ≡ a
unfolding name_matches
exact_match h a n m = same-eq h a (ground (arith, n, m))

-- A name that matches a wildcard ends in its suffix, behind a dot.
has_star-wild : (a : Text) → starts wild a ≡ true → has_star a ≡ true
has_star-wild [] w = absurd (cc w)
has_star-wild (c ∷ a) w = ground (arith, w)

-- The last test of a match by a wildcard.
last_test :
    (e s q w c x l f : Bool)
    → s ≡ true
    → w ≡ true
    → (if e then false else if not s then q else if not w || not c then false else not x && l && f)
      ≡ true
    → f ≡ true
last_test e s q w c x l f hs hw h = ground (arith, hs, hw, h)

wild_match :
    (h a : Text)
    → starts wild a ≡ true
    → name_matches h a ≡ true
    → ends (b'.' ∷ trim_prefix wild a) h ≡ true
unfolding name_matches
wild_match h a w m =
    let suffix = trim_prefix wild a in
    last_test (is_empty h || is_empty a) (has_star a) (same h a) (starts wild a)
      (count_byte b'*' a == 1) (is_empty suffix) (ltb (length suffix + 1) (length h))
      (ends (b'.' ∷ suffix) h) (has_star-wild a w) w m

exact_rule :
    (h a b : Text)
    → normalize_name a ≡ a
    → normalize_name b ≡ b
    → h ≡ b
    → name_matches h a ≡ true
    → rule_matches b a ≡ true
unfolding rule_matches
exact_rule h a b na nb e ma = ap₂ name_matches nb na ∙ ap (λ x. name_matches x a) (sym e) ∙ ma

or_last : (x y z : Bool) → (x || z) ≡ true → (x || y || z) ≡ true
or_last x y z h = ground (arith, h)

or_middle : (x y z : Bool) → (x || y) ≡ true → (x || y || z) ≡ true
or_middle x y z h = ground (arith, h)

or_turn : (x x' y : Bool) → (x ≡ true → x' ≡ true) → (x || y) ≡ true → (x' || y) ≡ true
or_turn true x' y f h = ap (λ k. k || y) (f refl)
or_turn false true y f h = refl
or_turn false false y f h = h

-- Both rules have a wildcard.
suffixes-overlap :
    (a b h : Text)
    → ends (b'.' ∷ a) h ≡ true
    → ends (b'.' ∷ b) h ≡ true
    → (same a b || ends (b'.' ∷ b) a || ends (b'.' ∷ a) b) ≡ true
suffixes-overlap a b h ha hb = elim (Bool-cases (leb (length a) (length b))) [
  | inl l ↦
      or_last (same a b) (ends (b'.' ∷ b) a) (ends (b'.' ∷ a) b)
        (suffixes-related a b h ha hb (ground (arith, l)))
  | inr l ↦ or_middle (same a b) (ends (b'.' ∷ b) a) (ends (b'.' ∷ a) b) (
      or_turn (same b a) (same a b) (ends (b'.' ∷ b) a) (same_sym b a)
        (suffixes-related b a h hb ha (ground (arith, l))))
]

-- The four cases of hostRulesOverlap.
names_cases :
    (p q s r r' o : Bool)
    → (p ≡ false → q ≡ false → s ≡ true)
    → (p ≡ true → q ≡ false → r ≡ true)
    → (p ≡ false → q ≡ true → r' ≡ true)
    → (p ≡ true → q ≡ true → o ≡ true)
    → (if not p && not q then s else if not q then r else if not p then r' else o) ≡ true
names_cases true true s r r' o hs h h' ho = ho refl refl
names_cases true false s r r' o hs h h' ho = h refl refl
names_cases false true s r r' o hs h h' ho = h' refl refl
names_cases false false s r r' o hs h h' ho = hs refl refl

names_overlap-matched :
    (h a b : Text)
    → normalize_name a ≡ a
    → normalize_name b ≡ b
    → name_matches h a ≡ true
    → name_matches h b ≡ true
    → names_overlap a b ≡ true
unfolding names_overlap
names_overlap-matched h a b na nb ma mb =
    let a_suffix = trim_prefix wild a in
    let b_suffix = trim_prefix wild b in
    names_cases (starts wild a) (starts wild b) (same a b) (rule_matches b a) (rule_matches a b)
      (same a_suffix b_suffix || ends (b'.' ∷ b_suffix) a_suffix || ends (b'.' ∷ a_suffix) b_suffix)
      (λ ea eb.
        subst (λ x. same a x ≡ true) (sym (exact_match h a ea ma) ∙ exact_match h b eb mb)
          (same_refl a))
      (λ wa eb. exact_rule h a b na nb (exact_match h b eb mb) ma)
      (λ ea wb. exact_rule h b a nb na (exact_match h a ea ma) mb)
      (λ wa wb. suffixes-overlap a_suffix b_suffix h (wild_match h a wa ma) (wild_match h b wb mb))

-- An entry as NewHost and UpdateHost store it: what they normalize stays as it is.
pub record IsStored (is_ip : Text → Bool) (h : Host) : Type 0 where
  pub name : normalize_name h.host ≡ h.host
  pub valid : valid_rule is_ip h.host ≡ true
  pub location : normalize_location h.location ≡ h.location
  pub from_root : starts (b'/' ∷ []) h.location ≡ true
  pub no_query : plain h.location ≡ true
  pub scheme : normalize_scheme h.scheme ≡ h.scheme

past_guard :
    (v v' o : Bool)
    → v ≡ true
    → v' ≡ true
    → o ≡ true
    → (if not v || not v' then false else o) ≡ true
past_guard v v' o hv hv' h = ground (arith, hv, hv', h)

from_root-some : (l : Text) → starts (b'/' ∷ []) l ≡ true → is_empty l ≡ false
from_root-some [] r = absurd (cc r)
from_root-some (c ∷ l) r = refl

from_root-rooted : (l : Text) → starts (b'/' ∷ []) l ≡ true → rooted l ≡ l
unfolding rooted
from_root-rooted [] r = absurd (cc r)
from_root-rooted (c ∷ l) r = rw r refl

schemes-matched :
    (a b r : Text)
    → (same a all_schemes || same a r) ≡ true
    → (same b all_schemes || same b r) ≡ true
    → (same a all_schemes || same b all_schemes || same a b) ≡ true
schemes-matched a b r ha hb = elim (Bool-cases (same a r)) [
  | inl ea ↦ elim (Bool-cases (same b r)) [
    | inl eb ↦
        let equal : same a b ≡ true =
          subst (λ x. same a x ≡ true) (same-eq a r ea ∙ sym (same-eq b r eb)) (same_refl a) in
        three_last (same a all_schemes) (same b all_schemes) (same a b) equal
    | inr nb ↦
        three_middle (same a all_schemes) (same b all_schemes) (same a b)
          (other (same b all_schemes) (same b r) nb hb)
  ]
  | inr na ↦
      three_first (same a all_schemes) (same b all_schemes) (same a b)
        (other (same a all_schemes) (same a r) na ha)
]
  where
    other : (x y : Bool) → y ≡ false → (x || y) ≡ true → x ≡ true
    other x y n h = ground (arith, n, h)

    three_last : (x y z : Bool) → z ≡ true → (x || y || z) ≡ true
    three_last x y z h = ground (arith, h)

    three_middle : (x y z : Bool) → y ≡ true → (x || y || z) ≡ true
    three_middle x y z h = ground (arith, h)

    three_first : (x y z : Bool) → x ≡ true → (x || y || z) ≡ true
    three_first x y z h = ground (arith, h)

rules_overlap-matched :
    (is_ip : Text → Bool) (host : Text) (h k : Host)
    → IsStored is_ip h
    → IsStored is_ip k
    → rule_matches host h.host ≡ true
    → rule_matches host k.host ≡ true
    → rules_overlap is_ip h.host k.host ≡ true
unfolding rules_overlap rule_matches
rules_overlap-matched is_ip host h k sh sk mh mk =
    ap₂
      (λ x y.
        if not (valid_rule is_ip x) || not (valid_rule is_ip y) then false else names_overlap x y)
      sh.name sk.name
    ∙ past_guard (valid_rule is_ip h.host) (valid_rule is_ip k.host) (names_overlap h.host k.host)
        sh.valid sk.valid
        (names_overlap-matched (normalize_name host) h.host k.host sh.name sk.name
          (ap (name_matches (normalize_name host)) (sym sh.name) ∙ mh)
          (ap (name_matches (normalize_name host)) (sym sk.name) ∙ mk))

locations_overlap-matched :
    (is_ip : Text → Bool) (uri : Text) (h k : Host)
    → IsStored is_ip h
    → IsStored is_ip k
    → path_matches uri (rooted h.location) ≡ true
    → path_matches uri (rooted k.location) ≡ true
    → locations_overlap h.location k.location ≡ true
unfolding locations_overlap
locations_overlap-matched is_ip uri h k sh sk mh mk =
    ap₂ paths_overlap sh.location sk.location
    ∙ paths_overlap-matched uri h.location k.location (from_root-some h.location sh.from_root)
        (from_root-some k.location sk.from_root) sh.no_query sk.no_query
        (ap (path_matches uri) (sym (from_root-rooted h.location sh.from_root)) ∙ mh)
        (ap (path_matches uri) (sym (from_root-rooted k.location sk.from_root)) ∙ mk)

schemes_overlap-matched :
    (is_ip : Text → Bool) (scheme : Text) (h k : Host)
    → IsStored is_ip h
    → IsStored is_ip k
    → (same h.scheme all_schemes || same h.scheme scheme) ≡ true
    → (same k.scheme all_schemes || same k.scheme scheme) ≡ true
    → schemes_overlap (normalize_scheme h.scheme) k.scheme ≡ true
unfolding schemes_overlap
schemes_overlap-matched is_ip scheme h k sh sk mh mk =
    ap₂ (λ x y. same x all_schemes || same y all_schemes || same x y)
      (ap normalize_scheme sh.scheme ∙ sh.scheme) sk.scheme
    ∙ schemes-matched h.scheme k.scheme scheme mh mk

-- An entry in a list.
abbrev pub InHosts : Host → List Host → Type 0
InHosts h [] = ⊥
InHosts h (k ∷ ks) = (h ≡ k) ⊎ InHosts h ks

-- The entry is another's, and the rules of the two overlap in every part.
record Clashes (is_ip : Text → Bool) (h : Host) (owner : Client) (k : Host) : Type 0 where
  pub other : (k.id == h.id) ≡ false
  pub not_own : foreign owner k.client ≡ true
  pub scheme : schemes_overlap (normalize_scheme h.scheme) k.scheme ≡ true
  pub rule : rules_overlap is_ip h.host k.host ≡ true
  pub path : locations_overlap h.location k.location ≡ true

-- The test of one entry in the loop.
one_entry :
    (own foreign s r l rest : Bool)
    → ((own ≡ false) × (foreign ≡ true) × (s ≡ true) × (r ≡ true) × (l ≡ true)) ⊎ (rest ≡ true)
    → (if own || not foreign then rest else if s && r && l then true else rest) ≡ true
one_entry own foreign s r l rest (inl h) = ground (arith, h.0, h.1, h.2, h.3, h.4)
one_entry own foreign s r l rest (inr h) = ground (arith, h)

conflicts-clash :
    (is_ip : Text → Bool) (h : Host) (owner : Client) (k : Host) (ks : List Host)
    → Clashes is_ip h owner k
    → InHosts k ks
    → conflicts is_ip h owner ks ≡ true
unfolding conflicts
conflicts-clash is_ip h owner k [] c i = absurd i
conflicts-clash is_ip h owner k (x ∷ ks) c (inl e) =
    let c' : Clashes is_ip h owner x = subst (Clashes is_ip h owner) e c in
    one_entry (x.id == h.id) (foreign owner x.client)
      (schemes_overlap (normalize_scheme h.scheme) x.scheme) (rules_overlap is_ip h.host x.host)
      (locations_overlap h.location x.location) (conflicts is_ip h owner ks)
      (inl (c'.other, c'.not_own, c'.scheme, c'.rule, c'.path))
conflicts-clash is_ip h owner k (x ∷ ks) c (inr i) =
    one_entry (x.id == h.id) (foreign owner x.client)
      (schemes_overlap (normalize_scheme h.scheme) x.scheme) (rules_overlap is_ip h.host x.host)
      (locations_overlap h.location x.location) (conflicts is_ip h owner ks)
      (inr (conflicts-clash is_ip h owner k ks c i))

last_three : (c s r p : Bool) → (not c && s && r && p) ≡ true → (s ≡ true) × (r ≡ true) × (p ≡ true)
last_three c s r p h = ground (arith, h)

past_tests :
    (v z o : Bool) → v ≡ true → o ≡ true → (if not v then false else if z then true else o) ≡ true
past_tests v z o hv h = ground (arith, hv, h)

-- What a request that an entry serves says of its rules.
serves-parts :
    (r : Request) (uri : Text) (h : Host)
    → r.uri ≡ some uri
    → serves r h ≡ true
    → ((same h.scheme all_schemes || same h.scheme r.scheme) ≡ true)
      × (rule_matches r.host h.host ≡ true)
      × (path_matches uri (rooted h.location) ≡ true)
unfolding serves uri_matches
serves-parts r uri h e s =
    let (scheme, rule, path) =
      last_three h.is_close (same h.scheme all_schemes || same h.scheme r.scheme)
        (rule_matches r.host h.host) (uri_matches r.uri (rooted h.location)) s in
    (scheme, rule, ap (λ o. uri_matches o (rooted h.location)) (sym e) ∙ path)

clashes :
    (is_ip : Text → Bool) (r : Request) (uri : Text) (h k : Host) (owner other : Client)
    → IsStored is_ip h
    → IsStored is_ip k
    → k.client ≡ some other
    → same_owner owner other ≡ false
    → (k.id == h.id) ≡ false
    → r.uri ≡ some uri
    → serves r h ≡ true
    → serves r k ≡ true
    → Clashes is_ip h owner k
unfolding foreign
clashes is_ip r uri h k owner other sh sk ck apart n u vh vk =
    let (scheme, rule, path) = serves-parts r uri h u vh in
    let (scheme', rule', path') = serves-parts r uri k u vk in
    record {
      other = n;
      not_own = ap (foreign owner) ck ∙ ap not apart;
      scheme = schemes_overlap-matched is_ip r.scheme h k sh sk scheme scheme';
      rule = rules_overlap-matched is_ip r.host h k sh sk rule rule';
      path = locations_overlap-matched is_ip uri h k sh sk path path';
    }

-- If two entries with different numbers and owners have names, schemes and locations that are
-- valid and that normalizing leaves as they are, no location has a question mark, and some
-- request with a URI could go to either, then IsHostRouteConflict refuses the one while the other
-- is in the list.
pub served-conflict :
    (is_ip : Text → Bool) (r : Request) (uri : Text) (h k : Host) (owner other : Client)
    (hosts : List Host)
    → IsStored is_ip h
    → IsStored is_ip k
    → h.client ≡ some owner
    → k.client ≡ some other
    → same_owner owner other ≡ false
    → (k.id == h.id) ≡ false
    → InHosts k hosts
    → r.uri ≡ some uri
    → serves r h ≡ true
    → serves r k ≡ true
    → is_route_conflict is_ip h hosts ≡ true
unfolding is_route_conflict conflict_of
served-conflict is_ip r uri h k owner other hosts sh sk ch ck apart n i u vh vk =
    ap (λ o. conflict_of is_ip h o hosts) ch
    ∙ past_tests (valid_rule is_ip h.host) _ (conflicts is_ip h owner hosts) sh.valid (
        conflicts-clash is_ip h owner k hosts
          (clashes is_ip r uri h k owner other sh sk ck apart n u vh vk) i)
