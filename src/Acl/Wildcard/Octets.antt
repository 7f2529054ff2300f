-- ===== src/Acl/Wildcard/Octets.antt =====
-- parseIPv4Wildcard of lib/acl/acl.go: which addresses a dotted wildcard covers.
use nps.Prelude.{
  ℕ, ◌+◌, ◌-◌, ◌*◌, ◌/◌, ◌%◌, ◌^◌, ◌<◌, ◌≡◌, refl, sym, ap, ◌∙◌, Option, none, some, List, [], ◌∷◌,
  Bool, true, false, ◌&&◌, not, ltb, ◌==◌, ==_iff, length, if◌then◌else◌, arith, Bool-cases,
  Option-cases, inl, inr,
}
use nps.Text.{Text, codes}
use nps.Text.Find.{contains, split}
use nps.Net.{v4, Prefix, masked, holds}
use nps.Net.Parse.{octet, number, parse_v4, join_octets}
use nps.Acl.Wildcard.{
  Read, other, broken, prefix, fixed_octets, padded, with_octets, of_octets, parse_ipv4_wildcard,
}

-- The octets of an address from one place on, against the numbers of some texts.
abbrev pub same_octets : List Text → ℕ → ℕ → Bool
same_octets [] place a = true
same_octets (o ∷ os) place a = number o == a / 2 ^ place % 256 && same_octets os (place - 8) a

octet-number : (s : Text) (n : ℕ) → octet s ≡ some n → (number s ≡ n) × (n < 256)
unfolding octet
octet-number s n e = ground arith

three_zeros :
    (o : Option ℕ) (n : ℕ)
    → join_octets o (octet (codes "0")) (octet (codes "0")) (octet (codes "0")) ≡ some n
    → (v : ℕ) × (o ≡ some v) × (n ≡ v * 2 ^ 24)
unfolding octet join_octets
three_zeros none n e = absurd (cc e)
three_zeros (some v) n e = (v, refl, ground (arith, e))

two_zeros :
    (o p : Option ℕ) (n : ℕ)
    → join_octets o p (octet (codes "0")) (octet (codes "0")) ≡ some n
    → (v : ℕ) × (w : ℕ) × (o ≡ some v) × (p ≡ some w) × (n ≡ v * 2 ^ 24 + w * 2 ^ 16)
unfolding octet join_octets
two_zeros none p n e = absurd (cc e)
two_zeros (some v) none n e = absurd (cc e)
two_zeros (some v) (some w) n e = (v, w, refl, refl, ground (arith, e))

one_zero :
    (o p q : Option ℕ) (n : ℕ)
    → join_octets o p q (octet (codes "0")) ≡ some n
    → (v : ℕ) × (w : ℕ) × (x : ℕ) × (o ≡ some v)
      × (p ≡ some w)
      × (q ≡ some x)
      × (n ≡ v * 2 ^ 24 + w * 2 ^ 16 + x * 2 ^ 8)
unfolding octet join_octets
one_zero none p q n e = absurd (cc e)
one_zero (some v) none q n e = absurd (cc e)
one_zero (some v) (some w) none n e = absurd (cc e)
one_zero (some v) (some w) (some x) n e = (v, w, x, refl, refl, refl, ground (arith, e))

same-test : (x y : ℕ) (b : Bool) → ((x ≡ y) → b ≡ true) → ((b ≡ true) → x ≡ y) → (x == y) ≡ b
same-test x y true f g = (==_iff x y).1 (g refl)
same-test x y false f g = elim (Bool-cases (x == y)) [
  | inl h ↦ h ∙ sym (f ((==_iff x y).0 h))
  | inr h ↦ h
]

one-octet :
    (v a n : ℕ)
    → v < 256
    → a < 2 ^ 32
    → n ≡ v * 2 ^ 24
    → (n / 2 ^ 24 * 2 ^ 24 / 2 ^ 24 == a / 2 ^ 24) ≡ (v == a / 2 ^ 24 % 256) && true
one-octet v a n h k e = ground arith

two-octets :
    (v w a n : ℕ)
    → v < 256
    → w < 256
    → a < 2 ^ 32
    → n ≡ v * 2 ^ 24 + w * 2 ^ 16
    → (n / 2 ^ 16 * 2 ^ 16 / 2 ^ 16 == a / 2 ^ 16)
      ≡ (v == a / 2 ^ 24 % 256) && ((w == a / 2 ^ 16 % 256) && true)
two-octets v w a n h i k e = ground arith

three-octets :
    (v w x a n : ℕ)
    → v < 256
    → w < 256
    → x < 256
    → a < 2 ^ 32
    → n ≡ v * 2 ^ 24 + w * 2 ^ 16 + x * 2 ^ 8
    → (n / 2 ^ 8 * 2 ^ 8 / 2 ^ 8 == a / 2 ^ 8)
      ≡ (v == a / 2 ^ 24 % 256) && ((w == a / 2 ^ 16 % 256) && ((x == a / 2 ^ 8 % 256) && true))
three-octets v w x a n h i j k e = ground arith

some-eq : {m n : ℕ} → ◌≡◌ {A = Option ℕ} (some m) (some n) → m ≡ n
some-eq e = cc e

too-many :
    (o p q r : Text) (os : List Text)
    → parse_v4 (padded (o ∷ p ∷ q ∷ r ∷ os) (length (o ∷ p ∷ q ∷ r ∷ os))) ≡ none
unfolding parse_v4
too-many o p q r [] = refl
too-many o p q r (t ∷ os) = refl

no-octet : (a n : ℕ) → a < 2 ^ 32 → n ≡ 0 → (n / 2 ^ 32 * 2 ^ 32 / 2 ^ 32 == a / 2 ^ 32) ≡ true
no-octet a n h e = ground arith

zeros : (n : ℕ) → parse_v4 (padded [] 0) ≡ some n → n ≡ 0
unfolding parse_v4 octet join_octets
zeros n e = sym (some-eq e)

with-holds :
    (octets : List Text) (n a : ℕ)
    → a < 2 ^ 32
    → parse_v4 (padded octets (length octets)) ≡ some n
    → holds (masked (record { addr = v4 n; bits = 8 * length octets })) (v4 a)
      ≡ same_octets octets 24 a
unfolding parse_v4
with-holds [] n a h e = no-octet a n h (zeros n e)
with-holds (o ∷ []) n a h e =
    let (v, is_v, sum) = three_zeros (octet o) n e in
    let (num, small) = octet-number o v is_v in rw num (one-octet v a n small h sum)
with-holds (o ∷ p ∷ []) n a h e =
    let (v, w, is_v, is_w, sum) = two_zeros (octet o) (octet p) n e in
    let (num_v, small_v) = octet-number o v is_v in
    let (num_w, small_w) = octet-number p w is_w in
    rw (num_v, num_w) (two-octets v w a n small_v small_w h sum)
with-holds (o ∷ p ∷ q ∷ []) n a h e =
    let (v, w, x, is_v, is_w, is_x, sum) = one_zero (octet o) (octet p) (octet q) n e in
    let (num_v, small_v) = octet-number o v is_v in
    let (num_w, small_w) = octet-number p w is_w in
    let (num_x, small_x) = octet-number q x is_x in
    rw (num_v, num_w, num_x) (three-octets v w x a n small_v small_w small_x h sum)
with-holds (o ∷ p ∷ q ∷ r ∷ os) n a h e = absurd (none-some (sym (too-many o p q r os) ∙ e))
  where
    none-some : ¬ (◌≡◌ {A = Option ℕ} none (some n))
    none-some k = cc k

of_octets-prefix :
    (o : Option (List Text)) (p : Prefix) (octets : List Text)
    → o ≡ some octets
    → of_octets o ≡ prefix p
    → (n : ℕ) × (parse_v4 (padded octets (length octets)) ≡ some n)
      × (p ≡ masked (record { addr = v4 n; bits = 8 * length octets }))
unfolding of_octets with_octets
of_octets-prefix o p octets is e = elim (Option-cases (parse_v4 (padded octets (length octets)))) [
  | inl bad ↦
      absurd (broken-prefix (sym (ap (with_octets octets) bad) ∙ (sym (ap of_octets is) ∙ e)))
  | inr (n, good) ↦
      (n, good, prefix-eq (sym (ap (with_octets octets) good) ∙ (sym (ap of_octets is) ∙ e)))
]
  where
    broken-prefix : ¬ (broken ≡ prefix p)
    broken-prefix k = cc k

    prefix-eq : {q : Prefix} → prefix q ≡ prefix p → p ≡ q
    prefix-eq k = cc k

unguarded :
    (x y z : Bool) (r : Read) (p : Prefix)
    → (if not x then other else if y then broken else if z then broken else r) ≡ prefix p
    → r ≡ prefix p
unguarded false y z r p e = absurd (cc e)
unguarded true true z r p e = absurd (cc e)
unguarded true false true r p e = absurd (cc e)
unguarded true false false r p e = e

-- If parseIPv4Wildcard reads a text as a prefix, and some octets stand in front of its first
-- star, then the prefix contains exactly the IPv4 addresses that begin with these octets.
pub parse_ipv4_wildcard-holds :
    (raw : Text) (p : Prefix) (octets : List Text) (a : ℕ)
    → parse_ipv4_wildcard raw ≡ prefix p
    → fixed_octets (split b'.' raw) ≡ some octets
    → a < 2 ^ 32
    → holds p (v4 a) ≡ same_octets octets 24 a
unfolding parse_ipv4_wildcard
parse_ipv4_wildcard-holds raw p octets a e is h =
    let (n, good, is_p) = of_octets-prefix (fixed_octets (split b'.' raw)) p octets is (
      unguarded (contains (codes "*") raw) (contains (codes ":") raw)
        (ltb 4 (length (split b'.' raw))) (of_octets (fixed_octets (split b'.' raw))) p e) in
    ap (λ q. holds q (v4 a)) is_p ∙ with-holds octets n a h good
