-- ===== src/Hosts/Shadows.antt =====
-- Two entries that one request could go to have rules that overlap (lib/file/db.go).
use nps.Prelude.{
  ℕ, zero, suc, ◌≤◌, ◌<◌, ◌≡◌, refl, [], ◌∷◌, Bool, true, false, ◌||◌, not, ◌⊎◌, inl, inr, length,
  drop, ◌==◌, arith, Bool-cases,
}
use nps.Text.{Text, same, is_empty, starts}
use nps.Text.Find.{any}
use nps.Hosts.Rules.{slash_at, paths_overlap, path_matches}

-- What stands in a path behind a location that it goes below.
abbrev at_boundary : Text → Bool
at_boundary rest = is_empty rest || starts (b'/' ∷ []) rest || starts (b'?' ∷ []) rest

abbrev pub plain : Text → Bool
plain s = not (any (λ c. c == b'?') s)

-- Of two locations of one path, one is the other or goes below it.
abbrev Below : Text → Text → Type 0
Below a b = (starts a b ≡ true) × (length a < length b) × (slash_at (length a) b ≡ true)

paths-related :
    (a b uri : Text)
    → starts a uri ≡ true
    → starts b uri ≡ true
    → at_boundary (drop (length a) uri) ≡ true
    → at_boundary (drop (length b) uri) ≡ true
    → plain a ≡ true
    → plain b ≡ true
    → (same a b ≡ true) ⊎ Below a b ⊎ Below b a
paths-related [] [] uri ha hb ba bb pa pb = inl refl
paths-related [] (d ∷ b) [] ha hb ba bb pa pb = absurd (cc hb)
paths-related [] (d ∷ b) (u ∷ uri) ha hb ba bb pa pb =
    inr (inl (refl, omega arith, ground (arith, hb, ba, pb)))
paths-related (c ∷ a) [] [] ha hb ba bb pa pb = absurd (cc ha)
paths-related (c ∷ a) [] (u ∷ uri) ha hb ba bb pa pb =
    inr (inr (refl, omega arith, ground (arith, ha, bb, pa)))
paths-related (c ∷ a) (d ∷ b) [] ha hb ba bb pa pb = absurd (cc ha)
paths-related (c ∷ a) (d ∷ b) (u ∷ uri) ha hb ba bb pa pb =
    let head : c ≡ d = ground (arith, ha, hb) in
    elim (paths-related a b uri (ground (arith, ha)) (ground (arith, hb)) ba bb (ground (arith, pa))
      (ground (arith, pb))) [
        | inl e ↦ inl ground (arith, head, e)
        | inr (inl (s, l, t)) ↦ inr (inl (ground (arith, head, s), omega (arith, l), t))
        | inr (inr (s, l, t)) ↦ inr (inr (ground (arith, head, s), omega (arith, l), t))
      ]

starts-le : (p s : Text) → starts p s ≡ true → length p ≤ length s
starts-le [] s h = omega arith
starts-le (c ∷ p) [] h = absurd (cc h)
starts-le (c ∷ p) (d ∷ s) h = omega (arith, starts-le p s (ground (arith, h)))

starts-shorter : (p s : Text) → length s < length p → starts p s ≡ false
starts-shorter p s l = elim (Bool-cases (starts p s)) [
  | inl h ↦ absurd (omega (arith, starts-le p s h))
  | inr h ↦ h
]

paths_overlap-same : (a b : Text) → same a b ≡ true → paths_overlap a b ≡ true
unfolding paths_overlap
paths_overlap-same a b h = ground (arith, h)

paths_overlap-Below : (a b : Text) → Below a b → paths_overlap a b ≡ true
unfolding paths_overlap
paths_overlap-Below a b (s, l, t) = ground (arith, s, l, t, starts-shorter b a l)

paths_overlap-above : (a b : Text) → Below b a → paths_overlap a b ≡ true
unfolding paths_overlap
paths_overlap-above a b (s, l, t) = ground (arith, s, l, t)

paths_overlap-root :
    (a b : Text) → (same a (b'/' ∷ []) || same b (b'/' ∷ [])) ≡ true → paths_overlap a b ≡ true
unfolding paths_overlap
paths_overlap-root a b h = ground (arith, h)

drop_all : (n : ℕ) (s : Text) → length s ≡ n → is_empty (drop n s) ≡ true
drop_all zero [] e = refl
drop_all zero (c ∷ s) e = absurd (omega (arith, e))
drop_all (suc n) [] e = refl
drop_all (suc n) (c ∷ s) e = drop_all n s (omega (arith, e))

path_matches-parts :
    (uri a : Text)
    → path_matches uri a ≡ true
    → is_empty a ≡ false
    → same a (b'/' ∷ []) ≡ false
    → (starts a uri ≡ true) × (at_boundary (drop (length a) uri) ≡ true)
unfolding path_matches
path_matches-parts uri a h n r = ground (arith, h, n, r, drop_all (length a) uri)

-- Two entries' locations that one path matches overlap.
pub paths_overlap-matched :
    (uri a b : Text)
    → is_empty a ≡ false
    → is_empty b ≡ false
    → plain a ≡ true
    → plain b ≡ true
    → path_matches uri a ≡ true
    → path_matches uri b ≡ true
    → paths_overlap a b ≡ true
paths_overlap-matched uri a b na nb pa pb ma mb =
    elim (Bool-cases (same a (b'/' ∷ []) || same b (b'/' ∷ []))) [
      | inl root ↦ paths_overlap-root a b root
      | inr deep ↦
          let (sa, ba) = path_matches-parts uri a ma na (ground (arith, deep)) in
          let (sb, bb) = path_matches-parts uri b mb nb (ground (arith, deep)) in
          elim (paths-related a b uri sa sb ba bb pa pb) [
            | inl e ↦ paths_overlap-same a b e
            | inr (inl below) ↦ paths_overlap-Below a b below
            | inr (inr above) ↦ paths_overlap-above a b above
          ]
    ]
