-- ===== src/Text/Fields.antt =====
-- The fields of a text hold no separator, so that cutting them again changes nothing.
use nps.Prelude.{
  ℕ, ◌≡◌, refl, sym, ap, ◌∙◌, List, [], ◌∷◌, ◌++◌, Bool, false, All, Bool-cases, inl, inr,
  append_assoc, append-nil, arith,
}
use nps.Text.{Text, is_empty}
use nps.Text.Find.{any, flush, fields_from, fields}

module _ (p : ℕ → Bool) where
  abbrev pub IsField : Text → Type 0
  IsField t = (any p t ≡ false) × (is_empty t ≡ false)

  any-append : (s t : Text) → any p s ≡ false → any p t ≡ false → any p (s ++ t) ≡ false
  any-append [] t h k = k
  any-append (c ∷ s) t h k = elim (Bool-cases (p c)) [
    | inl bad ↦ absurd (ground (arith, h, bad))
    | inr good ↦ rw good (any-append s t (ground (arith, h, good)) k)
  ]

  flush-IsField :
      (t : Text) (ts : List Text) → any p t ≡ false → All IsField ts → All IsField (flush t ts)
  unfolding flush
  flush-IsField [] ts h k = k
  flush-IsField (c ∷ t) ts h k = ((h, refl), k)

  pub fields_from-IsField : (s t : Text) → any p t ≡ false → All IsField (fields_from p t s)
  unfolding fields_from
  fields_from-IsField [] t h = flush-IsField t [] h tt
  fields_from-IsField (c ∷ s) t h =
      let here = fields_from-IsField s [] refl in
      let on = fields_from-IsField s (t ++ (c ∷ [])) in
      elim (Bool-cases (p c)) [
        | inl yes_cut ↦ rw yes_cut (flush-IsField t (fields_from p [] s) h here)
        | inr no_cut ↦ rw no_cut (on (any-append t (c ∷ []) h (rw no_cut refl)))
      ]

  fields_from-one : (s t : Text) → any p s ≡ false → fields_from p t s ≡ flush (t ++ s) []
  unfolding fields_from
  fields_from-one [] t h = ap (λ u. flush u []) (sym (append-nil t))
  fields_from-one (c ∷ s) t h =
      let on = fields_from-one s (t ++ (c ∷ [])) in
      elim (Bool-cases (p c)) [
        | inl bad ↦ absurd (ground (arith, h, bad))
        | inr good ↦
            rw good
              (on (ground (arith, h, good)) ∙ ap (λ u. flush u []) (append_assoc t (c ∷ []) s))
      ]

  pub fields-one : (t : Text) → IsField t → fields p t ≡ t ∷ []
  unfolding fields flush
  fields-one [] f = absurd (cc f.1)
  fields-one (c ∷ t) f = fields_from-one (c ∷ t) [] f.0
