-- ===== src/Text/Table.antt =====
-- Go's maps with strings for keys: a list of entries. A loop over the entries that deletes some is
-- keep.
use nps.Prelude.{
  ◌≡◌, ◌≤◌, refl, ap₂, Option, none, some, List, [], ◌∷◌, Bool, true, false, ==_iff, length,
  if◌then◌else◌, arith, Bool-cases, inl, inr,
}
use nps.Text.{Text, same}

pub same-eq : (s t : Text) → same s t ≡ true → s ≡ t
same-eq [] [] e = refl
same-eq [] (c ∷ t) e = absurd (cc e)
same-eq (c ∷ s) [] e = absurd (cc e)
same-eq (c ∷ s) (d ∷ t) e =
    ap₂ ◌∷◌ ((==_iff c d).0 (ground (arith, e))) (same-eq s t (ground (arith, e)))

pub same_refl : (s : Text) → same s s ≡ true
same_refl [] = refl
same_refl (c ∷ s) = ground (arith, same_refl s)

other_key : (j k i : Text) → same j k ≡ true → same k i ≡ false → same j i ≡ false
other_key j k i e n = rw (same-eq j k e) n

module _ {ℓ} {A : Type ℓ} where
  abbrev pub find : Text → List (Text × A) → Option A
  find k [] = none
  find k ((j, v) ∷ m) = if same j k then some v else find k m

  -- delete(m, k)
  abbrev pub remove : Text → List (Text × A) → List (Text × A)
  remove k [] = []
  remove k ((j, v) ∷ m) = if same j k then remove k m else (j, v) ∷ remove k m

  -- m[k] = v
  abbrev pub put : Text → A → List (Text × A) → List (Text × A)
  put k v m = (k, v) ∷ remove k m

  abbrev pub keep : (A → Bool) → List (Text × A) → List (Text × A)
  keep p [] = []
  keep p ((j, v) ∷ m) = if p v then (j, v) ∷ keep p m else keep p m

  abbrev pub values : List (Text × A) → List A
  values [] = []
  values ((j, v) ∷ m) = v ∷ values m

  pub find-remove_self : (k : Text) (m : List (Text × A)) → find k (remove k m) ≡ none
  find-remove_self k [] = refl
  find-remove_self k ((j, v) ∷ m) = ground (arith, find-remove_self k m)

  pub find-remove_ne :
      (k i : Text) (m : List (Text × A)) → same k i ≡ false → find i (remove k m) ≡ find i m
  find-remove_ne k i [] n = refl
  find-remove_ne k i ((j, v) ∷ m) n = ground (arith, other_key j k i, find-remove_ne k i m n)

  pub find-put_self : (k : Text) (v : A) (m : List (Text × A)) → find k (put k v m) ≡ some v
  find-put_self k v m = rw (same_refl k) refl

  pub find-put_ne :
      (k i : Text) (v : A) (m : List (Text × A)) → same k i ≡ false → find i (put k v m) ≡ find i m
  find-put_ne k i v m n = rw n (find-remove_ne k i m n)

  pub length-remove : (k : Text) (m : List (Text × A)) → length (remove k m) ≤ length m
  length-remove k [] = omega arith
  length-remove k ((j, v) ∷ m) = ground (arith, length-remove k m)

  pub length-keep : (p : A → Bool) (m : List (Text × A)) → length (keep p m) ≤ length m
  length-keep p [] = omega arith
  length-keep p ((j, v) ∷ m) = ground (arith, length-keep p m)

  -- What passes the test is found as before, and whatever is found passes it.
  pub find-keep :
      (p : A → Bool) (k : Text) (v : A) (m : List (Text × A))
      → find k m ≡ some v
      → p v ≡ true
      → find k (keep p m) ≡ some v
  find-keep p k v [] e h = absurd (cc e)
  find-keep p k v ((j, w) ∷ m) e h = elim (Bool-cases (same j k)) [
    | inl here ↦ ground (arith, here, e, h)
    | inr there ↦ ground (arith, there, e, find-keep p k v m)
  ]

  pub find-keep-none :
      (p : A → Bool) (k : Text) (m : List (Text × A)) → find k m ≡ none → find k (keep p m) ≡ none
  find-keep-none p k [] e = refl
  find-keep-none p k ((j, w) ∷ m) e = ground (arith, e, find-keep-none p k m)

  pub find-keep_passes :
      (p : A → Bool) (k : Text) (v : A) (m : List (Text × A))
      → find k (keep p m) ≡ some v
      → p v ≡ true
  find-keep_passes p k v [] e = absurd (cc e)
  find-keep_passes p k v ((j, w) ∷ m) e = elim (Bool-cases (p w)) [
    | inl kept ↦ elim (Bool-cases (same j k)) [
      | inl here ↦ ground (arith, kept, here, e)
      | inr there ↦ find-keep_passes p k v m (ground (arith, kept, there, e))
    ]
    | inr dropped ↦ find-keep_passes p k v m (ground (arith, dropped, e))
  ]
