-- ===== src/Mux/Session/ConnMap.antt =====
-- connMap of lib/nps_mux/map.go: from the number of a connection to the connection. The entries are
-- a list; a connection is its place in Mux.conns.
use nps.Prelude.{
  ℕ, suc, ◌≡◌, ◌≢◌, ◌≤◌, refl, Option, none, some, List, [], ◌∷◌, ◌++◌, length, if◌then◌else◌,
  arith, ◌⊎◌, inl, inr, ◌==◌, Bool-cases,
}

-- Get
unfoldable pub get : List (ℕ × ℕ) → ℕ → Option ℕ
get [] id = none
get ((i, c) ∷ m) id = if i == id then some c else get m id

-- Delete
unfoldable pub delete : List (ℕ × ℕ) → ℕ → List (ℕ × ℕ)
delete [] id = []
delete ((i, c) ∷ m) id = let rest = delete m id in if i == id then rest else (i, c) ∷ rest

-- Set
unfoldable pub set : List (ℕ × ℕ) → ℕ → ℕ → List (ℕ × ℕ)
unfolding delete
set m id c = (id, c) ∷ delete m id

-- Size
abbrev pub size : List (ℕ × ℕ) → ℕ
size m = length m

-- The connections that Close collects before it empties the map.
unfoldable pub connections : List (ℕ × ℕ) → List ℕ
connections [] = []
connections ((i, c) ∷ m) = c ∷ connections m

abbrev pub In : ℕ → List ℕ → Type 0
In c [] = ⊥
In c (x ∷ xs) = (c ≡ x) ⊎ In c xs

pub In-append : (c : ℕ) (xs ys : List ℕ) → In c xs ⊎ In c ys → In c (xs ++ ys)
In-append c [] ys (inl h) = absurd h
In-append c [] ys (inr h) = h
In-append c (x ∷ xs) ys (inl (inl e)) = inl e
In-append c (x ∷ xs) ys (inl (inr h)) = inr (In-append c xs ys (inl h))
In-append c (x ∷ xs) ys (inr h) = inr (In-append c xs ys (inr h))

pub In-split : (c : ℕ) (xs ys : List ℕ) → In c (xs ++ ys) → In c xs ⊎ In c ys
In-split c [] ys h = inr h
In-split c (x ∷ xs) ys (inl e) = inl (inl e)
In-split c (x ∷ xs) ys (inr h) = elim (In-split c xs ys h) [ inl p ↦ inl (inr p) | inr p ↦ inr p ]

pub get-delete_ne : (m : List (ℕ × ℕ)) (id i : ℕ) → i ≢ id → get (delete m id) i ≡ get m i
unfolding get delete
get-delete_ne [] id i n = refl
get-delete_ne ((j, c) ∷ m) id i n = ground (arith, get-delete_ne m id i n)

pub get-delete_self : (m : List (ℕ × ℕ)) (id : ℕ) → get (delete m id) id ≡ none
unfolding get delete
get-delete_self [] id = refl
get-delete_self ((j, c) ∷ m) id = ground (arith, get-delete_self m id)

pub get-set_self : (m : List (ℕ × ℕ)) (id c : ℕ) → get (set m id c) id ≡ some c
unfolding get set
get-set_self m id c = ground arith

pub get-set_ne : (m : List (ℕ × ℕ)) (id i c : ℕ) → i ≢ id → get (set m id c) i ≡ get m i
unfolding get set
get-set_ne m id i c n = ground (arith, get-delete_ne m id i n)

pub get-connections : (m : List (ℕ × ℕ)) (id c : ℕ) → get m id ≡ some c → In c (connections m)
unfolding get connections
get-connections [] id c e = absurd (cc e)
get-connections ((j, d) ∷ m) id c e = elim (Bool-cases (j == id)) [
  | inl here ↦ inl (ground (arith, here, e))
  | inr there ↦ inr (get-connections m id c (ground (arith, there, e)))
]

pub length-delete : (m : List (ℕ × ℕ)) (id : ℕ) → length (delete m id) ≤ length m
unfolding delete
length-delete [] id = omega arith
length-delete ((j, c) ∷ m) id = ground (arith, length-delete m id)

-- Of an entry that is there, deleting takes at least one.
pub length-delete-lt :
    (m : List (ℕ × ℕ)) (id c : ℕ) → get m id ≡ some c → suc (length (delete m id)) ≤ length m
unfolding get delete
length-delete-lt [] id c e = absurd (cc e)
length-delete-lt ((j, d) ∷ m) id c e = ground (arith, length-delete m id, length-delete-lt m id c)
