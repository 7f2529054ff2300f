-- ===== src/Text/Find.antt =====
-- Searching and splitting of Go's package strings.
use nps.Prelude.{ℕ, Option, none, some, List, [], ◌∷◌, ◌++◌, Bool, false, ◌||◌, ◌==◌, if◌then◌else◌}
use nps.Text.{Text, is_empty, starts}

-- Contains, with the part first
abbrev pub contains : Text → Text → Bool
contains p [] = is_empty p
contains p (c ∷ s) = starts p (c ∷ s) || contains p s

abbrev pub any : (ℕ → Bool) → Text → Bool
any p [] = false
any p (c ∷ s) = p c || any p s

-- ContainsAny of a set of bytes
abbrev pub one_of : Text → ℕ → Bool
one_of [] c = false
one_of (d ∷ s) c = c == d || one_of s c

unfoldable pub prefix_with : ℕ → Option (Text × Text) → Option (Text × Text)
prefix_with c none = none
prefix_with c (some (before, after)) = some (c ∷ before, after)

-- The texts around the first byte, as IndexByte finds it, and around the last.
unfoldable pub cut : ℕ → Text → Option (Text × Text)
unfolding prefix_with
cut sep [] = none
cut sep (c ∷ s) = if c == sep then some ([], s) else prefix_with c (cut sep s)

last_or : ℕ → ℕ → Text → Option (Text × Text) → Option (Text × Text)
last_or sep c s (some (before, after)) = some (c ∷ before, after)
last_or sep c s none = if c == sep then some ([], s) else none

unfoldable pub cut_last : ℕ → Text → Option (Text × Text)
unfolding last_or
cut_last sep [] = none
cut_last sep (c ∷ s) = last_or sep c s (cut_last sep s)

unfoldable pub flush : Text → List Text → List Text
flush field fields = if is_empty field then fields else field ∷ fields

-- FieldsFunc: the fields that are not empty; `field` has been read before the text.
unfoldable pub fields_from : (ℕ → Bool) → Text → Text → List Text
unfolding flush
fields_from p field [] = flush field []
fields_from p field (c ∷ s) =
    let later = fields_from p [] s in
    if p c then flush field later else fields_from p (field ++ (c ∷ [])) s

unfoldable pub fields : (ℕ → Bool) → Text → List Text
unfolding fields_from
fields p s = fields_from p [] s

-- Split at a byte: one part more than there are separators
unfoldable pub split_from : ℕ → Text → Text → List Text
split_from sep part [] = part ∷ []
split_from sep part (c ∷ s) =
    let later = split_from sep [] s in
    let on = split_from sep (part ++ (c ∷ [])) s in if c == sep then part ∷ later else on

unfoldable pub split : ℕ → Text → List Text
unfolding split_from
split sep s = split_from sep [] s
