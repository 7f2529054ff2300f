-- ===== src/Text.antt =====
-- The parts of Go's package strings that the other modules use. A text is the list of its bytes, and
-- is ASCII as far as spaces and letters are concerned.
pub mod Find
pub mod Fields
pub mod Table
use Prim.Native.Char.{code}
use Prim.Native.String
use Prim.Native.String.{String}
use nps.Prelude.{
  ℕ, ◌+◌, ◌-◌, Option, none, some, List, [], ◌∷◌, ◌++◌, Bool, true, false, ◌&&◌, ◌||◌, not, length,
  drop, take, ltb, leb, ◌==◌, if◌then◌else◌,
}

abbrev pub Text : Type 0
Text = List ℕ

-- The bytes of a literal.
abbrev pub codes : String → Text
codes String.[] = []
codes (String.◌∷◌ c s) = code c ∷ codes s

abbrev pub same : Text → Text → Bool
same [] [] = true
same [] (c ∷ s) = false
same (c ∷ s) [] = false
same (c ∷ s) (d ∷ t) = c == d && same s t

abbrev pub is_empty : Text → Bool
is_empty [] = true
is_empty (c ∷ s) = false

-- unicode.IsSpace
abbrev pub is_space : ℕ → Bool
is_space c = leb 9 c && leb c 13 || c == 32

abbrev pub lower : ℕ → ℕ
lower c = if leb b'A' c && leb c b'Z' then c + 32 else c

-- ToLower
abbrev pub to_lower : Text → Text
to_lower [] = []
to_lower (c ∷ s) = lower c ∷ to_lower s

-- TrimLeftFunc, TrimRightFunc, and both
abbrev pub trim_left : (ℕ → Bool) → Text → Text
trim_left p [] = []
trim_left p (c ∷ s) = if p c then trim_left p s else c ∷ s

abbrev pub trim_right : (ℕ → Bool) → Text → Text
trim_right p [] = []
trim_right p (c ∷ s) = let rest = trim_right p s in if is_empty rest && p c then [] else c ∷ rest

abbrev pub trim : (ℕ → Bool) → Text → Text
trim p s = trim_right p (trim_left p s)

-- TrimSpace
abbrev pub trim_space : Text → Text
trim_space = trim is_space

-- HasPrefix, with the prefix first
abbrev pub starts : Text → Text → Bool
starts [] s = true
starts (c ∷ p) [] = false
starts (c ∷ p) (d ∷ s) = c == d && starts p s

-- TrimPrefix
abbrev pub trim_prefix : Text → Text → Text
trim_prefix p s = if starts p s then drop (length p) s else s

-- HasSuffix
abbrev pub ends : Text → Text → Bool
ends p s = leb (length p) (length s) && same (drop (length s - length p) s) p

-- TrimSuffix
abbrev pub trim_suffix : Text → Text → Text
trim_suffix p s = if ends p s then take (length s - length p) s else s
