-- ===== src/Acl/Level/First.antt =====
-- Decide and Allows of lib/acl/acl.go: the same answer, and the first level that denies.
use nps.Prelude.{ℕ, ◌≡◌, refl, Option, none, some, List, Bool, true, false, Bool-cases, inl, inr}
use nps.Text.{Text}
use nps.Acl.{Env}
use nps.Acl.Source.{Source}
use nps.Acl.Level.{skips, allows, decide_levels}

-- What a decision says of three levels.
pub data Says (env : Env) (text : Text) (server client entry : Option Source)
    : Bool → Option ℕ → Type 0 where
  all_allow :
      skips env server text ≡ true
      → skips env client text ≡ true
      → skips env entry text ≡ true
      → Says env text server client entry true none
  server_denies : skips env server text ≡ false → Says env text server client entry false (some 0)
  client_denies :
      skips env server text ≡ true
      → skips env client text ≡ false
      → Says env text server client entry false (some 1)
  entry_denies :
      skips env server text ≡ true
      → skips env client text ≡ true
      → skips env entry text ≡ false
      → Says env text server client entry false (some 2)

-- Decide allows exactly when Allows does; it then names no level, and otherwise the first of the
-- three levels that does not allow the address.
pub decide_levels-allows :
    (env : Env) (text : Text) (names : List Text) (server client entry : Option Source)
    → let d = decide_levels env text names server client entry in
      (d.allowed ≡ allows env text server client entry)
      × Says env text server client entry d.allowed d.level
unfolding decide_levels allows
decide_levels-allows env text names server client entry =
    elim (Bool-cases (skips env server text)) [
      | inr a ↦ rw a (refl, server_denies a)
      | inl a ↦ rw a (elim (Bool-cases (skips env client text)) [
        | inr b ↦ rw b (refl, client_denies a b)
        | inl b ↦ rw b (elim (Bool-cases (skips env entry text)) [
          | inr c ↦ rw c (refl, entry_denies a b c)
          | inl c ↦ rw c (refl, all_allow a b c)
        ])
      ])
    ]
