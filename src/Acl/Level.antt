-- ===== src/Acl/Level.antt =====
-- lib/acl/acl.go: the text of a visitor's address, and the levels of policies (of the server, the
-- client and the entry) that must all allow it. A level without a policy is skipped.
pub mod First
use nps.Prelude.{
  zero, suc, ℕ, ◌+◌, Option, none, some, List, [], ◌∷◌, Bool, true, false, ◌&&◌, not, if◌then◌else◌,
}
use nps.Text.{Text, codes, trim, trim_space}
use nps.Text.Find.{one_of}
use nps.Net.{Addr, unmap}
use nps.Net.Parse.{parse_addr, split_host_port}
use nps.Acl.{Env}
use nps.Acl.Source.{Source, allows_source, allows_addr}

host_or : Text → Option Text → Text
host_or text (some host) = host
host_or text none = trim (one_of (codes "[]")) text

unmapped : Option Addr → Option Addr
unmapped none = none
unmapped (some a) = some (unmap a)

-- addressOf and addressFromString
unfoldable pub address_of : Env → Text → Option Addr
unfolding host_or unmapped
address_of env raw =
    let text = trim_space raw in
    unmapped (parse_addr env.parse_v6 (host_or text (split_host_port text)))

allows_parsed : Env → Option Source → Option Addr → Bool
allows_parsed env s none = false
allows_parsed env s (some a) = allows_addr env s a

-- Allows and AllowsString of one policy
unfoldable pub allows_text : Env → Option Source → Text → Bool
unfolding allows_parsed
allows_text env s text = allows_parsed env s (address_of env text)

unfoldable pub skips : Env → Option Source → Text → Bool
skips env none text = true
skips env (some s) text = allows_text env (some s) text

-- Allows and AllowsString of three levels
unfoldable pub allows : Env → Text → Option Source → Option Source → Option Source → Bool
allows env text server client entry =
    if not (skips env server text)
    then false
    else if not (skips env client text)
    then false
    else skips env entry text

-- Decision; level -1 is none, and so is a name that is not given
pub record Decision : Type 0 where
  pub allowed : Bool
  pub level : Option ℕ
  pub name : Option Text

abbrev pub name_at : List Text → ℕ → Option Text
name_at [] i = none
name_at (n ∷ names) i = elim i [ zero ↦ some n | suc j ↦ name_at names j ]

unfoldable pub decide_from : Env → Text → List Text → ℕ → List (Option Source) → Decision
decide_from env text names i [] = record { allowed = true; level = none; name = none }
decide_from env text names i (s ∷ levels) =
    let later = decide_from env text names (i + 1) levels in
    if skips env s text
    then later
    else record { allowed = false; level = some i; name = name_at names i }

-- Decide and DecideString
unfoldable pub decide_levels :
    Env → Text → List Text → Option Source → Option Source → Option Source → Decision
unfolding decide_from
decide_levels env text names server client entry =
    decide_from env text names 0 (server ∷ client ∷ entry ∷ [])
