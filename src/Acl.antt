-- ===== src/Acl.antt =====
-- lib/acl: the access lists of visitors (Source) and of destinations (Dest), in acl.go, and the
-- geographic data that their rules name, in geodata.go. A text is ASCII; what is outside is Env.
pub mod Rules
pub mod Wildcard
pub mod Source
pub mod Level
pub mod Dest
pub mod Proto
pub mod Geo
pub mod GeoData
use nps.Prelude.{ℕ, Option, List, Bool}
use nps.Text.{Text}
use nps.Net.{Prefix}

-- geoDomain: the kinds are keyword, regular expression, suffix and full, from 0 on
pub record Domain : Type 0 where
  pub kind : ℕ
  pub value : Text

-- The limit on rules, the data that is loaded, and the parsers of other packages: of the text of an
-- IPv6 address, and of a regular expression, which may fail.
pub record Env : Type 0 where
  pub max_rules : ℕ
  pub geo_ip : Text → List Prefix
  pub geo_site : Text → List Domain
  pub parse_v6 : Text → Option ℕ
  pub regexp : Text → Option (Text → Bool)
