-- ===== src/Acl/GeoData.antt =====
-- lib/acl/geodata.go: which geographic data is in use. A time of modification is a number, 0 for
-- none; the path is the pair of cleaned file names, or none when both are empty; a name has no zero
-- byte. Reading a file is a parameter. A reload reads its snapshot of the state at one moment and
-- commits at another, so that SetGeoData can run in between.
pub mod Reloads
use nps.Prelude.{
  ℕ, Option, none, some, List, [], ◌∷◌, Bool, true, false, ◌&&◌, ◌||◌, not, ◌==◌, if◌then◌else◌,
}
use nps.Text.{Text, same, is_empty, trim_space}
use nps.Net.{Prefix}
use nps.Acl.{Domain}

abbrev pub IpTable : Type 0
IpTable = List (Text × List (Option Prefix))

abbrev pub SiteTable : Type 0
SiteTable = List (Text × List Domain)

-- loadGeoIPFile and loadGeoSiteFile of a name that is not empty, fileModTime, and filepath.Clean
pub record Files : Type 0 where
  pub ip_file : Text → Option (IpTable × ℕ)
  pub site_file : Text → Option (SiteTable × ℕ)
  pub mod_time : Text → ℕ
  pub clean : Text → Text

-- loadGeoIPFile and loadGeoSiteFile: without a name there is nothing, and no error
unfoldable pub load_ip : Files → Text → Option (IpTable × ℕ)
load_ip files path = if is_empty path then some ([], 0) else files.ip_file path

unfoldable pub load_site : Files → Text → Option (SiteTable × ℕ)
load_site files path = if is_empty path then some ([], 0) else files.site_file path

-- geoData
pub record GeoData : Type 0 where
  pub ip : IpTable
  pub site : SiteTable
  pub path : Option (Text × Text)
  pub ip_mod : ℕ
  pub site_mod : ℕ

-- normalizeGeoPath
unfoldable pub normalize_path : Files → Text → Text
normalize_path files path =
    let trimmed = trim_space path in if is_empty trimmed then [] else files.clean trimmed

abbrev pub path_of : Text → Text → Option (Text × Text)
path_of ip site = if is_empty ip && is_empty site then none else some (ip, site)

abbrev pub same_path : Option (Text × Text) → Option (Text × Text) → Bool
same_path none none = true
same_path none (some q) = false
same_path (some p) none = false
same_path (some (a, b)) (some (c, d)) = same a c && same b d

-- The data of another configuration is dropped.
unfoldable pub moved : Option (Text × Text) → GeoData → GeoData
moved path g =
    if same_path g.path path
    then record g { path = path }
    else record { ip = []; site = []; path = path; ip_mod = 0; site_mod = 0 }

unfoldable pub with_ip : Option (IpTable × ℕ) → GeoData → GeoData
with_ip none g = g
with_ip (some (t, m)) g = record g { ip = t; ip_mod = m }

unfoldable pub with_site : Option (SiteTable × ℕ) → GeoData → GeoData
with_site none g = g
with_site (some (t, m)) g = record g { site = t; site_mod = m }

-- SetGeoData
unfoldable pub set_geo_data : Files → Text → Text → GeoData → GeoData
unfolding with_ip with_site
set_geo_data files ip_raw site_raw g =
    let ip = normalize_path files ip_raw in
    let site = normalize_path files site_raw in
    with_site (load_site files site) (with_ip (load_ip files ip) (moved (path_of ip site) g))

-- fileModTime
abbrev pub file_mod_time : Files → Text → ℕ
file_mod_time files path = if is_empty (trim_space path) then 0 else files.mod_time path

-- What a reload read for a path: for each kind none if the file did not change or did not load
pub record Reading : Type 0 where
  pub path : Option (Text × Text)
  pub ip : Option (IpTable × ℕ)
  pub site : Option (SiteTable × ℕ)

abbrev nothing_read : Option (Text × Text) → Reading
nothing_read path = record { path = path; ip = none; site = none }

abbrev pub if_changed {ℓ} : {A : Type ℓ} → Files → Text → ℕ → Option A → Option A
if_changed files path old loaded = if file_mod_time files path == old then none else loaded

unfoldable pub read_files : Files → Option (Text × Text) → GeoData → Reading
read_files files none g = nothing_read none
read_files files (some (ip, site)) g = record {
  path = some (ip, site);
  ip = if_changed files ip g.ip_mod (load_ip files ip);
  site = if_changed files site g.site_mod (load_site files site);
}

unfoldable pub commit : Reading → GeoData → GeoData
unfolding with_ip with_site
commit r g = if same_path g.path r.path then with_site r.site (with_ip r.ip g) else g

-- ReloadGeoData, from the state that it reads and the state that it finds under the lock
unfoldable pub reload : Files → GeoData → GeoData → GeoData
unfolding read_files commit
reload files before g = commit (read_files files before.path before) g

-- GeoDataConfigured
abbrev pub no_entries {ℓ} : {A : Type ℓ} → List A → Bool
no_entries [] = true
no_entries (x ∷ xs) = false

unfoldable pub configured : GeoData → Bool
configured g = not (no_entries g.ip) || not (no_entries g.site)

-- GeoFiles
unfoldable pub geo_files : GeoData → Text × Text
geo_files g = elim g.path [ none ↦ ([], []) | some p ↦ p ]
