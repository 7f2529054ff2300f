-- ===== src/Acl/GeoData/Reloads.antt =====
-- lib/acl/geodata.go: what SetGeoData and ReloadGeoData leave in use.
use nps.Prelude.{
  ℕ, ◌≡◌, ◌⊎◌, refl, sym, ap₂, ◌∙◌, Option, none, some, [], Bool, true, false, ◌&&◌, ◌==◌,
  Bool-cases, inl, inr,
}
use nps.Text.{Text, same}
use nps.Text.Table.{same-eq}
use nps.Acl.GeoData.{
  IpTable, SiteTable, Files, load_ip, load_site, if_changed, GeoData, same_path, with_ip, with_site,
  file_mod_time, read_files, reload, geo_files,
}

-- In use is the complete table that a file under the current path held when it was read.
abbrev pub LoadedIp : Files → GeoData → Type 0
LoadedIp files g = load_ip files (geo_files g).0 ≡ some (g.ip, g.ip_mod)

abbrev pub LoadedSite : Files → GeoData → Type 0
LoadedSite files g = load_site files (geo_files g).1 ≡ some (g.site, g.site_mod)

same_path-eq : (p q : Option (Text × Text)) → same_path p q ≡ true → p ≡ q
same_path-eq none none e = refl
same_path-eq none (some q) e = absurd (cc e)
same_path-eq (some p) none e = absurd (cc e)
same_path-eq (some (a, b)) (some (c, d)) e =
    let (here, there) = both (same a c) (same b d) e in
    ap₂ (λ x y. some (x, y)) (same-eq a c here) (same-eq b d there)
  where
    both : (x y : Bool) → x && y ≡ true → (x ≡ true) × (y ≡ true)
    both true y h = (refl, h)
    both false y h = absurd (cc h)

-- Nothing, or what the file holds
abbrev Sound {ℓ} : {A : Type ℓ} → Option A → Option A → Type ℓ
Sound o loaded = (o ≡ none) ⊎ (o ≡ loaded)

if_changed-Sound {ℓ} :
    {A : Type ℓ} (files : Files) (path : Text) (old : ℕ) (loaded : Option A)
    → Sound (if_changed files path old loaded) loaded
if_changed-Sound files path old loaded = elim (Bool-cases (file_mod_time files path == old)) [
  | inl unchanged ↦ rw unchanged (inl refl)
  | inr changed ↦ rw changed (inr refl)
]

paths : Option (Text × Text) → Text × Text
paths p = elim p [ none ↦ ([], []) | some q ↦ q ]

read_files-Sound :
    (files : Files) (p : Option (Text × Text)) (g : GeoData)
    → ((read_files files p g).path ≡ p)
      × Sound (read_files files p g).ip (load_ip files (paths p).0)
      × Sound (read_files files p g).site (load_site files (paths p).1)
unfolding read_files paths
read_files-Sound files none g = (refl, inl refl, inl refl)
read_files-Sound files (some (ip, site)) g =
    (refl, if_changed-Sound files ip g.ip_mod _, if_changed-Sound files site g.site_mod _)

-- What is in use after a table is put in place, or not
abbrev Kept : Option (IpTable × ℕ) → Option (SiteTable × ℕ) → GeoData → GeoData → Type 0
Kept ip site g g' =
    (g'.path ≡ g.path)
    × (((g'.ip ≡ g.ip) × (g'.ip_mod ≡ g.ip_mod)) ⊎ (ip ≡ some (g'.ip, g'.ip_mod)))
    × (((g'.site ≡ g.site) × (g'.site_mod ≡ g.site_mod)) ⊎ (site ≡ some (g'.site, g'.site_mod)))

loaded-some {ℓ} : {A : Type ℓ} {a : A} {loaded : Option A} → Sound (some a) loaded → loaded ≡ some a
loaded-some (inl e) = absurd (cc e)
loaded-some (inr e) = sym e

placed-Kept :
    (o : Option (IpTable × ℕ)) (p : Option (SiteTable × ℕ)) (ip : Option (IpTable × ℕ))
    (site : Option (SiteTable × ℕ)) (g : GeoData)
    → Sound o ip
    → Sound p site
    → Kept ip site g (with_site p (with_ip o g))
unfolding with_ip with_site
placed-Kept none none ip site g h k = (refl, inl (refl, refl), inl (refl, refl))
placed-Kept (some t) none ip site g h k = (refl, inr (loaded-some h), inl (refl, refl))
placed-Kept none (some u) ip site g h k = (refl, inl (refl, refl), inr (loaded-some k))
placed-Kept (some t) (some u) ip site g h k = (refl, inr (loaded-some h), inr (loaded-some k))

reload-Kept :
    (files : Files) (before g : GeoData)
    → Kept
        (load_ip files (paths g.path).0)
        (load_site files (paths g.path).1)
        g
        (reload files before g)
unfolding reload
reload-Kept files before g =
    let (named, ip, site) = read_files-Sound files before.path before in
    elim (Bool-cases (same_path g.path (read_files files before.path before).path)) [
      | inl same_one ↦
          let e = same_path-eq g.path _ same_one ∙ named in
          rw same_one (
            placed-Kept (read_files files before.path before).ip
              (read_files files before.path before).site (load_ip files (paths g.path).0)
              (load_site files (paths g.path).1) g (rw e ip) (rw e site))
      | inr other ↦ rw other (refl, inl (refl, refl), inl (refl, refl))
    ]

-- Whatever SetGeoData did while a reload read the files, the reload leaves the path as it is, and
-- for each kind leaves the data and its time, or puts in place a complete table with its time
-- that the file under the path in use gave.
pub reload-keeps :
    (files : Files) (before g : GeoData)
    → let g' = reload files before g in
      (g'.path ≡ g.path)
      × (((g'.ip ≡ g.ip) × (g'.ip_mod ≡ g.ip_mod)) ⊎ LoadedIp files g')
      × (((g'.site ≡ g.site) × (g'.site_mod ≡ g.site_mod)) ⊎ LoadedSite files g')
unfolding geo_files paths
reload-keeps files before g =
    let (same_one, ip, site) = reload-Kept files before g in
    (same_one, rw same_one ip, rw same_one site)
