-- ===== src/Tests/Files.antt =====
-- A GeoIP file with one network, and a reload that finds a new one.
use nps.Prelude.{◌≡◌, ◌⊎◌, ◌*◌, ◌^◌, refl, none, some, [], ◌∷◌, map, arith}
use nps.Text.{codes}
use nps.Net.{v4}
use nps.Acl.Proto.Encoded.{put_items}
use nps.Acl.Geo.{parse_geo_ip}
use nps.Acl.Geo.Written.{Network, Category, category_entry, list_items, table, parse_geo_ip-written}
use nps.Acl.GeoData.{Files, GeoData, reload}
use nps.Acl.GeoData.Reloads.{LoadedIp, LoadedSite, reload-keeps}

abbrev network : Network
network = record { slice = 10 ∷ 0 ∷ 0 ∷ 0 ∷ []; addr = v4 (10 * 2 ^ 24); bits = 8 }

abbrev category : Category
category = record { name = codes "TEST"; networks = network ∷ [] }

parse_geo_ip-written_example :
    parse_geo_ip (put_items (list_items (map category_entry (category ∷ []))))
    ≡ some (table (map category_entry (category ∷ [])) [])
parse_geo_ip-written_example =
    parse_geo_ip-written category []
      (
        (
          refl,
          refl,
          ((refl, omega arith, (omega arith, (omega arith, tt))), tt),
          (omega arith, (omega arith, tt)),
        ),
        tt,
      )
      (omega arith, tt)

abbrev files : Files
files = record {
  ip_file = λ path. some ((codes "test", []) ∷ [], 9);
  site_file = λ path. none;
  mod_time = λ path. 9;
  clean = λ path. path;
}

abbrev in_use : GeoData
in_use = record {
  ip = [];
  site = [];
  path = some (codes "geoip.dat", codes "geosite.dat");
  ip_mod = 4;
  site_mod = 4;
}

reload-keeps_example :
    let g' = reload files in_use in_use in
    (g'.path ≡ in_use.path)
    × (((g'.ip ≡ in_use.ip) × (g'.ip_mod ≡ in_use.ip_mod)) ⊎ LoadedIp files g')
    × (((g'.site ≡ in_use.site) × (g'.site_mod ≡ in_use.site_mod)) ⊎ LoadedSite files g')
reload-keeps_example = reload-keeps files in_use in_use
