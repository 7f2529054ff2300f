-- ===== src/Tests/Routes.antt =====
-- Two entries of different users that one request could go to.
use nps.Prelude.{◌≡◌, refl, [], ◌∷◌, some, Bool, true, false, inl}
use nps.Text.{Text, codes}
use nps.Text.Find.{split}
use nps.Rate.{pos}
use nps.Hosts.Rules.{
  normalize_name, normalize_location, normalize_scheme, valid_rule, valid_name, all_labels,
  is_label, rule_matches, path_matches, without_slashes,
}
use nps.Hosts.Routes.{
  Client, Host, Request, same_owner, serves, is_route_conflict, get_info_by_host,
}
use nps.Hosts.Isolation.{IsStored, served-conflict}
use nps.Hosts.Best.{NotOutranking, IsServing, get_info_by_host-best}

abbrev no_ip : Text → Bool
no_ip t = false

abbrev first_user : Client
first_user = record { user_id = pos 1; id = pos 1 }

abbrev second_user : Client
second_user = record { user_id = pos 2; id = pos 2 }

abbrev wide : Host
wide = record {
  id = 1;
  host = codes "*.a.b";
  location = codes "/";
  scheme = codes "all";
  is_close = false;
  client = some first_user;
}

abbrev narrow : Host
narrow = record {
  id = 2;
  host = codes "x.a.b";
  location = codes "/p";
  scheme = codes "http";
  is_close = false;
  client = some second_user;
}

abbrev request : Request
request = record { host = codes "X.a.b"; scheme = codes "http"; uri = some (codes "/p?q") }

wide-IsStored : IsStored no_ip wide
unfolding normalize_name valid_rule normalize_location normalize_scheme valid_name all_labels split
    is_label without_slashes
wide-IsStored = record {
  name = refl;
  valid = refl;
  location = refl;
  from_root = refl;
  no_query = refl;
  scheme = refl;
}

narrow-IsStored : IsStored no_ip narrow
unfolding normalize_name valid_rule normalize_location normalize_scheme valid_name all_labels split
    is_label without_slashes
narrow-IsStored = record {
  name = refl;
  valid = refl;
  location = refl;
  from_root = refl;
  no_query = refl;
  scheme = refl;
}

serves-wide : serves request wide ≡ true
unfolding serves rule_matches normalize_name path_matches
serves-wide = refl

serves-narrow : serves request narrow ≡ true
unfolding serves rule_matches normalize_name path_matches
serves-narrow = refl

served-conflict_example : is_route_conflict no_ip wide (narrow ∷ []) ≡ true
unfolding same_owner
served-conflict_example =
    served-conflict no_ip request (codes "/p?q") wide narrow first_user second_user (narrow ∷ [])
      wide-IsStored narrow-IsStored refl refl refl refl (inl refl) refl serves-wide serves-narrow

get_info_by_host-best_example :
    IsServing request (wide ∷ narrow ∷ []) (get_info_by_host request (wide ∷ narrow ∷ []))
    × NotOutranking request wide (get_info_by_host request (wide ∷ narrow ∷ []))
get_info_by_host-best_example = get_info_by_host-best request (wide ∷ narrow ∷ []) wide (inl refl)
