-- ===== src/Tests/Peers.antt =====
-- The candidates for a client at a public address.
use nps.Prelude.{◌+◌, ◌*◌, ◌^◌, ◌≡◌, Option, none, some, List, [], ◌∷◌, ◌++◌, true, false, not}
use nps.Net.{Addr, v4, v6}
use nps.Candidates.{Families, order_candidates}
use nps.Candidates.Ordered.{
  usable, distinct, filter, goes_last, is_client_outside, order_candidates-filter,
}

abbrev four_only : Families
four_only = record { four = true; six = false }

abbrev explicit : List (Option Addr)
explicit = some (v4 (10 * 2 ^ 24 + 1)) ∷ some (v4 (8 * 2 ^ 24 + 8)) ∷ []

abbrev auto : List (Option Addr)
auto = some (v4 (8 * 2 ^ 24 + 8)) ∷ some (v6 9) ∷ none ∷ []

abbrev client : Option Addr
client = some (v4 (9 * 2 ^ 24 + 9))

order_candidates-filter_example :
    let all = distinct [] (usable four_only false explicit ++ usable four_only true auto) in
    order_candidates explicit auto client four_only
    ≡ filter (λ a. not (goes_last (is_client_outside client) a)) all
      ++ filter (goes_last (is_client_outside client)) all
order_candidates-filter_example = order_candidates-filter explicit auto client four_only
