-- ===== src/Tests/Rates.antt =====
-- A limit of 3 under a parent without a limit.
use nps.Prelude.{refl, List, [], ◌∷◌, true}
use nps.Rate.{pos, negsuc, new_rate, new_standalone, Asked, get}
use nps.Rate.Charges.{AllServed, get-AllServed}

abbrev chain : List Asked
chain =
    record { rate = new_standalone 100 (pos 3); now = 200; waits = true ∷ true ∷ true ∷ [] }
    ∷ record { rate = new_rate (negsuc 0); now = 200; waits = [] }
    ∷ []

get-AllServed_example : AllServed 7 chain (get (pos 7) chain)
unfolding new_rate new_standalone
get-AllServed_example = get-AllServed 6 chain (refl, (refl, tt))
