-- ===== src/Tests/Quotas.antt =====
-- One client of a user with two slots.
use nps.Prelude.{ℕ, ◌≡◌, refl, [], ◌∷◌, none, some, ltb, if◌then◌else◌}
use nps.Quota.Users.{User, Registry, acquire_user, user_connections}
use nps.Quota.Slots.{acquire_global}
use nps.Quota.{Client, Shared, Race, get_conn, add_conn}
use nps.Quota.System.{
  Reaches, start, at_start, after_step, Step-Balanced, Reaches-Balanced, Reaches-no_leak,
}
use nps.Quota.Steps.{System, system, joins, gets, gives, Balanced}

abbrev users : Registry
users id = if ltb id 8 then some (record { max_conn = 2; now_conn = 1; rate = (0, 0) }) else none

abbrev shared : Shared
shared = record { users = users; global = record { max_conn = 5; now_conn = 4 } }

abbrev client : Client
client = record { max_conn = 3; user_id = 7; now_conn = 2; owners = 7 ∷ [] }

abbrev no_race : Race
no_race = record { user_limit = none; global_limit = none }

abbrev fresh : Client
fresh = record { max_conn = 3; user_id = 7; now_conn = 0; owners = [] }

abbrev one_client : System
one_client = record { clients = fresh ∷ []; shared = start.shared }

joined : Reaches one_client
joined = after_step start one_client at_start (joins [] start.shared 3 7)

abbrev connected_once : System
connected_once =
    system [] (get_conn fresh start.shared no_race).1 [] (get_conn fresh start.shared no_race).2

Step-Balanced_example : Balanced connected_once
Step-Balanced_example =
    Step-Balanced one_client connected_once (gets [] fresh [] start.shared no_race)
      (Reaches-Balanced one_client joined)

abbrev closed_again : System
closed_again =
    let c = (get_conn fresh start.shared no_race).1 in
    let s = (get_conn fresh start.shared no_race).2 in
    system [] (add_conn c s).0 [] (add_conn c s).1

Reaches-no_leak_example :
    (closed_again.shared.global.now_conn ≡ 0)
    × ((j : ℕ) → user_connections closed_again.shared.users j ≡ 0)
unfolding get_conn add_conn acquire_user acquire_global
Reaches-no_leak_example =
    Reaches-no_leak closed_again
      (after_step connected_once closed_again
        (after_step one_client connected_once joined (gets [] fresh [] start.shared no_race))
        (gives [] (get_conn fresh start.shared no_race).1 []
          (get_conn fresh start.shared no_race).2))
      (refl, tt)

abbrev served : User
served = record { max_conn = 2; now_conn = 2; rate = (0, 0) }
