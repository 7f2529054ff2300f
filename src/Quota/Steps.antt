-- ===== src/Quota/Steps.antt =====
-- The system of all clients and settings, its steps, and when its counts are in balance.
use nps.Prelude.{ℕ, ◌+◌, ◌≤◌, ◌≡◌, List, [], ◌∷◌, ◌++◌, length, All}
use nps.Quota.Users.{set_user_limits, cleanup_user, user_connections}
use nps.Quota.Slots.{set_global_max_conn}
use nps.Quota.{Client, Shared, Race, get_conn, add_conn}
use nps.Quota.Balance.{share}

pub record System : Type 0 where
  pub clients : List Client
  pub shared : Shared

abbrev pub system : List Client → Client → List Client → Shared → System
system before c after s = record { clients = before ++ (c ∷ after); shared = s }

pub data Step : System → System → Type 0 where
  gets :
      (before : List Client) (c : Client) (after : List Client) (s : Shared) (race : Race)
      → Step
          (system before c after s)
          (system before (get_conn c s race).1 after (get_conn c s race).2)
  gives :
      (before : List Client) (c : Client) (after : List Client) (s : Shared)
      → Step (system before c after s) (system before (add_conn c s).0 after (add_conn c s).1)
  joins :
      (clients : List Client) (s : Shared) (max_conn user_id : ℕ)
      → Step
          (record { clients = clients; shared = s })
          (record {
            clients =
                record { max_conn = max_conn; user_id = user_id; now_conn = 0; owners = [] }
                ∷ clients;
            shared = s;
          })
  sets_global :
      (clients : List Client) (s : Shared) (limit : ℕ)
      → Step
          (record { clients = clients; shared = s })
          (record {
            clients = clients;
            shared = record s { global = set_global_max_conn s.global limit };
          })
  sets_user :
      (clients : List Client) (s : Shared) (id max upload download : ℕ)
      → Step
          (record { clients = clients; shared = s })
          (record {
            clients = clients;
            shared = record s { users = set_user_limits s.users id max upload download };
          })
  deletes_user :
      (clients : List Client) (s : Shared) (id : ℕ)
      → Step
          (record { clients = clients; shared = s })
          (record { clients = clients; shared = record s { users = cleanup_user s.users id } })

abbrev pub connections : List Client → ℕ
connections [] = 0
connections (c ∷ cs) = c.now_conn + connections cs

-- The connections that the clients hold for a user.
abbrev pub held_for : List Client → ℕ → ℕ
held_for [] j = 0
held_for (c ∷ cs) j = share c.owners j + held_for cs j

abbrev pub Owned : Client → Type 0
Owned c = length c.owners ≤ c.now_conn

-- Every slot that is counted belongs to a connection that a client still has.
pub record Balanced (y : System) : Type 0 where
  pub all : y.shared.global.now_conn ≡ connections y.clients
  pub owned : All Owned y.clients
  pub users : (j : ℕ) → user_connections y.shared.users j ≤ held_for y.clients j
