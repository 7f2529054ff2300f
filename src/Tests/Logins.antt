-- ===== src/Tests/Logins.antt =====
-- Three guesses from one address, and a challenge that is used twice.
use nps.Prelude.{ℕ, ◌≤◌, refl, List, [], ◌∷◌, arith}
use nps.Text.{codes}
use nps.Login.Attempts.{Limiter, default_policy, Digest, seconds}
use nps.Login.Attempts.Guesses.{Try, let_through, reserve_with-bound}
use nps.Login.Work.{Store}
use nps.Login.Work.Once.{Use, stores, consumes, successes, is_store, is_consume, consume-once}

abbrev plain : Digest
plain name = name

abbrev guess : ℕ → Try
guess time = record { ip = codes "10.0.0.9"; username = codes "admin"; time = time }

abbrev guesses : List Try
guesses = guess 5 ∷ guess (seconds 1) ∷ guess (seconds 2) ∷ []

abbrev start : Limiter
start = record { by_ip = []; by_username = []; capacity = 4096; next_cleanup = 0 }

reserve_with-bound_example : let_through default_policy plain (codes "10.0.0.9") start guesses ≤ 10
reserve_with-bound_example =
    reserve_with-bound default_policy plain 5 (codes "10.0.0.9") start guesses (omega arith) refl
      ((omega arith, omega arith), ((omega arith, omega arith), ((omega arith, omega arith), tt)))

abbrev challenges : Store
challenges = record { entries = []; capacity = 4096; next_cleanup = 0 }

abbrev uses : List Use
uses = stores (codes "n") 100 5 ∷ consumes (codes "n") 6 ∷ consumes (codes "n") 7 ∷ []

consume-once_example :
    successes (is_consume (codes "n")) challenges uses
    ≤ successes (is_store (codes "n")) challenges uses
consume-once_example = consume-once (codes "n") challenges uses refl
