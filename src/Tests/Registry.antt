-- ===== src/Tests/Registry.antt =====
-- Addresses that are their own normal form, all valid.
use nps.Prelude.{ℕ, ◌≡◌, List, [], ◌∷◌, Bool, true, ◌&&◌, ◌||◌, ltb}
use nps.IpRegistry.{registered}
use nps.IpRegistry.Remaining.{
  Call, registers, revokes, clears, waits, calls, time_after, promises, registered-promise,
}

abbrev same : ℕ → ℕ
same address = address

abbrev anything : ℕ → Bool
anything address = true

abbrev some_calls : List (Call same anything)
some_calls = registers 3 9 10 ∷ waits 4 ∷ registers 0 9 20 ∷ clears (λ c. true) ∷ revokes 3 9 ∷ []

registered-promise_example :
    (registered same anything
      (calls same anything 0 [] some_calls)
      (time_after same anything 0 some_calls)
      3
      9).0
    ≡ true
      && (ltb
            (time_after same anything 0 some_calls)
            (promises same anything 0 (λ c i. 0) some_calls 3 9)
          || ltb
              (time_after same anything 0 some_calls)
              (promises same anything 0 (λ c i. 0) some_calls 0 9))
registered-promise_example = registered-promise same anything some_calls 3 9
