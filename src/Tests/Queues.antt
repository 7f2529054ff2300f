-- ===== src/Tests/Queues.antt =====
-- Short runs of the rings, the chains and the queue by urgency.
use nps.Prelude.{ℕ, ◌^◌, ◌≡◌, refl, List, [], ◌∷◌, false, arith}
use nps.Mux.Packet.{Packet}
use nps.Mux.Chain
use nps.Mux.Chain.{Chain}
use nps.Mux.Chain.Contains.{new-Contains, push-Contains, pop-Pops, Pops}
use nps.Mux.Accept
use nps.Mux.Accept.Order
use nps.Mux.Accept.Order.{run-list}
use nps.Mux.Priority
use nps.Mux.Priority.{Queue, push_locked, try_pop, max_starving}
use nps.Mux.Priority.Refine.{new-Shows, push_locked-Shows}
use nps.Mux.Priority.Views.{View, Shows}
use nps.Mux.Priority.Fair.{Event, popping, run, run_view, run-Shows, ServedWithin, within}

abbrev chain : Chain ℕ
chain = Chain.new (2 ^ 2)

pop-Pops_example : Pops {A = ℕ} (5 ∷ []) (Chain.pop (Chain.push chain 5))
pop-Pops_example =
    pop-Pops (Chain.push chain 5) (5 ∷ [])
      (push-Contains chain [] 5 (new-Contains ℕ 2 (omega arith)))

abbrev waiting : Accept.ConnQueue
waiting = record { chain = Chain.push chain 5; stop = false }

abbrev some_events : List Order.Event
some_events = Order.arrives 6 ∷ Order.accepts ∷ Order.ends ∷ Order.accepts ∷ Order.accepts ∷ []

run-list_example : Order.run waiting some_events ≡ Order.run_list false (5 ∷ []) some_events
run-list_example =
    run-list some_events waiting (5 ∷ [])
      (push-Contains chain [] 5 (new-Contains ℕ 2 (omega arith)))

abbrev opening : Packet
opening = record { flag = 6; id = 1; window = 0; size = 0; content = [] }

abbrev message : Packet
message = record { flag = 3; id = 1; window = 0; size = 1; content = 9 ∷ [] }

abbrev busy : Queue
busy = push_locked (push_locked Priority.new message) opening

abbrev view : View
view = record { highest = []; middle = opening ∷ []; lowest = message ∷ []; starving = 0 }

busy-Shows : Shows busy view
unfolding Priority.is_ping Priority.is_opening
busy-Shows =
    push_locked-Shows (push_locked Priority.new message)
      (record { highest = []; middle = []; lowest = message ∷ []; starving = 0 }) opening
      (push_locked-Shows Priority.new
        (record { highest = []; middle = []; lowest = []; starving = 0 }) message new-Shows)

abbrev nine_pops : List Event
nine_pops =
    popping ∷ popping ∷ popping ∷ popping ∷ popping ∷ popping ∷ popping ∷ popping ∷ popping ∷ []

run-Shows_example : run busy nine_pops ≡ run_view view nine_pops
run-Shows_example = run-Shows busy view nine_pops busy-Shows

within_example : ServedWithin 8 message (run busy nine_pops)
within_example =
    within busy view nine_pops message [] busy-Shows refl refl
      (tt, (tt, (tt, (tt, (tt, (tt, (tt, (tt, (tt, tt))))))))) (omega arith) (omega arith)
