-- ===== src/Tests/Sessions.antt =====
-- Runs of Mux/Session: two ends of a wire up to a connection, a half-closed stream, a mux that is
-- closed, and numbers and pings.
use nps.Prelude.{
  ℕ, ◌<◌, ◌≤◌, ◌≡◌, refl, List, [], ◌∷◌, none, some, true, false, inl, inr, subst, arith,
}
use nps.Mux.Packet.{set_packet, has_content}
use nps.Mux.Priority
use nps.Mux.Window.{unpack}
use nps.Mux.Window.Send.{Frame}
use nps.Mux.Window.Receive.{Estimate}
use nps.Mux.Session.ConnMap
use nps.Mux.Session.{idle, ended, Mux, new, close, conn_at, send_info, close_conn}
use nps.Mux.Session.Opening.{connect, settle, by_ok, get_id, begin}
use nps.Mux.Session.Accepting.{turn}
use nps.Mux.Session.Arrivals.{arrive, close_remote_input}
use nps.Mux.Session.Keeping.{Arriving}
use nps.Mux.Session.Roaming.{IsFree}
use nps.Mux.Session.Steps.{Reaches, begins, goes, connects, ends}
use nps.Mux.Session.Reading.{read_all}
use nps.Mux.Session.Numbers.{get_id-finds, range}
use nps.Mux.Session.Draining.{drained_after_close}
use nps.Mux.Session.Released.{released}
use nps.Mux.Session.Pings.{ticks, ticks-close}
use nps.Mux.Session.Isolated.{arrive-others}
use nps.Mux.Session.Settled.{Settles, settle-Settles}

-- Nothing is measured yet.
abbrev quiet : Estimate
quiet = record { bandwidth = 0; latency = 0; gain = none; limit = none }

-- A mux with one connection of its own, to which these bytes have come.
abbrev holding : List Frame → Mux
holding frames = record {
  is_close = false;
  write_queue = Priority.new;
  new_conn_queue = [];
  queue_stop = false;
  loop = idle;
  ping_check_time = 0;
  ping_check_threshold = 60;
  conns =
      record {
        id = 1;
        is_close = false;
        closing = false;
        status_ok = true;
        status_fail = false;
        drain_timer = false;
        sender = record { max_size_done = 0; closed = false; token = false };
        receiver = record {
          max_size_done = 0;
          queue = record { length = 5; items = frames; stopped = false };
          element = none;
          off = 0;
          below = 0;
          closed = false;
          input_closed = false;
        };
      }
      ∷ [];
  conn_map = (1, 0) ∷ [];
  id = 1;
}

abbrev two_frames : List Frame
two_frames =
    record { buf = 1 ∷ 2 ∷ 3 ∷ []; part = true } ∷ record { buf = 4 ∷ 5 ∷ []; part = false } ∷ []

abbrev rooms : List ℕ
rooms = 2 ∷ 2 ∷ 2 ∷ 2 ∷ 2 ∷ 2 ∷ []

drained_after_close_example :
    let (bs, m') = read_all (close_remote_input (holding two_frames) 0) 0 rooms in
    (bs ≡ 1 ∷ 2 ∷ 3 ∷ 4 ∷ 5 ∷ [])
    × ((conn_at m' 0).is_close ≡ true)
    × (ConnMap.get m'.conn_map 1 ≡ none)
unfolding conn_at unpack
drained_after_close_example =
    drained_after_close (holding two_frames) 0 rooms refl
      record {
        is_open = (refl, refl, refl);
        counted = refl;
        filled = (omega arith, (omega arith, tt));
        inside = tt;
        flushed = λ e. refl;
      }
      (omega arith)
      (omega arith, (omega arith, (omega arith, (omega arith, (omega arith, (omega arith, tt))))))
      (omega arith)

get_id-finds_example :
    (id : ℕ) × (get_id 3 ((1, 0) ∷ (2, 1) ∷ []) 0 ≡ some id)
    × (ConnMap.get ((1, 0) ∷ (2, 1) ∷ []) id ≡ none)
    × (0 < id)
    × (id ≤ range)
get_id-finds_example = get_id-finds ((1, 0) ∷ (2, 1) ∷ []) 0 (omega arith) (omega arith)

arrive-others_example :
    conn_at
      (arrive
        (holding two_frames)
        (record { flag = 7; id = 2; window = 0; size = 0; content = [] })
        quiet)
      0
    ≡ conn_at (holding two_frames) 0
unfolding ConnMap.get
arrive-others_example =
    arrive-others (holding two_frames)
      (record { flag = 7; id = 2; window = 0; size = 0; content = [] }) quiet 0
      (λ e. absurd (omega (arith, e))) (omega arith) (λ e. cc e)

settle-Settles_example : Settles (holding two_frames) 0 by_ok (settle (holding two_frames) 0 by_ok)
unfolding conn_at
settle-Settles_example = settle-Settles (holding two_frames) 0 by_ok refl

abbrev noon : List ℕ
noon = 49 ∷ 50 ∷ []

ticks-close_example : (ticks (new 1) (noon ∷ noon ∷ noon ∷ [])).is_close ≡ true
unfolding new
ticks-close_example =
    ticks-close (new 1) (noon ∷ noon ∷ noon ∷ []) refl
      ((omega arith, omega arith), ((omega arith, omega arith), ((omega arith, omega arith), tt)))
      (omega arith) (omega arith)

abbrev over : Mux
over = (close (connect (new 60)).1).1

over-Reaches : Reaches 60 over
unfolding new
over-Reaches =
    goes (connect (new 60)).1 over
      (goes (new 60) (connect (new 60)).1 begins
        (connects (new 60) λ id c e h. absurd (none_arrives c h)))
      (ends (connect (new 60)).1)
  where
    none_arrives : (c : ℕ) → Arriving (new 60) c → ⊥
    none_arrives c (inl h) = h
    none_arrives c (inr (inl h)) = subst IsFree h tt
    none_arrives c (inr (inr h)) = subst IsFree h tt

over-closed : over.is_close ≡ true
unfolding close connect new begin get_id ConnMap.get send_info set_packet has_content ConnMap.set
    close_conn conn_at
over-closed = refl

released_example :
    let m' = turn (turn over) in (m'.loop ≡ ended) × ((c : ℕ) → (conn_at m' c).is_close ≡ true)
released_example = released 60 over over-Reaches over-closed
