-- ===== src/Mux/Window/Receive/Steps.antt =====
-- The parts of Write and Read of receiveWindow: calcSize, sendStatus and the word.
use nps.Prelude.{
  ℕ, ◌+◌, ◌-◌, ◌%◌, ◌^◌, ◌<◌, ◌≡◌, refl, List, [], ◌∷◌, Bool, true, false, length, leb, ◌==◌, arith,
  Bool-cases, inl, inr,
}
use nps.Mux.Window.{u31_mod, unpack, pack, pack_done, unpack_bounds}
use nps.Mux.Window.Send.{Frame}
use nps.Mux.Window.Receive.Queue.{ReceiveQueue}
use nps.Mux.Window.Receive.Queue
use nps.Mux.Window.Receive.{
  ReceiveWindow, Estimate, calc_size, accept, send_status, remaining_size, granted, reports,
}
use nps.Mux.Window.Receive.Load.{read_of, reported}

-- A change of the word alone, with what is sent to the peer.
abbrev pub reword : ReceiveWindow → ℕ → ReceiveWindow
reword w word = record w { max_size_done = word }

pub record Rewords (w : ReceiveWindow) (r : ReceiveWindow × List ℕ) (read : ℕ) : Type 0 where
  pub word : ℕ
  pub credits : List ℕ
  pub result : r ≡ (reword w word, credits)
  pub progress : (unpack word).1 + reported credits ≡ read

pub calc_size-Rewords :
    (w : ReceiveWindow) (e : Estimate)
    → (word : ℕ) × (below : ℕ) × (calc_size w e ≡ record w { max_size_done = word; below = below })
      × ((unpack word).1 ≡ read_of w)
unfolding calc_size
calc_size-Rewords w e = elim (Bool-cases (w.below == 0)) [
  | inl due ↦
      let (size, read, wait) = unpack w.max_size_done in
      (
        pack (granted size e) read wait,
        9,
        ground arith,
        pack_done (granted size e) read wait (unpack_bounds w.max_size_done).1,
      )
  | inr later ↦ (w.max_size_done, w.below - 1, ground arith, refl)
]

-- The status after an element reports all that was read, or keeps the count of it; with an empty
-- queue it reports.
pub send_status-Rewords :
    (w : ReceiveWindow) (l : ℕ)
    → read_of w + l < u31_mod
    → (s : Rewords w (send_status w l) (read_of w + l)) × (w.queue.length ≡ 0
        → (unpack s.word).1 ≡ 0)
unfolding send_status
send_status-Rewords w l small = elim (Bool-cases (reports wait remain max_size (read + l))) [
  | inl now ↦ (
    record {
      word = pack max_size 0 false;
      credits = pack max_size (read + l) false ∷ [];
      result = ground (arith, fits);
      progress = omega (
        arith,
        pack_done max_size 0 false (omega arith),
        pack_done max_size (read + l) false small,
      );
    },
    λ none_queued. pack_done max_size 0 false (omega arith),
  )
  | inr later ↦ (
    record {
      word = pack max_size (read + l) wait;
      credits = [];
      result = ground (arith, fits);
      progress = omega (arith, pack_done max_size (read + l) wait small);
    },
    λ none_queued. absurd (ground arith),
  )
]
  where
    max_size : ℕ
    max_size = (unpack w.max_size_done).0

    read : ℕ
    read = (unpack w.max_size_done).1

    wait : Bool
    wait = (unpack w.max_size_done).2

    remain : ℕ
    remain = remaining_size w max_size 0

    fits : leb read ((read + l) % 2 ^ 32 % u31_mod) ≡ true
    fits = ground arith

pub accept-Rewords :
    (w : ReceiveWindow) (f : Frame)
    → Rewords (record w { queue = Queue.push w.queue f }) (accept w f) (read_of w)
unfolding accept
accept-Rewords w f = elim (Bool-cases wait) [
  | inl waiting_peer ↦ record {
    word = w.max_size_done;
    credits = [];
    result = ground arith;
    progress = omega arith;
  }
  | inr open_peer ↦ elim (Bool-cases (remaining_size w max_size (length f.buf) == 0)) [
    | inl full ↦ record {
      word = pack max_size read true;
      credits = [];
      result = ground arith;
      progress = omega (arith, pack_done max_size read true bound);
    }
    | inr room ↦ record {
      word = pack max_size 0 false;
      credits = pack max_size read false ∷ [];
      result = ground arith;
      progress =
          omega
            (arith, pack_done max_size read false bound, pack_done max_size 0 false (omega arith));
    }
  ]
]
  where
    max_size : ℕ
    max_size = (unpack w.max_size_done).0

    read : ℕ
    read = (unpack w.max_size_done).1

    wait : Bool
    wait = (unpack w.max_size_done).2

    bound : read < u31_mod
    bound = (unpack_bounds w.max_size_done).1
