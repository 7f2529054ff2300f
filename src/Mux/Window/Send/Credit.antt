-- ===== src/Mux/Window/Send/Credit.antt =====
-- SetSize of sendWindow (lib/nps_mux/conn.go): the window after it, and the wake-up.
use native.Mathlib.Decide.{dec_lt}
use nps.Prelude.{
  ℕ, ◌+◌, ◌-◌, ◌≤◌, ◌<◌, ◌≡◌, ◌∙◌, Bool, true, false, ◌&&◌, ◌||◌, not, ltb, ◌==◌, if◌then◌else◌,
  arith, Bool-cases, inl, inr, ◌⊎◌,
}
use nps.Mux.Window.{unpack, pack, pack_parts, unpack_bounds}
use nps.Mux.Window.Send.{SendWindow, remaining_size, set_size}
use nps.Mux.Window.Send.Laws.{size_of, sent_of, waits}

-- What SetSize makes of an announced size and an amount of bytes read.
abbrev pub stays : SendWindow → ℕ → ℕ → Bool
stays w current_max read = ltb (sent_of w) read || (read == 0 && current_max == size_of w)

abbrev rewait : SendWindow → ℕ → Bool
rewait w current =
    remaining_size (unpack current).0 (sent_of w - (unpack current).1) == 0 && waits w

abbrev slid : SendWindow → ℕ → SendWindow
slid w current = record w {
  max_size_done = pack (unpack current).0 (sent_of w - (unpack current).1) (rewait w current);
  token = if waits w && not (rewait w current) then true else w.token;
}

set_size-slid :
    (w : SendWindow) (current : ℕ)
    → w.closed ≡ false
    → stays w (unpack current).0 (unpack current).1 ≡ false
    → set_size w current ≡ (false, slid w current)
unfolding set_size
set_size-slid w current c moves = ground arith

pub set_size-stays :
    (w : SendWindow) (current : ℕ)
    → w.closed ≡ false
    → stays w (unpack current).0 (unpack current).1 ≡ true
    → set_size w current ≡ (false, w)
unfolding set_size
set_size-stays w current c stay = ground arith

slid_parts :
    (w : SendWindow) (current : ℕ)
    → (size_of (slid w current) ≡ (unpack current).0)
      × (sent_of (slid w current) ≡ sent_of w - (unpack current).1)
      × (waits (slid w current) ≡ rewait w current)
slid_parts w current =
    pack_parts (unpack current).0 (sent_of w - (unpack current).1) (rewait w current)
      (unpack_bounds current).0 (omega (arith, unpack_bounds w.max_size_done))

-- If the window is open and the acknowledgement neither reports more than was sent nor repeats
-- the size with nothing read, SetSize takes over the announced size and takes the bytes read off
-- the count.
set_size-slides :
    (w : SendWindow) (current : ℕ)
    → w.closed ≡ false
    → stays w (unpack current).0 (unpack current).1 ≡ false
    → let w' = (set_size w current).1 in
      (size_of w' ≡ (unpack current).0) × (sent_of w' + (unpack current).1 ≡ sent_of w)
set_size-slides w current c moves =
    rw (set_size-slid w current c moves)
      ((slid_parts w current).0, omega (arith, slid_parts w current, read_le))
  where
    read_le : (unpack current).1 ≤ sent_of w
    read_le = ground arith

slid-wakes :
    (w : SendWindow) (current : ℕ)
    → waits w ≡ true
    → ((waits (slid w current) ≡ true) × (size_of (slid w current) ≤ sent_of (slid w current)))
      ⊎ ((waits (slid w current) ≡ false)
          × (sent_of (slid w current) < size_of (slid w current))
          × ((slid w current).token ≡ true))
slid-wakes w current waiting_now =
    elim (dec_lt (sent_of w - (unpack current).1) (unpack current).0) [
      | yes open_room ↦ inr (
        (slid_parts w current).2 ∙ rewait_no open_room,
        omega (arith, slid_parts w current),
        ground (arith, rewait_no open_room),
      )
      | no full ↦
          inl ((slid_parts w current).2 ∙ rewait_yes full, omega (arith, slid_parts w current))
    ]
  where
    rewait_no : sent_of w - (unpack current).1 < (unpack current).0 → rewait w current ≡ false
    rewait_no open_room = ground (arith, unpack_bounds current, unpack_bounds w.max_size_done)

    rewait_yes : ¬ (sent_of w - (unpack current).1 < (unpack current).0) → rewait w current ≡ true
    rewait_yes full = ground (arith, unpack_bounds current, unpack_bounds w.max_size_done)

-- If the window is open and used up and its writer waits, after SetSize either the writer still
-- waits and the window is still used up, or the wait bit is clear, there is room, and the wake-up
-- token is there.
pub set_size-wakes :
    (w : SendWindow) (current : ℕ)
    → w.closed ≡ false
    → waits w ≡ true
    → size_of w ≤ sent_of w
    → let w' = (set_size w current).1 in
      ((waits w' ≡ true) × (size_of w' ≤ sent_of w'))
      ⊎ ((waits w' ≡ false) × (sent_of w' < size_of w') × (w'.token ≡ true))
set_size-wakes w current c waiting_now full =
    elim (Bool-cases (stays w (unpack current).0 (unpack current).1)) [
      | inl stay ↦ rw (set_size-stays w current c stay) (inl (waiting_now, full))
      | inr moves ↦ rw (set_size-slid w current c moves) (slid-wakes w current waiting_now)
    ]

-- An acknowledgement of no more than what was sent takes exactly that off the count.
pub set_size-credit :
    (w : SendWindow) (current : ℕ)
    → w.closed ≡ false
    → (unpack current).1 ≤ sent_of w
    → let w' = (set_size w current).1 in
      (sent_of w' + (unpack current).1 ≡ sent_of w) × (w'.closed ≡ false)
set_size-credit w current c within =
    elim (Bool-cases (stays w (unpack current).0 (unpack current).1)) [
      | inl stay ↦ rw (set_size-stays w current c stay) (none_read stay, c)
      | inr moves ↦ ((set_size-slides w current c moves).1, rw (set_size-slid w current c moves) c)
    ]
  where
    none_read :
        stays w (unpack current).0 (unpack current).1 ≡ true
        → sent_of w + (unpack current).1 ≡ sent_of w
    none_read stay = ground arith
