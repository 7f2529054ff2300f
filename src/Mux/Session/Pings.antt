-- ===== src/Mux/Session/Pings.antt =====
-- The goroutine of Mux that pings (lib/nps_mux/mux.go): a peer that does not answer is given up.
use nps.Prelude.{
  ℕ, ◌+◌, ◌-◌, ◌%◌, ◌^◌, ◌≤◌, ◌<◌, ◌≡◌, refl, sym, ap, ◌∙◌, List, [], ◌∷◌, Bool, true, false,
  length, All, ltb, leb, arith, Bool-cases, inl, inr, subst, if_both,
}
use nps.Mux.Packet.{
  Packet, bytes, ok, set_packet, set_payload, set_content, has_content, maximum_segment_size,
  mux_ping_flag,
}
use nps.Mux.Priority
use nps.Mux.Session.{Mux, send_packet, send_result, send_info, close, close_open}
use nps.Mux.Session.ConnMap
use nps.Mux.Session.Arrivals.{tick}
use nps.Mux.Session.Roaming.{close_conns_down}

-- A text that fits a frame, as that of a time does.
abbrev pub IsText : List ℕ → Type 0
IsText now = (0 < length now) × (length now ≤ maximum_segment_size)

-- One tick after another, at these times.
unfoldable pub ticks : Mux → List (List ℕ) → Mux
ticks m [] = m
ticks m (now ∷ later) = ticks (tick m now) later

abbrev ping : List ℕ → Packet
ping now = record {
  flag = mux_ping_flag;
  id = 2 ^ 32 - 1;
  window = 0;
  size = length now % 2 ^ 16;
  content = now;
}

set-ping :
    (now : List ℕ) → IsText now → set_packet mux_ping_flag (2 ^ 32 - 1) (bytes now) ≡ ok (ping now)
unfolding set_packet set_payload set_content has_content
set-ping now h = ground (arith, h.0, h.1)

send-ping :
    (m : Mux) (now : List ℕ)
    → IsText now
    → send_info m mux_ping_flag (2 ^ 32 - 1) (bytes now) ≡ send_packet m (ping now)
unfolding send_info send_result
send-ping m now h = ap (send_result m) (set-ping now h)

sent-ping :
    (m : Mux) (now : List ℕ)
    → IsText now
    → m.is_close ≡ false
    → send_info m mux_ping_flag (2 ^ 32 - 1) (bytes now)
      ≡ (true, record m { write_queue = (Priority.push m.write_queue (ping now)).0 })
unfolding send_packet
sent-ping m now h up =
    send-ping m now h
    ∙ if_both
        (λ r. r ≡ (true, record m { write_queue = (Priority.push m.write_queue (ping now)).0 }))
        m.is_close (λ e. absurd (cc (up, e))) (λ e. refl)

-- The state between two ticks of a mux that is open.
record Counts (m : Mux) (threshold n : ℕ) : Type 0 where
  pub up : m.is_close ≡ false
  pub limit : m.ping_check_threshold ≡ threshold
  pub count : m.ping_check_time ≡ n

tick-Counts :
    (m : Mux) (now : List ℕ) (threshold n : ℕ)
    → IsText now
    → threshold < 2 ^ 32 - 1
    → n ≤ threshold
    → Counts m threshold n
    → Counts (tick m now) threshold (n + 1)
unfolding tick
tick-Counts m now threshold n h small within k =
    if_both (λ (r : Mux). Counts r threshold (n + 1)) m.is_close (λ e. absurd (cc (e, k.up)))
      λ e.
        if_both (λ (r : Mux). Counts r threshold (n + 1))
          (ltb m.ping_check_threshold m.ping_check_time)
          (λ over. absurd (ground (arith, over, k.limit, k.count)))
          (λ fine.
            subst
              (λ (r : Bool × Mux).
                Counts (record r.1 { ping_check_time = (r.1.ping_check_time + 1) % 2 ^ 32 })
                  threshold (n + 1))
              (sym (sent-ping m now h k.up))
              (record { up = k.up; limit = k.limit; count = omega (arith, k.count) }))

tick-gives_up :
    (m : Mux) (now : List ℕ) (threshold n : ℕ)
    → threshold < n
    → Counts m threshold n
    → (tick m now).is_close ≡ true
unfolding tick close close_open
tick-gives_up m now threshold n over k =
    if_both (λ (r : Mux). r.is_close ≡ true) m.is_close (λ e. absurd (cc (e, k.up)))
      λ e.
        if_both (λ (r : Mux). r.is_close ≡ true) (ltb m.ping_check_threshold m.ping_check_time)
          (λ late.
            if_both (λ (r : Bool × Mux). r.1.is_close ≡ true) m.is_close (λ down. down)
              (λ up. close_conns_down _ (ConnMap.connections m.conn_map)))
          (λ fine. absurd (ground (arith, fine, k.limit, k.count)))

tick-closed : (m : Mux) (now : List ℕ) → m.is_close ≡ true → tick m now ≡ m
unfolding tick
tick-closed m now e = if_both (λ k. k ≡ m) m.is_close (λ h. refl) (λ h. absurd (cc (h, e)))

ticks-closed :
    (later : List (List ℕ)) (m : Mux) → m.is_close ≡ true → (ticks m later).is_close ≡ true
unfolding ticks
ticks-closed [] m e = e
ticks-closed (now ∷ later) m e =
    ap (λ k. (ticks k later).is_close) (tick-closed m now e) ∙ ticks-closed later m e

ticks-Counts :
    (later : List (List ℕ)) (m : Mux) (threshold n : ℕ)
    → All IsText later
    → threshold < 2 ^ 32 - 1
    → n ≤ threshold + 1
    → Counts m threshold n
    → (ticks m later).is_close ≡ leb (threshold + 2) (n + length later)
unfolding ticks
ticks-Counts [] m threshold n h small within k = k.up ∙ ground arith
ticks-Counts (now ∷ later) m threshold n h small within k = elim (Bool-cases (ltb threshold n)) [
  | inl over ↦
      ticks-closed later (tick m now) (tick-gives_up m now threshold n (ground (arith, over)) k)
      ∙ ground arith
  | inr fine ↦
      ticks-Counts later (tick m now) threshold (n + 1) h.1 small (ground (arith, fine))
        (tick-Counts m now threshold n h.0 small (ground (arith, fine)) k)
      ∙ ap (leb (threshold + 2)) (omega arith)
]

-- If a mux is open, its threshold is below 2 ^ 32 - 1, its count is at most one above the
-- threshold, and the texts of the times fit a frame, then after some ticks without an answer it
-- is closed exactly when the count and the ticks together are at least the threshold and two.
pub ticks-close :
    (m : Mux) (times : List (List ℕ))
    → m.is_close ≡ false
    → All IsText times
    → m.ping_check_threshold < 2 ^ 32 - 1
    → m.ping_check_time ≤ m.ping_check_threshold + 1
    → (ticks m times).is_close ≡ leb (m.ping_check_threshold + 2) (m.ping_check_time + length times)
ticks-close m times up h small within =
    ticks-Counts times m m.ping_check_threshold m.ping_check_time h small within
      record { up = up; limit = refl; count = refl }
