-- ===== src/Mux/Session/Draining.antt =====
-- A connection that the peer has closed (closeRemoteInput, lib/nps_mux/conn.go) is read to its last
-- byte, and is closed by the read that finds the end.
use nps.Prelude.{
  ℕ, suc, ◌<◌, ◌≡◌, refl, sym, ap, ◌∙◌, List, [], ◌∷◌, ◌++◌, none, true, false, length, arith, All,
  subst, if_both, append-nil, length-append,
}
use nps.Mux.Window.{u31_mod}
use nps.Mux.Window.Receive.{ReceiveWindow, Read, Ending, returned, eof, waiting, stop}
use nps.Mux.Window.Receive
use nps.Mux.Window.Receive.Closing
use nps.Mux.Window.Receive.Load.{unread, load, IsLive}
use nps.Mux.Window.Receive.Draining.{HalfRead, goes_on, at_its_end, read-HalfRead}
use nps.Mux.Session.ConnMap
use nps.Mux.Session.ConnMap.{get-delete_self}
use nps.Mux.Session.{Conn, Mux, conn_at, put_conn, close_conn}
use nps.Mux.Session.Arrivals.{close_remote_input}
use nps.Mux.Session.Calls.{Got, after_end, taken}
use nps.Mux.Session.Tracked.{IsOpen}
use nps.Mux.Session.Roaming.{close_conn_rest, close_conn-unmapped}
use nps.Mux.Session.Reading.{
  bytes_of, read_all, put_self, read_all-closed, read-taken, answered, answered_self,
}

-- The state while the stream drains: open, and half closed with these bytes left.
record Draining (m : Mux) (c : ℕ) (id : ℕ) (left : List ℕ) : Type 0 where
  pub is_open : IsOpen m c
  pub id_is : (conn_at m c).id ≡ id
  pub window : ReceiveWindow
  pub half : (conn_at m c).receiver ≡ stop window
  pub live : IsLive window
  pub small : load window < u31_mod
  pub left_is : unread window ≡ left

-- The stream has ended.
abbrev IsOver : Mux → ℕ → ℕ → Type 0
IsOver m c id = ((conn_at m c).is_close ≡ true) × (ConnMap.get m.conn_map id ≡ none)

goes_on-Draining :
    (m : Mux) (c id : ℕ) (left : List ℕ) (r : Read) (w' : ReceiveWindow)
    → Draining m c id left
    → r.ending ≡ returned
    → r.window ≡ stop w'
    → IsLive w'
    → load w' < u31_mod
    → Draining (taken m c r).1 c id (unread w')
unfolding taken after_end
goes_on-Draining m c id left r w' d h at v small =
    subst (λ e. Draining (after_end (answered m c r) c e) c id (unread w')) (sym h)
      record {
        is_open = ap (λ k. k.is_close) self ∙ d.is_open;
        id_is = ap (λ k. k.id) self ∙ d.id_is;
        window = w';
        half = ap (λ k. k.receiver) self ∙ at;
        live = v;
        small = small;
        left_is = refl;
      }
  where
    self : conn_at (answered m c r) c ≡ record (conn_at m c) { receiver = r.window }
    self = answered_self m c r d.is_open

ends-IsOver :
    (m : Mux) (c id : ℕ) (left : List ℕ) (r : Read)
    → Draining m c id left
    → r.ending ≡ eof
    → IsOver (taken m c r).1 c id
unfolding taken after_end
ends-IsOver m c id left r d h =
    subst (λ e. IsOver (after_end (answered m c r) c e) c id) (sym h)
      (
        (close_conn_rest after c).0,
        subst (λ i. ConnMap.get (close_conn after c).conn_map i ≡ none) same_id
            (close_conn-unmapped after c open_after),
      )
  where
    self : conn_at (answered m c r) c ≡ record (conn_at m c) { receiver = r.window }
    self = answered_self m c r d.is_open

    closing : Conn
    closing = record (conn_at (answered m c r) c) {
      receiver = Closing.close_window (conn_at (answered m c r) c).receiver;
    }

    after : Mux
    after = put_conn (answered m c r) c closing

    put : conn_at after c ≡ closing
    put = put_self (answered m c r) c closing (ap (λ k. k.is_close) self ∙ d.is_open)

    open_after : IsOpen after c
    open_after = ap (λ k. k.is_close) put ∙ ap (λ k. k.is_close) self ∙ d.is_open

    same_id : (conn_at after c).id ≡ id
    same_id = ap (λ k. k.id) put ∙ ap (λ k. k.id) self ∙ d.id_is

-- The bytes that reads return are these, and the stream is over.
abbrev Ends : Mux → ℕ → ℕ → List ℕ → List ℕ × Mux → Type 0
Ends m c id left r = (r.0 ≡ left) × IsOver r.1 c id

abbrev followed : Got × Mux → ℕ → List ℕ → List ℕ × Mux
followed r c rooms = let (bs, m') = read_all r.1 c rooms in (bytes_of r.0 ++ bs, m')

stepped :
    (rooms : List ℕ) (m : Mux) (c id : ℕ) (left : List ℕ) (r : Read) (d : Draining m c id left)
    → ((m' : Mux) (left' : List ℕ)
        → Draining m' c id left'
        → length left' < length rooms
        → Ends m' c id left' (read_all m' c rooms))
    → length left < suc (length rooms)
    → HalfRead d.window r
    → Ends m c id left (followed (taken m c r) c rooms)
unfolding taken
stepped rooms m c id left r d rest enough (goes_on w' e at v small full order) =
    let all = order ∙ d.left_is in
    let (bytes, over) =
      rest (taken m c r).1 (unread w') (goes_on-Draining m c id left r w' d e at v small)
        (omega (arith, ap length all, length-append r.bytes (unread w'))) in
    (ap (◌++◌ r.bytes) bytes ∙ all, over)
stepped rooms m c id left r d rest enough (at_its_end e bytes) =
    let over = ends-IsOver m c id left r d e in
    let none_more = read_all-closed (taken m c r).1 c rooms over.0 in
    (
      ap (λ (t : List ℕ × Mux). r.bytes ++ t.0) none_more ∙ append-nil r.bytes ∙ bytes ∙ d.left_is,
      subst (λ (t : List ℕ × Mux). IsOver t.1 c id) (sym none_more) over,
    )

drained :
    (rooms : List ℕ) (m : Mux) (c id : ℕ) (left : List ℕ)
    → Draining m c id left
    → All (◌<◌ 0) rooms
    → length left < length rooms
    → Ends m c id left (read_all m c rooms)
unfolding read_all
drained [] m c id left d big enough = absurd (omega arith)
drained (room ∷ rooms) m c id left d big enough =
    subst (λ r. Ends m c id left (followed r c rooms)) (sym (read-taken m c room d.is_open big.0))
      (stepped rooms m c id left (Receive.read (conn_at m c).receiver room) d
        (λ m' left' d' enough'. drained rooms m' c id left' d' big.1 enough') enough
        (subst (λ w. HalfRead d.window (Receive.read w room)) (sym d.half)
          (read-HalfRead d.window room d.live d.small big.0)))

half_close-Draining :
    (m : Mux) (c : ℕ)
    → IsOpen m c
    → IsLive (conn_at m c).receiver
    → load (conn_at m c).receiver < u31_mod
    → Draining (close_remote_input m c) c (conn_at m c).id (unread (conn_at m c).receiver)
unfolding close_remote_input
half_close-Draining m c o v small =
    if_both (λ k. Draining k c (conn_at m c).id (unread (conn_at m c).receiver))
      (conn_at m c).is_close (λ h. absurd (cc (o, h)))
      λ h. record {
        is_open = ap (λ k. k.is_close) self ∙ o;
        id_is = ap (λ k. k.id) self;
        window = (conn_at m c).receiver;
        half = ap (λ k. k.receiver) self;
        live = v;
        small = small;
        left_is = refl;
      }
  where
    half_closed : Conn
    half_closed = record (conn_at m c) {
      closing = true;
      receiver = stop (conn_at m c).receiver;
      drain_timer = true;
    }

    self : conn_at (put_conn m c half_closed) c ≡ half_closed
    self = put_self m c half_closed o

-- If a connection is open and its receive window live with a load of less than 31 bits, then
-- after the peer has closed it, any reads into slices that are not empty, more of them than bytes
-- are unread, return exactly the unread bytes in order, and leave the connection closed and its
-- number out of the map.
pub drained_after_close :
    (m : Mux) (c : ℕ) (rooms : List ℕ)
    → (conn_at m c).is_close ≡ false
    → IsLive (conn_at m c).receiver
    → load (conn_at m c).receiver < u31_mod
    → All (◌<◌ 0) rooms
    → length (unread (conn_at m c).receiver) < length rooms
    → let (bs, m') = read_all (close_remote_input m c) c rooms in
      (bs ≡ unread (conn_at m c).receiver)
      × ((conn_at m' c).is_close ≡ true)
      × (ConnMap.get m'.conn_map (conn_at m c).id ≡ none)
drained_after_close m c rooms o v small big enough =
    let (bytes, over) =
      drained rooms (close_remote_input m c) c (conn_at m c).id (unread (conn_at m c).receiver)
        (half_close-Draining m c o v small) big enough in
    (bytes, over.0, over.1)
