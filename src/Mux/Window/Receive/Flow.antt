-- ===== src/Mux/Window/Receive/Flow.antt =====
-- Write of receiveWindow (lib/nps_mux/conn.go) as a whole.
use nps.Prelude.{
  ℕ, ◌+◌, ◌<◌, ◌≡◌, refl, sym, ap, ◌∙◌, List, [], ◌∷◌, ◌++◌, false, length, arith, append_assoc,
  append-nil, All-append,
}
use nps.Mux.Window.{u31_mod, unpack}
use nps.Mux.Window.Send.{Frame}
use nps.Mux.Window.Receive.Queue.{ReceiveQueue}
use nps.Mux.Window.Receive.Queue
use nps.Mux.Window.Receive.{ReceiveWindow, Estimate, calc_size, accept, Write, wrote, write}
use nps.Mux.Window.Receive.Load.{
  total, content, total-append, content-append, read_of, load, left_in, unread, reported, NotEmpty,
  IsLive,
}
use nps.Mux.Window.Receive.Steps.{Rewords, calc_size-Rewords, accept-Rewords}

-- What a frame does to an open window.
pub record Takes (w : ReceiveWindow) (f : Frame) (r : Write) : Type 0 where
  pub window : ReceiveWindow
  pub credits : List ℕ
  pub result : r ≡ wrote window credits
  pub live : IsLive window
  pub load_kept : load window + reported credits ≡ load w + length f.buf
  pub in_order : unread window ≡ unread w ++ f.buf

-- The window with a frame at the end of its queue, whatever the word.
enqueued : ReceiveWindow → Frame → ℕ → ℕ → ReceiveWindow
enqueued w f word below = record w {
  max_size_done = word;
  below = below;
  queue = Queue.push w.queue f;
}

queued_items :
    (q : ReceiveQueue) (f : Frame)
    → q.stopped ≡ false
    → (Queue.push q f).items ≡ q.items ++ (f ∷ [])
unfolding Queue.push
queued_items q f s = ground arith

enqueued-IsLive :
    (w : ReceiveWindow) (f : Frame) (word below : ℕ)
    → IsLive w
    → 0 < length f.buf
    → load w + length f.buf < u31_mod
    → IsLive (enqueued w f word below)
      × (load (enqueued w f word below) + read_of w ≡ load w + length f.buf + (unpack word).1)
      × (unread (enqueued w f word below) ≡ unread w ++ f.buf)
unfolding enqueued Queue.push
enqueued-IsLive w f word below v pos small = (
  record {
    is_open = (v.is_open.0, v.is_open.1, rw open_queue refl);
    counted = rw open_queue (omega (arith, counts, v.counted));
    filled = rw open_queue (All-append NotEmpty w.queue.items (f ∷ []) v.filled (pos, tt));
    inside = v.inside;
    flushed = rw open_queue (λ e. absurd (omega (arith, counts)));
  },
  rw open_queue (omega (arith, counts)),
  rw open_queue (
      ap (◌++◌ (left_in w.off w.element)) contents
      ∙ sym (append_assoc (left_in w.off w.element) (content w.queue.items) f.buf)),
)
  where
    open_queue : w.queue.stopped ≡ false
    open_queue = v.is_open.2

    counts : total (w.queue.items ++ (f ∷ [])) ≡ total w.queue.items + length f.buf
    counts = omega (arith, total-append w.queue.items (f ∷ []))

    contents : content (w.queue.items ++ (f ∷ [])) ≡ content w.queue.items ++ f.buf
    contents =
        content-append w.queue.items (f ∷ []) ∙ ap (◌++◌ (content w.queue.items)) (append-nil f.buf)

-- If a receive window is live, the frame is not empty, and the load with the frame fits in 31
-- bits, Write takes the frame: its bytes come behind the unread ones, and the load with what is
-- reported grows by its length.
pub write-Takes :
    (w : ReceiveWindow) (f : Frame) (e : Estimate)
    → IsLive w
    → 0 < length f.buf
    → load w + length f.buf < u31_mod
    → Takes w f (write w f e)
unfolding write enqueued
write-Takes w f e v pos small =
    let (word, below, resized, same) = calc_size-Rewords w e in
    let s : Rewords (enqueued w f word below) (accept (calc_size w e) f) (read_of w) =
      written word below resized same in
    let (live, loaded, ordered) = enqueued-IsLive w f s.word below v pos small in
    record {
      window = enqueued w f s.word below;
      credits = s.credits;
      result = ground (arith, s.result, v.is_open);
      live = live;
      load_kept = omega (arith, loaded, s.progress);
      in_order = ordered;
    }
  where
    written :
        (word below : ℕ)
        → calc_size w e ≡ record w { max_size_done = word; below = below }
        → (unpack word).1 ≡ read_of w
        → Rewords (enqueued w f word below) (accept (calc_size w e) f) (read_of w)
    written word below resized same =
        rw (resized, ← same) (accept-Rewords (record w { max_size_done = word; below = below }) f)
