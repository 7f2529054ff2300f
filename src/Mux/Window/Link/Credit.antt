-- ===== src/Mux/Window/Link/Credit.antt =====
-- Runs of a link: what the sender counts, and the bytes from the writer to the reader.
use nps.Prelude.{
  ℕ, ◌+◌, ◌<◌, ◌≡◌, refl, sym, ap, ap₂, ◌∙◌, List, [], ◌∷◌, ◌++◌, false, length, take, All,
  All-append, ◌*◌, subst, append_assoc, append-nil, arith, length-take,
}
use nps.Mux.Window.{u31_mod, unpack, pack, pack_done, unpack_bounds}
use nps.Mux.Packet.{maximum_segment_size}
use nps.Mux.Window.Send
use nps.Mux.Window.Send.{
  SendWindow, Frame, WriteTo, closed_window, drained, spins, blocked, segment, write_to, set_size,
}
use nps.Mux.Window.Send.Laws.{sent_of, Sends, drains, breaks, blocks, cuts, write_to-Sends}
use nps.Mux.Window.Send.Credit.{set_size-credit}
use nps.Mux.Window.Receive
use nps.Mux.Window.Receive.{ReceiveWindow, Estimate, Write, refused, wrote, write, Read, read}
use nps.Mux.Window.Receive.Load.{
  total, content, total-append, content-append, load, unread, reported, reported-append, NotEmpty,
}
use nps.Mux.Window.Receive.Flow.{write-Takes}
use nps.Mux.Window.Receive.Reading.{read-Reads}
use nps.Mux.Window.Link
use nps.Mux.Window.Link.{
  Link, Move, writes, delivers, acknowledges, reads, after_write, after_delivery, after_read,
  deliver, acknowledge, step, run,
}
use nps.Mux.Window.Link.Healthy.{Healthy, load-all_read, cuts-sent, parked-sent}

wrote_on :
    (k : Link) (rest : List ℕ) (r : WriteTo)
    → Sends k.sender rest r
    → Healthy k
    → Healthy (after_write k r)
unfolding after_write
wrote_on k rest _ drains h = h
wrote_on k rest _ breaks h = h
wrote_on k rest _ (blocks full) h = record {
  is_open = h.is_open;
  live = h.live;
  filled = h.filled;
  counted = parked-sent k.sender ∙ h.counted;
  in_order = h.in_order;
}
wrote_on k rest _ (cuts n part pos small inside room) h = record {
  is_open = h.is_open;
  live = h.live;
  filled = All-append NotEmpty k.frames (f ∷ []) h.filled (omega (arith, n_long), tt);
  counted =
      omega (arith, cuts-sent k.sender n room, h.counted, n_long, total-append k.frames (f ∷ []));
  in_order =
      ap (λ s. s ++ f.buf) h.in_order
      ∙ append_assoc k.got (unread k.receiver ++ content k.frames) f.buf
      ∙ ap (◌++◌ k.got) (
          append_assoc (unread k.receiver) (content k.frames) f.buf
          ∙ ap (◌++◌ (unread k.receiver)) (
              ap (◌++◌ (content k.frames)) (sym (append-nil f.buf))
              ∙ sym (content-append k.frames (f ∷ []))));
}
  where
    f : Frame
    f = record { buf = take n rest; part = part }

    n_long : length f.buf ≡ n
    n_long = omega (arith, length-take n rest)

load_small : (k : Link) → Healthy k → total k.frames + load k.receiver < u31_mod
load_small k h = omega (arith, h.counted, unpack_bounds k.sender.max_size_done)

delivered :
    (k : Link) (fs : List Frame) (e : Estimate)
    → k.frames ≡ fs
    → Healthy k
    → Healthy (deliver k fs e)
unfolding deliver after_delivery
delivered k [] e same h = h
delivered k (f ∷ fs) e same h =
    let each : NotEmpty f × All NotEmpty fs = subst (All NotEmpty) same h.filled in
    let counts : total k.frames ≡ length f.buf + total fs = ap total same in
    let t = write-Takes k.receiver f e h.live each.0 (omega (arith, load_small k h, counts)) in
    rw t.result (record {
      is_open = h.is_open;
      live = t.live;
      filled = each.1;
      counted = omega (arith, h.counted, counts, t.load_kept, reported-append k.acks t.credits);
      in_order =
          h.in_order
          ∙ ap (λ fs. k.got ++ (unread k.receiver ++ content fs)) same
          ∙ ap (◌++◌ k.got) (
              sym (append_assoc (unread k.receiver) f.buf (content fs))
              ∙ ap (λ s. s ++ content fs) (sym t.in_order));
    })

acknowledged : (k : Link) (as_ : List ℕ) → k.acks ≡ as_ → Healthy k → Healthy (acknowledge k as_)
unfolding acknowledge
acknowledged k [] same h = h
acknowledged k (a ∷ rest) same h =
    let (sent, still_open) =
      set_size-credit k.sender a h.is_open (omega (arith, h.counted, ap reported same)) in
    record {
      is_open = still_open;
      live = h.live;
      filled = h.filled;
      counted = omega (arith, sent, h.counted, ap reported same);
      in_order = h.in_order;
    }

has_read : (k : Link) (room : ℕ) → Healthy k → Healthy (after_read k (read k.receiver room))
unfolding after_read
has_read k room h =
    let r = read-Reads k.receiver room h.live (omega (arith, load_small k h)) in
    record {
      is_open = h.is_open;
      live = r.live;
      filled = h.filled;
      counted =
          omega
            (arith, h.counted, r.load_kept, reported-append k.acks (read k.receiver room).credits);
      in_order =
          h.in_order
          ∙ sym (
              regroup k.got (read k.receiver room).bytes (unread (read k.receiver room).window)
                (unread k.receiver) (content k.frames) r.in_order);
    }
  where
    regroup :
        (got bytes left before frames : List ℕ)
        → bytes ++ left ≡ before
        → (got ++ bytes) ++ (left ++ frames) ≡ got ++ (before ++ frames)
    regroup got bytes left before frames e =
        append_assoc got bytes (left ++ frames)
        ∙ ap (◌++◌ got) (sym (append_assoc bytes left frames) ∙ ap (λ s. s ++ frames) e)

-- Every move keeps a link healthy: the sender's count is what is in frames, in the receiver's window
-- and in acknowledgements, and the bytes written are those read, those unread and those in frames.
pub step-Healthy : (k : Link) (m : Move) → Healthy k → Healthy (step k m)
unfolding step after_write
step-Healthy k (writes off rest) h =
    wrote_on k rest (write_to k.sender off rest) (write_to-Sends k.sender off rest h.is_open) h
step-Healthy k (delivers e) h = delivered k k.frames e refl h
step-Healthy k acknowledges h = acknowledged k k.acks refl h
step-Healthy k (reads room) h = has_read k room h

pub new-Healthy : Healthy Link.new
unfolding Link.new Send.new Receive.new Receive.Queue.new
new-Healthy = record {
  is_open = refl;
  live = record {
    is_open = (refl, refl, refl);
    counted = refl;
    filled = tt;
    inside = omega arith;
    flushed = λ none_left. omega (arith, parts);
  };
  filled = tt;
  counted = omega (arith, parts);
  in_order = refl;
}
  where
    parts : (unpack (pack (maximum_segment_size * 30) 0 false)).1 ≡ 0
    parts = pack_done (maximum_segment_size * 30) 0 false (omega arith)

pub run-Healthy : (k : Link) (ms : List Move) → Healthy k → Healthy (run k ms)
unfolding run
run-Healthy k [] h = h
run-Healthy k (m ∷ ms) h = run-Healthy (step k m) ms (step-Healthy k m h)

-- On a new link, after any moves, the sender counts exactly the bytes in frames, in the load of
-- the receiver and in acknowledgements, and the bytes sent are those read, then the unread ones,
-- then those in frames.
pub run-in_order :
    (ms : List Move)
    → let k = run Link.new ms in
      (sent_of k.sender ≡ total k.frames + load k.receiver + reported k.acks)
      × (k.sent ≡ k.got ++ (unread k.receiver ++ content k.frames))
run-in_order ms = let h = run-Healthy Link.new ms new-Healthy in (h.counted, h.in_order)

-- On a new link, after any moves that leave no frame and no acknowledgement under way and no byte
-- unread, the sender counts no byte as sent, and the bytes read are the bytes sent.
pub run-at_rest :
    (ms : List Move)
    → (run Link.new ms).frames ≡ []
    → (run Link.new ms).acks ≡ []
    → unread (run Link.new ms).receiver ≡ []
    → (sent_of (run Link.new ms).sender ≡ 0) × ((run Link.new ms).got ≡ (run Link.new ms).sent)
run-at_rest ms frames acks all_read =
    let h = run-Healthy Link.new ms new-Healthy in
    (
      omega (
        arith,
        h.counted,
        ap total frames,
        ap reported acks,
        load-all_read (run Link.new ms).receiver h.live all_read,
      ),
      sym (
          h.in_order
          ∙ ap₂ (λ a b. (run Link.new ms).got ++ (a ++ content b)) all_read frames
          ∙ append-nil (run Link.new ms).got),
    )
