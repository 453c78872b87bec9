-- ===== src/Rudp/Session/Delivery.antt =====
-- The draining loop of `rt_interrupt` over segments that arrived in order.
use softether_android_client.Base.{
  ℕ, suc, ◌+◌, ◌-◌, ◌≤◌, ◌<◌, ◌≡◌, ◌^◌, arith, refl, sym, ap, ◌∙◌, some, List, [], ◌∷◌, ◌++◌,
  append_assoc, append-nil, ◌==◌, length, length-append, u64, true, false,
}
use softether_android_client.Rudp.Fifo.{Fifo, write}
use softether_android_client.Rudp.Fifo.Refine.{IsValid, contents}
use softether_android_client.Rudp.Fifo.Append.{write_lem}
use softether_android_client.Rudp.Session.{
  Session, Segment, is_magic, accept_segment, drain_loop, drain,
}
use softether_android_client.Rudp.Session.Window.{payloads}

module _ (req resp : List ℕ) where
  -- Segments numbered from `next` on that carry data of the application.
  abbrev pub InOrder : ℕ → List Segment → Type 0
  InOrder next [] = Unit
  InOrder next (s ∷ ss) =
      (s.seq ≡ next)
      × (is_magic s.payload req ≡ false)
      × (is_magic s.payload resp ≡ false)
      × InOrder (suc next) ss

-- All bytes `bs` reached the FIFO of `se`, up to the number `last`.
pub record Delivers (se : Session) (bs : List ℕ) (last : ℕ) (se' : Session) : Type 0 where
  pub fifo : IsValid se'.recv_fifo
  pub delivered : contents se'.recv_fifo ≡ contents se.recv_fifo ++ bs
  pub complete : se'.last_recv_complete_seq ≡ last
  pub same_queue : se'.send_segments ≡ se.send_segments

pub record Drains (se : Session) (cur : ℕ) (ss : List Segment) : Type 0 where
  pub after : Session
  pub runs : drain_loop se cur ss ≡ (after, [])
  pub delivers : Delivers se (payloads ss) (cur + length ss) after

accept_data :
    (se : Session) (s : Segment) (g : Fifo)
    → is_magic s.payload se.magic_req ≡ false
    → is_magic s.payload se.magic_resp ≡ false
    → write se.recv_fifo s.payload ≡ some g
    → accept_segment se s ≡ some (record se { recv_fifo = g })
unfolding accept_segment
accept_data se s g a b e = rw (a, b, e) refl

drain_loop-cons :
    (se se' : Session) (cur : ℕ) (s : Segment) (ss : List Segment)
    → s.seq ≡ u64 (cur + 1)
    → accept_segment se s ≡ some se'
    → drain_loop se cur (s ∷ ss)
      ≡ drain_loop (record se' { last_recv_complete_seq = s.seq }) (u64 (cur + 1)) ss
unfolding drain_loop
drain_loop-cons se se' cur s ss e a = rw (next, a) refl
  where
    next : (s.seq == u64 (cur + 1)) ≡ true
    next = ground arith

drain_loop-Drains :
    (se : Session) (cur : ℕ) (ss : List Segment)
    → IsValid se.recv_fifo
    → se.last_recv_complete_seq ≡ cur
    → cur + length ss < 2 ^ 64
    → InOrder se.magic_req se.magic_resp (suc cur) ss
    → length (payloads ss) ≤ se.recv_fifo.cap - se.recv_fifo.size
    → Drains se cur ss
drain_loop-Drains se cur [] v at far o room = record {
  after = se;
  runs = unfold drain_loop in refl;
  delivers = record {
    fifo = v;
    delivered = sym (append-nil (contents se.recv_fifo));
    complete = omega arith;
    same_queue = refl;
  };
}
drain_loop-Drains se cur (s ∷ ss) v at far o room =
    let (g, e, w, same, c, grown) =
      write_lem se.recv_fifo s.payload v (omega (arith, length-append s.payload (payloads ss))) in
    let next = record se { recv_fifo = g; last_recv_complete_seq = s.seq } in
    let rest =
      drain_loop-Drains next (suc cur) ss w (omega (arith, o.0)) (omega arith) o.3
        (omega (arith, length-append s.payload (payloads ss), c, grown)) in
    let step : u64 (cur + 1) ≡ suc cur = omega arith in
    record {
      after = rest.after;
      runs =
          drain_loop-cons se (record se { recv_fifo = g }) cur s ss (o.0 ∙ sym step)
            (accept_data se s g o.1 o.2 e)
          ∙ ap (λ k. drain_loop next k ss) step
          ∙ rest.runs;
      delivers = record {
        fifo = rest.delivers.fifo;
        delivered =
            rest.delivers.delivered
            ∙ ap (λ t. t ++ payloads ss) same
            ∙ append_assoc (contents se.recv_fifo) s.payload (payloads ss);
        complete = omega (arith, rest.delivers.complete);
        same_queue = rest.delivers.same_queue;
      };
    }

-- Segments that stand in order in the buffer and carry application data, with room for all of it,
-- are taken by the draining loop: their bytes are appended to the FIFO in order, the buffer is empty
-- after it, and the last complete number is that of the last of them.
pub drain-Delivers :
    (se : Session)
    → IsValid se.recv_fifo
    → se.last_recv_complete_seq + length se.recv_segments < 2 ^ 64
    → InOrder se.magic_req se.magic_resp (suc se.last_recv_complete_seq) se.recv_segments
    → length (payloads se.recv_segments) ≤ se.recv_fifo.cap - se.recv_fifo.size
    → Delivers se
        (payloads se.recv_segments)
        (se.last_recv_complete_seq + length se.recv_segments)
        (drain se)
      × ((drain se).recv_segments ≡ [])
unfolding drain
drain-Delivers se v far o room =
    let d = drain_loop-Drains se se.last_recv_complete_seq se.recv_segments v refl far o room in
    rw d.runs (
      record {
        fifo = d.delivers.fifo;
        delivered = d.delivers.delivered;
        complete = d.delivers.complete;
        same_queue = d.delivers.same_queue;
      },
      refl,
    )
