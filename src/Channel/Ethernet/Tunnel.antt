-- ===== src/Channel/Ethernet/Tunnel.antt =====
-- A packet through the tunnel: what `softether_send` puts into a block, `softether_receive` takes out.
use softether_android_client.Base.{
  ℕ, ◌+◌, ◌-◌, ◌/◌, ◌%◌, ◌^◌, ◌≤◌, ◌<◌, ◌≡◌, refl, sym, ap, ◌∙◌, subst, arith, Option, none, List,
  [], ◌∷◌, ◌++◌, length, length-append, drop, replicate, ltb, ge→ltb, lt→ltb, ◌==◌, ne→==, ◌&&◌,
  if◌then◌else◌, if_both, Bool, true, false, get_or,
}
use softether_android_client.Channel.Stream.{Arrival, Wire, read_all}
use softether_android_client.Channel.Stream.Flow.{IsFlowing, content}
use softether_android_client.Channel.Inbox.{done, read_message, max_queued_frame}
use softether_android_client.Channel.Inbox.Queue.{IsRing, waiting, entries_head, entries_empty}
use softether_android_client.Channel.Connection.{Connection}
use softether_android_client.Channel.Send.{data_block}
use softether_android_client.Channel.Send.Accepted.{data_block-queued}
use softether_android_client.Channel.Receive.{Library}
use softether_android_client.Channel.Ethernet.{
  Sending, packet, ip_frame, is_arp, is_ip, take_ip, head_frame, broadcast,
}
use softether_android_client.Channel.Ethernet.Arp.{IsMac}

-- The frame of a packet: 14 bytes of header that mark it as IP and not as ARP, then the packet.
record Frames (f p : List ℕ) : Type 0 where
  size : length f ≡ 14 + length p
  not_arp : is_arp f ≡ false
  ip : is_ip f ≡ true
  rest : drop 14 f ≡ p

and_false : (b : Bool) → (b && false) ≡ false
and_false true = refl
and_false false = refl

Frames-header :
    (dst src p : List ℕ) (six : Bool)
    → IsMac dst
    → IsMac src
    → 0 < length p
    → Frames (dst ++ (src ++ ((if six then 0x86 ∷ (0xDD ∷ []) else 0x08 ∷ (0x00 ∷ [])) ++ p))) p
unfolding is_arp is_ip
Frames-header dst src p true hd hs h =
    let pad : List ℕ = replicate 14 0 in
    let long : ltb 14 (length (pad ++ p)) ≡ true =
      lt→ltb _ _ (omega (arith, length-append pad p)) in
    rw (hd.bytes, hs.bytes)
      record {
        size = omega arith;
        not_arp = and_false _;
        ip = ap (λ b. b && true) long;
        rest = refl;
      }
Frames-header dst src p false hd hs h =
    let pad : List ℕ = replicate 14 0 in
    let long : ltb 14 (length (pad ++ p)) ≡ true =
      lt→ltb _ _ (omega (arith, length-append pad p)) in
    rw (hd.bytes, hs.bytes)
      record {
        size = omega arith;
        not_arp = and_false _;
        ip = ap (λ b. b && true) long;
        rest = refl;
      }

ip_frame-Frames :
    (c : Connection) (p : List ℕ)
    → IsMac c.client_mac
    → IsMac c.gateway_mac
    → 0 < length p
    → Frames (ip_frame c p) p
unfolding ip_frame
ip_frame-Frames c p hc hg h =
    let six = (get_or p 0 0 / 16) % 16 == 6 in
    let type : List ℕ = if six then 0x86 ∷ (0xDD ∷ []) else 0x08 ∷ (0x00 ∷ []) in
    if_both (λ (dst : List ℕ). Frames (dst ++ (c.client_mac ++ (type ++ p))) p)
      c.gateway_mac_resolved c.gateway_mac broadcast
      (Frames-header c.gateway_mac c.client_mac p six hg hc h)
      (Frames-header broadcast c.client_mac p six everyone hc h)
  where
    everyone : IsMac broadcast
    everyone = record { b0 = 255; b1 = 255; b2 = 255; b3 = 255; b4 = 255; b5 = 255; bytes = refl }

-- The frame at the head gives its packet, when the buffer has room for it.
take_ip-head :
    (z : List ℕ → Option (List ℕ)) (l : Library) (m : Sending) (max_len : ℕ) (c : Connection)
    (p : List ℕ)
    → 0 < c.inbox.queue.count
    → Frames (head_frame c) p
    → length p ≤ max_len
    → (take_ip z l m max_len c).1 ≡ packet p
unfolding take_ip
take_ip-head z l m max_len c p some_there f fits =
    let room : ltb max_len (length (head_frame c) - 14) ≡ false =
      ge→ltb _ _ (omega (arith, f.size, fits)) in
    rw (ne→== c.inbox.queue.count 0 (omega arith), f.not_arp, f.ip, room) (ap packet f.rest)

-- A packet that `softether_send` puts into a block, with its 14 bytes of header at most 2,048 long, is
-- what `softether_receive` gives at the other end: the block comes in there on a quiet connection
-- without compression, however the network cuts it up, is queued as a frame, and the packet of that
-- frame is copied out whole when the buffer has room for it.
pub take_ip-ip_frame :
    (c d : Connection) (p : List ℕ) (w : Wire) (s : List Arrival) (rest : List ℕ)
    (z : List ℕ → Option (List ℕ)) (l : Library) (m : Sending) (max_len : ℕ)
    → IsMac c.client_mac
    → IsMac c.gateway_mac
    → 0 < length p
    → 14 + length p ≤ max_queued_frame
    → length p ≤ max_len
    → IsRing d.inbox.queue
    → waiting d.inbox.queue ≡ []
    → d.inbox.rx_skipped_blocks < 2 ^ 32
    → IsFlowing s
    → content s ≡ data_block (ip_frame c p) ++ rest
    → let r = read_message (read_all w) none d.inbox s in
      (r.0.0 ≡ done)
      × ((take_ip z l m max_len (record d { inbox = r.0.1 })).1 ≡ packet p)
      × (content r.1 ≡ rest)
take_ip-ip_frame c d p w s rest z l m max_len hc hg h small fits v quiet hs flow e =
    let f = ip_frame-Frames c p hc hg h in
    let empty = entries_empty d.inbox.queue.slots d.inbox.queue.count d.inbox.queue.head quiet in
    let q =
      data_block-queued w none (ip_frame c p) d.inbox s rest (omega (arith, f.size))
        (omega (arith, f.size)) v (omega (arith, empty)) hs flow e in
    let i = (read_message (read_all w) none d.inbox s).0.1 in
    let arrived : waiting i.queue ≡ ip_frame c p ∷ [] =
      q.1 ∙ ap (λ (fs : List (List ℕ)). fs ++ (ip_frame c p ∷ [])) quiet in
    let (at_head, some_there) =
      entries_head i.queue.slots i.queue.count i.queue.head (ip_frame c p) [] arrived in
    (
      q.0,
      take_ip-head z l m max_len (record d { inbox = i }) p some_there
          (subst (λ (g : List ℕ). Frames g p) (sym at_head) f) fits,
      q.2,
    )
