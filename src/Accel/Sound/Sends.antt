-- ===== src/Accel/Sound/Sends.antt =====
-- Sending and the keepalive keep the context sound.
use softether_android_client.Base.{
  ℕ, ◌+◌, ◌-◌, ◌%◌, ◌≤◌, ◌≡◌, arith, List, [], ◌++◌, Option, Bool, true, false, if◌then◌else◌, ltb,
  leb, ◌==◌, ◌&&◌, ◌||◌, length, length-append, length-drop, length-take, Option-cases, inl, inr,
  take, replicate,
}
use softether_android_client.Crypto.Rc4.{rc4_crypt}
use softether_android_client.Accel.Context.{Context, is_set}
use softether_android_client.Accel.Window.Budget.{cwin_consume-Keeps}
use softether_android_client.Accel.Send.{
  write_inner, pad_size, too_large, calc_key, packet_v1, sealed_v2, transmit, send_v1, send_v2,
  send_payload, send_nolock, send,
}
use softether_android_client.Accel.Send.Fits.{IsAead, length-write_inner}
use softether_android_client.Accel.Poll.{Chance, send_keepalive, keepalive}
use softether_android_client.Accel.Sound.{IsSound, Keeps-IsSound}

pub if-IsSound {ℓ} :
    {A : Type ℓ} (b : Bool) (x y : Context × A)
    → IsSound x.0
    → IsSound y.0
    → IsSound (if b then x else y).0
if-IsSound true x y p q = p
if-IsSound false x y p q = q

module _ (sha1 : List ℕ → List ℕ) (aead : List ℕ → List ℕ → List ℕ → List ℕ × List ℕ)
    (compress : List ℕ → Option (List ℕ)) (lawful : IsAead aead) where
  transmit-IsSound :
      (sent : Bool) (n : ℕ) (pkt : List ℕ) (c : Context)
      → IsSound c
      → IsSound (transmit sha1 aead compress sent n pkt c).0
  unfolding transmit
  transmit-IsSound true n pkt c s = Keeps-IsSound (cwin_consume-Keeps n c) s
  transmit-IsSound false n pkt c s = s

  send_v1-IsSound :
      (sent : Bool) (r n : ℕ) (payload : List ℕ) (flag : ℕ) (c : Context)
      → IsSound c
      → IsSound (send_v1 sha1 aead compress sent r n payload flag c).0
  unfolding send_v1
  send_v1-IsSound sent r n payload flag c s =
      let pkt = packet_v1 sha1 r payload flag c in
      if-IsSound (too_large 20 payload) _ _ s (
        transmit-IsSound sent n pkt _ (record {
          ring = s.ring;
          budget = s.budget;
          iv_size = omega (arith, length-drop (length pkt - 20) pkt, at_least);
          iv_v2_size = s.iv_v2_size;
        }))
    where
      at_least : 20 ≤ length (packet_v1 sha1 r payload flag c)
      at_least =
          unfold packet_v1 in
          omega (
            arith,
            s.iv_size,
            length-append c.next_iv (
                rc4_crypt (calc_key sha1 c.my_key c.next_iv) (
                  write_inner c payload flag
                  ++ (replicate (pad_size c.max_udp_packet_size (63 + length payload) r) 0
                      ++ replicate 20 0))),
          )

  send_v2-IsSound :
      (sent : Bool) (r n : ℕ) (payload : List ℕ) (flag : ℕ) (c : Context)
      → IsSound c
      → IsSound (send_v2 sha1 aead compress sent r n payload flag c).0
  unfolding send_v2
  send_v2-IsSound sent r n payload flag c s = if-IsSound (too_large 12 payload) _ _ s (
      if-IsSound
        (ltb 2048 (51 + length payload + pad_size c.max_udp_packet_size (51 + length payload) r)) _
        _ s
        (transmit-IsSound sent n _ _ (record {
          ring = s.ring;
          budget = s.budget;
          iv_size = s.iv_size;
          iv_v2_size = next_iv_v2_size;
        })))
    where
      text : List ℕ
      text =
          write_inner c payload flag
          ++ replicate (pad_size c.max_udp_packet_size (51 + length payload) r) 0

      next_iv_v2_size : length (take 12 (sealed_v2 aead r payload flag c).0) ≡ 12
      next_iv_v2_size =
          unfold sealed_v2 in
          omega (
            arith,
            length-take 12 (aead c.my_key_v2 c.next_iv_v2 text).0,
            lawful.cipher_size c.my_key_v2 c.next_iv_v2 text,
            length-append (write_inner c payload flag)
                (replicate (pad_size c.max_udp_packet_size (51 + length payload) r) 0),
            length-write_inner c payload flag,
          )

  send_payload-IsSound :
      (sent : Bool) (r n : ℕ) (payload : List ℕ) (flag : ℕ) (c : Context)
      → IsSound c
      → IsSound (send_payload sha1 aead compress sent r n payload flag c).0
  unfolding send_payload
  send_payload-IsSound sent r n payload flag c s =
      if-IsSound (c.version == 1) _ _ (send_v1-IsSound sent r n payload flag c s)
        (send_v2-IsSound sent r n payload flag c s)

  send_nolock-IsSound :
      (now : ℕ) (sent : Bool) (r : ℕ) (bs : List ℕ) (flag : ℕ) (c : Context)
      → IsSound c
      → IsSound (send_nolock sha1 aead compress now sent r bs flag c).0
  unfolding send_nolock
  send_nolock-IsSound now sent r bs flag c s =
      if-IsSound (c.use_compress && leb 2 (length bs)) _ _
        (elim (Option-cases (compress bs)) [
          | inl e ↦ rw e (plain bs flag)
          | inr (z, e) ↦ rw e (plain z (if flag % 2 == 1 then flag else flag + 1))
        ])
        (plain bs flag)
    where
      plain :
          (payload : List ℕ) (flag' : ℕ)
          → IsSound
              (send_payload sha1 aead compress sent r
                (length bs)
                payload
                flag'
                (record c { now = now })).0
      plain payload flag' =
          send_payload-IsSound sent r (length bs) payload flag' (record c { now = now })
            (record {
              ring = s.ring;
              budget = s.budget;
              iv_size = s.iv_size;
              iv_v2_size = s.iv_v2_size;
            })

  pub send-IsSound :
      (now : ℕ) (sent : Bool) (r : ℕ) (bs : List ℕ) (flag : ℕ) (c : Context)
      → IsSound c
      → IsSound (send sha1 aead compress now sent r bs flag c).0
  unfolding send
  send-IsSound now sent r bs flag c s =
      if-IsSound (c.inited && is_set c.peer_addr) _ _ (send_nolock-IsSound now sent r bs flag c s) s

  pub keepalive-IsSound :
      (r : Chance) (c : Context) → IsSound c → IsSound (keepalive sha1 aead compress r c).0
  unfolding keepalive send_keepalive
  keepalive-IsSound r c s =
      let sent : IsSound (send_keepalive sha1 aead compress r c).0 =
        if-IsSound (is_set c.peer_addr) _ _ (send-IsSound r.tick r.sent r.padding [] 0 c s) s in
      if-IsSound ((c.next_send_keepalive == 0) || leb c.next_send_keepalive c.now) _ _
        (record {
          ring = sent.ring;
          budget = sent.budget;
          iv_size = sent.iv_size;
          iv_v2_size = sent.iv_v2_size;
        })
        s
