-- ===== src/Rudp/Send/Arrives.antt =====
-- A segment that one end sends is what the other end reads.
use softether_android_client.Base.{
  ℕ, ◌+◌, ◌≤◌, ◌≡◌, refl, arith, List, ◌++◌, length, length-append, take, take-all, ge→ltb, false,
}
use softether_android_client.Crypto.Rc4.{rc4_crypt}
use softether_android_client.Rudp.Packet.{
  Transport, handle_signed, handle_udp_packet, process_header, is_disconnected, max_packet_size,
}
use softether_android_client.Rudp.Send.{write_segment, padding, seal, send_segment_now}
use softether_android_client.Rudp.Send.Fields.{
  IsSegment, header_of, segment, length-write_segment, strip_padding-padding, length-padding,
}
use softether_android_client.Rudp.Send.Sealed.{is_signed-seal, decrypt-seal, length-seal}

module _ (sha1 : List ℕ → List ℕ) (hashes : (bs : List ℕ) → length (sha1 bs) ≡ 20) (t : Transport)
    (iv_size : length t.next_iv ≡ 20) {now : ℕ} {seq : ℕ} {payload : List ℕ}
    (s : IsSegment now t.your_tick t.session.last_recv_complete_seq
      (take 64 t.session.reply_acks)
      seq
      payload) where
  abbrev plain : ℕ → List ℕ
  plain r =
      write_segment now t.your_tick t.session.last_recv_complete_seq (take 64 t.session.reply_acks)
        seq payload
      ++ padding r

  -- A packet that `rt_send_segment_now` builds for a segment of at most 512 bytes has at most the
  -- 1,355 bytes of the buffer. The end that has the key and is connected reads from it the ticks,
  -- the numbers, the acknowledgements and the payload that the sender put in, and nothing else
  -- decides what it does.
  pub handle_udp_packet-send_segment_now :
      (r r' now' src_ip src_port : ℕ) (u : Transport)
      → u.key_recv ≡ t.key_send
      → t.your_tick ≤ now'
      → is_disconnected u.session.status ≡ false
      → (length (send_segment_now sha1 rc4_crypt now r r' seq payload t).1 ≤ max_packet_size)
        × (handle_udp_packet sha1 rc4_crypt now' src_ip src_port
              (send_segment_now sha1 rc4_crypt now r r' seq payload t).1
              u
            ≡ process_header src_port
                (header_of now t.your_tick t.session.last_recv_complete_seq
                  (take 64 t.session.reply_acks)
                  seq
                  payload)
                u)
  unfolding send_segment_now handle_udp_packet handle_signed
  handle_udp_packet-send_segment_now r r' now' src_ip src_port u same_key earlier connected = (
    fits,
    rw
        (
          connected,
          ge→ltb (length pkt) 20 (omega (arith, size)),
          take-all max_packet_size pkt fits,
          same_key,
          is_signed-seal sha1 hashes t.key_send t.next_iv (plain r) iv_size,
          ge→ltb (length pkt) 40 (omega (arith, size)),
          decrypt-seal sha1 hashes t.key_send t.next_iv (plain r) iv_size,
          strip_padding-padding s r now' earlier,
        )
        refl,
  )
    where
      pkt : List ℕ
      pkt = seal sha1 rc4_crypt t.key_send t.next_iv (plain r)

      size : length pkt ≡ 40 + length (plain r)
      size = length-seal sha1 hashes t.key_send t.next_iv (plain r) iv_size

      fits : length pkt ≤ max_packet_size
      fits = omega (
        arith,
        size,
        length-append (segment s) (padding r),
        length-write_segment s,
        length-padding r,
        s.short,
        s.few_acks,
      )
