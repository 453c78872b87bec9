-- ===== src/Rudp/Send.antt =====
-- `rt_send_segment_now` of rudp_transport.c over plain UDP. What `rand()` gives and the clock are
-- arguments. The result is the transport afterwards and the packet handed to `sendto`.
pub mod Fields
pub mod Sealed
pub mod Arrives
use softether_android_client.Base.{
  ℕ, suc, ◌+◌, ◌-◌, ◌%◌, u8, List, [], ◌∷◌, ◌++◌, length, take, drop, replicate,
}
use softether_android_client.Bytes.{write_u32, write_u64}
use softether_android_client.Rudp.Session.{max_num_ack, sha1_size}
use softether_android_client.Rudp.Session.Clock.{after_send}
use softether_android_client.Rudp.Packet.{Transport}

unfoldable pub write_acks : List ℕ → List ℕ
write_acks [] = []
write_acks (a ∷ as') = write_u64 a ++ write_acks as'

-- MyTick, YourTick, MAX_ACK, NUM_ACK, the acknowledgements, SEQ and the payload.
unfoldable pub write_segment : ℕ → ℕ → ℕ → List ℕ → ℕ → List ℕ → List ℕ
write_segment now your_tick max_ack acks seq payload =
    write_u64 now
    ++ (write_u64 your_tick
        ++ (write_u64 max_ack
            ++ (write_u32 (length acks) ++ (write_acks acks ++ (write_u64 seq ++ payload)))))

-- 1 to 255 bytes, each of which is their number.
unfoldable pub padding : ℕ → List ℕ
padding r = replicate (u8 (r % 255) + 1) (u8 (r % 255) + 1)

module _ (sha1 : List ℕ → List ℕ) (rc4 : List ℕ → List ℕ → List ℕ) where
  -- Everything after the initialisation vector is encrypted, then the whole is signed with the key
  -- in the place of the signature.
  unfoldable pub seal : List ℕ → List ℕ → List ℕ → List ℕ
  seal key_send iv plain =
      let body = iv ++ rc4 (sha1 (iv ++ key_send)) plain in sha1 (key_send ++ body) ++ body

  -- `r` and `r'` are what `rand()` gives for the padding and for the next vector.
  unfoldable pub send_segment_now : ℕ → ℕ → ℕ → ℕ → List ℕ → Transport → Transport × List ℕ
  send_segment_now now r r' seq payload t =
      let se = t.session in
      let plain =
        write_segment now t.your_tick se.last_recv_complete_seq (take max_num_ack se.reply_acks) seq
          payload
        ++ padding r in
      let pkt = seal t.key_send t.next_iv plain in
      (
        record t {
          session = after_send now se;
          next_iv = take sha1_size (drop (r' % (length pkt - sha1_size)) pkt);
        },
        pkt,
      )
