-- ===== src/Accel/Send/Fits.antt =====
-- A packet fits the buffer that it is built in.
use softether_android_client.Base.{
  ℕ, ◌+◌, ◌%◌, ◌≤◌, ◌≡◌, refl, arith, List, ◌++◌, Option, none, some, Bool, true, false,
  if◌then◌else◌, ltb, leb, ◌==◌, ◌&&◌, length, length-append, length-replicate, replicate,
  Option-cases, inl, inr, ltb→ge,
}
use softether_android_client.Bytes.{write_u32, write_u64}
use softether_android_client.Crypto.Rc4.Involution.{length-rc4_crypt}
use softether_android_client.Crypto.Rc4.{rc4_crypt}
use softether_android_client.Accel.Context.{Context, is_set}
use softether_android_client.Accel.Send.{
  write_u16, write_inner, pad_size, too_large, calc_key, packet_v1, sealed_v2, transmit, send_v1,
  send_v2, send_payload, send_nolock, send,
}

pub length-write_inner :
    (c : Context) (payload : List ℕ) (flag : ℕ)
    → length (write_inner c payload flag) ≡ 23 + length payload
unfolding write_inner write_u32 write_u64 write_u16
length-write_inner c payload flag = omega arith

-- With the padding a packet stays within the larger of what it was and the size of the network.
pad_size_lem :
    (max_size current_size r : ℕ)
    → max_size ≤ 2048
    → current_size ≤ 2048
    → current_size + pad_size max_size current_size r ≤ 2048
unfolding pad_size
pad_size_lem max_size current_size r h k = grind arith

too_large_lem :
    (iv_size : ℕ) (payload : List ℕ)
    → too_large iv_size payload ≡ false
    → iv_size ≤ 20
    → iv_size + 23 + length payload ≤ 2020
too_large_lem iv_size payload h k = ground arith

abbrev Fits : Context × Option (List ℕ) → Type 0
Fits (c, none) = Unit
Fits (c, some pkt) = length pkt ≤ 2048

if-Fits :
    (b : Bool) (x y : Context × Option (List ℕ))
    → (b ≡ true → Fits x)
    → (b ≡ false → Fits y)
    → Fits (if b then x else y)
if-Fits true x y p q = p refl
if-Fits false x y p q = q refl

-- What the cipher of version 2 promises: as many bytes as the text, and a tag of 16.
pub record IsAead (aead : List ℕ → List ℕ → List ℕ → List ℕ × List ℕ) : Type 0 where
  pub cipher_size : (key iv text : List ℕ) → length (aead key iv text).0 ≡ length text
  pub mac_size : (key iv text : List ℕ) → length (aead key iv text).1 ≡ 16

module _ (sha1 : List ℕ → List ℕ) (aead : List ℕ → List ℕ → List ℕ → List ℕ × List ℕ)
    (compress : List ℕ → Option (List ℕ)) (lawful : IsAead aead) where
  transmit-Fits :
      (sent : Bool) (n : ℕ) (pkt : List ℕ) (c : Context)
      → length pkt ≤ 2048
      → Fits (transmit sha1 aead compress sent n pkt c)
  unfolding transmit
  transmit-Fits true n pkt c h = h
  transmit-Fits false n pkt c h = tt

  module _ (c : Context) (mtu : c.max_udp_packet_size ≤ 2048) where
    send_v1-Fits :
        (sent : Bool) (r n : ℕ) (payload : List ℕ) (flag : ℕ)
        → length c.next_iv ≡ 20
        → Fits (send_v1 sha1 aead compress sent r n payload flag c)
    unfolding send_v1 packet_v1
    send_v1-Fits sent r n payload flag iv_size =
        let zeros : ℕ → List ℕ = λ k. replicate k 0 in
        let pad = pad_size c.max_udp_packet_size (63 + length payload) r in
        let tail = zeros pad ++ zeros 20 in
        let inner = write_inner c payload flag ++ tail in
        let key = calc_key sha1 c.my_key c.next_iv in
        if-Fits (too_large 20 payload) _ _ (λ e. tt)
          λ e. transmit-Fits sent n _ _ (
            omega (
              arith,
              iv_size,
              length-append c.next_iv (rc4_crypt key inner),
              length-rc4_crypt key inner,
              length-append (write_inner c payload flag) tail,
              length-write_inner c payload flag,
              length-append (zeros pad) (zeros 20),
              length-replicate {0} {A = ℕ} pad 0,
              pad_size_lem c.max_udp_packet_size (63 + length payload) r mtu
                  (omega (arith, too_large_lem 20 payload e (omega arith))),
            ))

    send_v2-Fits :
        (sent : Bool) (r n : ℕ) (payload : List ℕ) (flag : ℕ)
        → length c.next_iv_v2 ≡ 12
        → Fits (send_v2 sha1 aead compress sent r n payload flag c)
    unfolding send_v2 sealed_v2
    send_v2-Fits sent r n payload flag iv_size =
        let pad = pad_size c.max_udp_packet_size (51 + length payload) r in
        let zeros : List ℕ = replicate pad 0 in
        let text = write_inner c payload flag ++ zeros in
        let cipher = (aead c.my_key_v2 c.next_iv_v2 text).0 in
        let mac = (aead c.my_key_v2 c.next_iv_v2 text).1 in
        if-Fits (too_large 12 payload) _ _ (λ e. tt)
          λ e.
            if-Fits (ltb 2048 (51 + length payload + pad)) _ _ (λ e. tt)
              λ e'. transmit-Fits sent n _ _ (
                omega (
                  arith,
                  iv_size,
                  length-append c.next_iv_v2 (cipher ++ mac),
                  length-append cipher mac,
                  lawful.cipher_size c.my_key_v2 c.next_iv_v2 text,
                  lawful.mac_size c.my_key_v2 c.next_iv_v2 text,
                  length-append (write_inner c payload flag) zeros,
                  length-write_inner c payload flag,
                  length-replicate {0} {A = ℕ} pad 0,
                  ltb→ge 2048 (51 + length payload + pad) e',
                ))

  send_payload-Fits :
      (c : Context)
      → c.max_udp_packet_size ≤ 2048
      → length c.next_iv ≡ 20
      → length c.next_iv_v2 ≡ 12
      → (sent : Bool) (r n : ℕ) (payload : List ℕ) (flag : ℕ)
      → Fits (send_payload sha1 aead compress sent r n payload flag c)
  unfolding send_payload
  send_payload-Fits c mtu iv iv' sent r n payload flag =
      if-Fits (c.version == 1) _ _ (λ e. send_v1-Fits c mtu sent r n payload flag iv)
        λ e. send_v2-Fits c mtu sent r n payload flag iv'

  send_nolock-Fits :
      (now : ℕ) (sent : Bool) (r : ℕ) (bs : List ℕ) (flag : ℕ) (c : Context)
      → c.max_udp_packet_size ≤ 2048
      → length c.next_iv ≡ 20
      → length c.next_iv_v2 ≡ 12
      → Fits (send_nolock sha1 aead compress now sent r bs flag c)
  unfolding send_nolock
  send_nolock-Fits now sent r bs flag c mtu iv iv' =
      let plain : Fits
          (send_payload sha1 aead compress sent r (length bs) bs flag (record c { now = now })) =
        send_payload-Fits (record c { now = now }) mtu iv iv' sent r (length bs) bs flag in
      if-Fits (c.use_compress && leb 2 (length bs)) _ _
        (λ e. elim (Option-cases (compress bs)) [
          | inl e ↦ rw e plain
          | inr (z, e) ↦ rw e (
              send_payload-Fits (record c { now = now }) mtu iv iv' sent r (length bs) z
                (if flag % 2 == 1 then flag else flag + 1))
        ])
        λ e. plain

  -- Where no datagram of more than 2,048 bytes is allowed and the vectors have their sizes, every
  -- packet that `rudp_send` hands to `sendto`, of either version, compressed or not, fits the
  -- 2,048 bytes of the buffer that it is built in.
  pub send-le :
      (now : ℕ) (sent : Bool) (r : ℕ) (bs : List ℕ) (flag : ℕ) (c : Context) (pkt : List ℕ)
      → c.max_udp_packet_size ≤ 2048
      → length c.next_iv ≡ 20
      → length c.next_iv_v2 ≡ 12
      → (send sha1 aead compress now sent r bs flag c).1 ≡ some pkt
      → length pkt ≤ 2048
  unfolding send
  send-le now sent r bs flag c pkt mtu iv iv' e =
      within (send sha1 aead compress now sent r bs flag c) e fits
    where
      fits : Fits (send sha1 aead compress now sent r bs flag c)
      fits =
          if-Fits (c.inited && is_set c.peer_addr) _ _
            (λ e. send_nolock-Fits now sent r bs flag c mtu iv iv') λ e. tt

      within : (x : Context × Option (List ℕ)) → x.1 ≡ some pkt → Fits x → length pkt ≤ 2048
      within (c, none) e f = absurd (none≢some e)
        where
          none≢some : none ≡ some pkt → ⊥
          none≢some e = cc
      within (c, some p) e f = ground arith
