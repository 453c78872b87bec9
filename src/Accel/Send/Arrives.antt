-- ===== src/Accel/Send/Arrives.antt =====
-- A block that one end sends over version 1 is the block that the other end queues.
use softether_android_client.Base.{
  ℕ, ◌+◌, ◌-◌, ◌^◌, ◌≤◌, ◌<◌, ◌≡◌, refl, sym, ap, ◌∙◌, arith, List, [], ◌∷◌, ◌++◌, append_assoc,
  length, length-append, take, drop, some, take-append, drop-append, length-replicate, replicate,
  leb, ge→ltb, ==_self, true, if◌then◌else◌, ◌==◌, Bool,
}
use softether_android_client.Bytes.{write_u32, write_u64, fold_bytes}
use softether_android_client.Bytes.RoundTrip.{
  fold_bytes-write_u64, length-write_u64, length-write_u32,
}
use softether_android_client.Crypto.Rc4.{rc4_crypt}
use softether_android_client.Crypto.Rc4.Involution.{rc4_crypt-rc4_crypt, length-rc4_crypt}
use softether_android_client.Accel.Context.{Context}
use softether_android_client.Accel.Receive.{Inner, read_be, read_inner, verified, all_zero}
use softether_android_client.Accel.Send.{write_u16, write_inner, pad_size, packet_v1, calc_key}

read_be-append :
    (n : ℕ) (bs rest : List ℕ)
    → n ≡ length bs
    → read_be n (bs ++ rest) ≡ some (fold_bytes 0 bs, rest)
unfolding read_be
read_be-append n bs rest h =
    rw
      (
        ge→ltb (length (bs ++ rest)) n (omega (arith, length-append bs rest)),
        take-append n bs rest h,
        drop-append n bs rest h,
      )
      refl

-- The same where the bytes begin the front part of the buffer, whose value is known.
field :
    (n : ℕ) (bs more tail : List ℕ) (v : ℕ)
    → n ≡ length bs
    → fold_bytes 0 bs ≡ v
    → read_be n ((bs ++ more) ++ tail) ≡ some (v, more ++ tail)
field n bs more tail v size value =
    ap (read_be n) (append_assoc bs more tail)
    ∙ read_be-append n bs (more ++ tail) size
    ∙ ap (λ (t : ℕ). some (t, more ++ tail)) value

fold_bytes_one : (v : ℕ) → v < 256 → fold_bytes 0 (v ∷ []) ≡ v
unfolding fold_bytes
fold_bytes_one v h = omega arith

fold_bytes-write_u32 : (v : ℕ) → v < 2 ^ 32 → fold_bytes 0 (write_u32 v) ≡ v
unfolding write_u32 fold_bytes
fold_bytes-write_u32 v h = omega arith

fold_bytes-write_u16 : (v : ℕ) → v < 2 ^ 16 → fold_bytes 0 (write_u16 v) ≡ v
unfolding write_u16 fold_bytes
fold_bytes-write_u16 v h = omega arith

length-write_u16 : (v : ℕ) → 2 ≡ length (write_u16 v)
unfolding write_u16
length-write_u16 v = refl

-- What a context has to be for its fields to fit the packet.
pub record IsSender (c : Context) : Type 0 where
  pub cookie_fits : c.your_cookie < 2 ^ 32
  pub now_fits : c.now < 2 ^ 64
  pub tick_fits : c.last_recv_your_tick < 2 ^ 64

abbrev pub inner_of : Context → List ℕ → ℕ → Inner
inner_of c payload flag = record {
  my_tick = if c.now == 0 then 1 else c.now;
  your_tick = c.last_recv_your_tick;
  flag = flag;
  payload = payload;
}

tick_below : (c : Context) → c.now < 2 ^ 64 → (if c.now == 0 then 1 else c.now) < 2 ^ 64
tick_below c h = ground arith

module _ (c : Context) (s : IsSender c) (payload : List ℕ) (flag : ℕ)
    (short : length payload < 2 ^ 16) (flag_fits : flag < 256) where
  pub read_inner-write_inner :
      (verify : Bool) (tail : List ℕ)
      → verified verify tail ≡ true
      → read_inner c.your_cookie verify (write_inner c payload flag ++ tail)
        ≡ some (inner_of c payload flag)
  unfolding read_inner write_inner
  read_inner-write_inner verify tail ok =
      let tick = if c.now == 0 then 1 else c.now in
      let marked = flag ∷ payload in
      let sized = write_u16 (length payload) ++ marked in
      let acked = write_u64 c.last_recv_your_tick ++ sized in
      rw
        (
          field 4 (write_u32 c.your_cookie) (write_u64 tick ++ acked) tail c.your_cookie
              (sym (length-write_u32 c.your_cookie))
              (fold_bytes-write_u32 c.your_cookie s.cookie_fits),
          ==_self c.your_cookie,
          field 8 (write_u64 tick) acked tail tick (sym (length-write_u64 tick))
              (fold_bytes-write_u64 tick (tick_below c s.now_fits)),
          field 8 (write_u64 c.last_recv_your_tick) sized tail c.last_recv_your_tick
              (sym (length-write_u64 c.last_recv_your_tick))
              (fold_bytes-write_u64 c.last_recv_your_tick s.tick_fits),
          field 2 (write_u16 (length payload)) marked tail (length payload)
              (length-write_u16 (length payload)) (fold_bytes-write_u16 (length payload) short),
          field 1 (flag ∷ []) payload tail flag refl (fold_bytes_one flag flag_fits),
          ge→ltb (length (payload ++ tail)) (length payload)
              (omega (arith, length-append payload tail)),
          drop-append (length payload) payload tail refl,
          ok,
          take-append (length payload) payload tail refl,
        )
        refl

abbrev zeros : ℕ → List ℕ
zeros n = replicate n 0

length-zeros : (n : ℕ) → length (zeros n) ≡ n
length-zeros n = length-replicate n 0

-- The verification of the end of a packet looks at the 20 bytes behind the padding.
pub verified-zeros : (pad : ℕ) → verified true (zeros pad ++ zeros 20) ≡ true
unfolding verified all_zero
verified-zeros pad =
    let size : length (zeros pad ++ zeros 20) ≡ pad + 20 =
      length-append (zeros pad) (zeros 20) ∙ ap (λ (n : ℕ). n + 20) (length-zeros pad) in
    let front : pad + 20 - 20 ≡ length (zeros pad) = omega (arith, length-zeros pad) in
    rw
      (
        size,
        lt→leb 20 (pad + 20) (omega arith),
        drop-append (pad + 20 - 20) (zeros pad) (zeros 20) front,
      )
      refl
  where
    lt→leb : (a b : ℕ) → a ≤ b → leb a b ≡ true
    lt→leb a b h = ground arith

-- The end that has the key and the cookie reads the block of a packet.
module _ (sha1 : List ℕ → List ℕ) (a b : Context) (s : IsSender a) (payload : List ℕ) (flag r : ℕ)
    (short : length payload < 2 ^ 16) (flag_fits : flag < 256) (iv_size : length a.next_iv ≡ 20)
    (same_key : b.your_key ≡ a.my_key) (same_cookie : b.my_cookie ≡ a.your_cookie) where
  abbrev packet : List ℕ
  packet = packet_v1 sha1 r payload flag a

  pub decrypted :
      read_inner b.my_cookie true
        (rc4_crypt (calc_key sha1 b.your_key (take 20 packet)) (drop 20 packet))
      ≡ some (inner_of a payload flag)
  unfolding packet_v1
  decrypted =
      let pad = pad_size a.max_udp_packet_size (63 + length payload) r in
      let tail = zeros pad ++ zeros 20 in
      let inner = write_inner a payload flag ++ tail in
      let key = calc_key sha1 a.my_key a.next_iv in
      rw
        (
          take-append 20 a.next_iv (rc4_crypt key inner) (sym iv_size),
          drop-append 20 a.next_iv (rc4_crypt key inner) (sym iv_size),
          same_key,
          (rc4_crypt-rc4_crypt key inner).0,
          same_cookie,
        )
        (read_inner-write_inner a s payload flag short flag_fits true tail (verified-zeros pad))

  pub length-packet_v1 : 25 ≤ length packet
  unfolding packet_v1
  length-packet_v1 =
      let pad = pad_size a.max_udp_packet_size (63 + length payload) r in
      let tail = zeros pad ++ zeros 20 in
      let inner = write_inner a payload flag ++ tail in
      let key = calc_key sha1 a.my_key a.next_iv in
      omega (
        arith,
        iv_size,
        length-append a.next_iv (rc4_crypt key inner),
        length-rc4_crypt key inner,
        length-append (write_inner a payload flag) tail,
        length-append (zeros pad) (zeros 20),
      )
