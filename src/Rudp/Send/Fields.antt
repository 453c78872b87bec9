-- ===== src/Rudp/Send/Fields.antt =====
-- The reader of a decrypted packet finds the fields where the sender put them.
use softether_android_client.Base.{
  ℕ, ◌+◌, ◌-◌, ◌*◌, ◌%◌, ◌^◌, ◌≤◌, ◌<◌, ◌≡◌, refl, sym, ap, ap₂, ◌∙◌, arith, List, [], ◌∷◌, ◌++◌,
  append_assoc, length, length-append, take, drop, All, some, get_or, drop-drop, get_or-append,
  get_or-replicate, take-append, drop-append, length-replicate, replicate, u8, ge→ltb, ==_self,
  append-nil, ne→==, true,
}
use softether_android_client.Bytes.{write_u32, write_u64, write_bytes, fold_bytes}
use softether_android_client.Bytes.RoundTrip.{
  fold_bytes-write_u64, read_u32-write_u32, length-write_u64,
}
use softether_android_client.Pack.Reader.{list_eq}
use softether_android_client.Rudp.Packet.{Header, r64, r32, read_acks, read_header, strip_padding}
use softether_android_client.Rudp.Send.{write_acks, write_segment, padding}

abbrev pub IsWord : ℕ → Type 0
IsWord a = a < 2 ^ 64

length-write_acks : (acks : List ℕ) → length (write_acks acks) ≡ length acks * 8
unfolding write_acks
length-write_acks [] = refl
length-write_acks (a ∷ as') =
    omega (
      arith,
      length-append (write_u64 a) (write_acks as'),
      length-write_u64 a,
      length-write_acks as',
    )

pub list_eq_self : (bs : List ℕ) → list_eq bs bs ≡ true
unfolding list_eq
list_eq_self [] = refl
list_eq_self (b ∷ bs) = rw (==_self, list_eq_self bs)

-- A number at the place where it was written.
r64-write_u64 :
    (p : List ℕ) (i v : ℕ) (rest : List ℕ)
    → v < 2 ^ 64
    → drop i p ≡ write_u64 v ++ rest
    → r64 p i ≡ v
r64-write_u64 p i v rest w h =
    ap (λ t. fold_bytes 0 (take 8 t)) h
    ∙ ap (fold_bytes 0) (take-append 8 (write_u64 v) rest (sym (length-write_u64 v)))
    ∙ fold_bytes-write_u64 v w

read_acks-write_acks :
    (p : List ℕ) (i : ℕ) (acks rest : List ℕ)
    → All IsWord acks
    → drop i p ≡ write_acks acks ++ rest
    → read_acks p i (length acks) ≡ acks
unfolding read_acks write_acks
read_acks-write_acks p i [] rest w h = refl
read_acks-write_acks p i (a ∷ as') rest w h =
    let laid_out = h ∙ append_assoc (write_u64 a) (write_acks as') rest in
    ap₂ ◌∷◌ (r64-write_u64 p i a (write_acks as' ++ rest) w.0 laid_out) (
      read_acks-write_acks p (i + 8) as' rest w.1 (
        drop-drop (i + 8) i 8 p refl
        ∙ ap (drop 8) laid_out
        ∙ drop-append 8 (write_u64 a) (write_acks as' ++ rest) (sym (length-write_u64 a))))

-- What the fields of a segment have to be for the packet to hold them.
pub record IsSegment (now your_tick max_ack : ℕ) (acks : List ℕ) (seq : ℕ) (payload : List ℕ)
    : Type 0 where
  pub now_fits : now < 2 ^ 64
  pub your_tick_fits : your_tick < 2 ^ 64
  pub max_ack_fits : max_ack < 2 ^ 64
  pub acks_fit : All IsWord acks
  pub few_acks : length acks ≤ 64
  pub seq_fits : seq < 2 ^ 64
  pub short : length payload ≤ 512

abbrev pub header_of : ℕ → ℕ → ℕ → List ℕ → ℕ → List ℕ → Header
header_of now your_tick max_ack acks seq payload = record {
  my_tick = now;
  your_tick = your_tick;
  max_ack = max_ack;
  acks = acks;
  seq_no = seq;
  payload = payload;
}

module _ {now your_tick max_ack : ℕ} {acks : List ℕ} {seq : ℕ} {payload : List ℕ}
    (s : IsSegment now your_tick max_ack acks seq payload) where
  abbrev pub segment : List ℕ
  segment = write_segment now your_tick max_ack acks seq payload

  pub length-write_segment : length segment ≡ 36 + length acks * 8 + length payload
  unfolding write_segment write_u64 write_u32
  length-write_segment = omega (
    arith,
    length-append (write_acks acks) (write_u64 seq ++ payload),
    length-append (write_u64 seq) payload,
    length-write_acks acks,
  )

  acks_at :
      (pad : List ℕ)
      → drop 28 (segment ++ pad) ≡ write_acks acks ++ (write_u64 seq ++ (payload ++ pad))
  unfolding write_segment write_u64 write_u32
  acks_at pad = append_assoc (write_acks acks) (write_u64 seq ++ payload) pad

  seq_at :
      (pad : List ℕ)
      → drop (28 + length acks * 8) (segment ++ pad) ≡ write_u64 seq ++ (payload ++ pad)
  seq_at pad =
      drop-drop _ 28 (length acks * 8) (segment ++ pad) refl
      ∙ ap (drop (length acks * 8)) (acks_at pad)
      ∙ drop-append _ (write_acks acks) (write_u64 seq ++ (payload ++ pad))
          (sym (length-write_acks acks))

  payload_at : drop (36 + length acks * 8) segment ≡ payload
  payload_at =
      drop-drop _ (28 + length acks * 8) 8 segment (omega arith)
      ∙ ap (λ t. drop 8 (drop (28 + length acks * 8) t)) (sym (append-nil segment))
      ∙ ap (drop 8) (seq_at [])
      ∙ drop-append 8 (write_u64 seq) (payload ++ []) (sym (length-write_u64 seq))
      ∙ append-nil payload

  num_ack_at : (pad : List ℕ) → r32 (segment ++ pad) 24 ≡ length acks
  unfolding write_segment write_u64 write_u32
  num_ack_at pad = read_u32-write_u32 (length acks) (omega (arith, s.few_acks))

  my_tick_at : (pad : List ℕ) → r64 (segment ++ pad) 0 ≡ now
  unfolding write_segment
  my_tick_at pad =
      r64-write_u64 (segment ++ pad) 0 now _ s.now_fits (append_assoc (write_u64 now) _ pad)

  your_tick_at : (pad : List ℕ) → r64 (segment ++ pad) 8 ≡ your_tick
  unfolding write_segment write_u64 write_bytes
  your_tick_at pad = r64-write_u64 (segment ++ pad) 8 your_tick _ s.your_tick_fits refl

  max_ack_at : (pad : List ℕ) → r64 (segment ++ pad) 16 ≡ max_ack
  unfolding write_segment write_u64 write_bytes
  max_ack_at pad = r64-write_u64 (segment ++ pad) 16 max_ack _ s.max_ack_fits refl

  read_header-write_segment :
      (pad : List ℕ) (now' : ℕ)
      → your_tick ≤ now'
      → read_header now' (segment ++ pad) (length segment)
        ≡ some (header_of now your_tick max_ack acks seq payload)
  unfolding read_header
  read_header-write_segment pad now' h =
      rw
        (
          num_ack_at pad,
          take-append (length segment) segment pad refl,
          ge→ltb (length segment) 36 (omega (arith, length-write_segment)),
          ge→ltb 64 (length acks) s.few_acks,
          ge→ltb (length segment) (36 + length acks * 8) (omega (arith, length-write_segment)),
          your_tick_at pad,
          ge→ltb now' your_tick h,
          my_tick_at pad,
          max_ack_at pad,
          read_acks-write_acks (segment ++ pad) 28 acks _ s.acks_fit (acks_at pad),
          r64-write_u64 (segment ++ pad) (28 + length acks * 8) seq _ s.seq_fits (seq_at pad),
          payload_at,
        )
        refl

  -- The last byte tells how much padding there is.
  pub strip_padding-padding :
      (r now' : ℕ)
      → your_tick ≤ now'
      → strip_padding now' (segment ++ padding r)
        ≡ some (header_of now your_tick max_ack acks seq payload)
  unfolding strip_padding padding
  strip_padding-padding r now' h =
      let n = u8 (r % 255) + 1 in
      let len : length (segment ++ replicate n n) ≡ length segment + n =
        length-append segment (replicate n n)
        ∙ ap (λ (t : ℕ). length segment + t) (length-replicate n n) in
      let last : get_or (segment ++ replicate n n) (length segment + n - 1) 0 ≡ n =
        get_or-append _ (n - 1) segment (replicate n n) 0 (omega arith)
        ∙ get_or-replicate n (n - 1) n 0 (omega arith) in
      rw
        (
          len,
          last,
          ge→ltb (length segment + n) 1 (omega arith),
          ne→== n 0 (omega arith),
          ge→ltb (length segment + n) n (omega arith),
        )
        (ap (read_header now' (segment ++ replicate n n)) (omega arith)
          ∙ read_header-write_segment (replicate n n) now' h)

pub length-padding : (r : ℕ) → (1 ≤ length (padding r)) × (length (padding r) ≤ 255)
unfolding padding
length-padding r =
    let e = length-replicate (u8 (r % 255) + 1) (u8 (r % 255) + 1) in
    (omega (arith, e), omega (arith, e))
