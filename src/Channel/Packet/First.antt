-- ===== src/Channel/Packet/First.antt =====
-- What `softether_receive_packet` takes from a message.
use softether_android_client.Base.{
  ◌^◌, u32, true, ℕ, zero, suc, ◌+◌, ◌≤◌, ◌<◌, ◌≡◌, refl, ap, ◌∙◌, arith, Option, none, some, List,
  [], ◌∷◌, ◌++◌, append_assoc, All, length, length-append, ltb, leb, ◌==◌, ge→ltb, ne→==, ◌&&◌, not,
  u32, if◌then◌else◌, Bool-cases, inl, inr, false,
}
use softether_android_client.Bytes.{write_u32}
use softether_android_client.Bytes.RoundTrip.{length-write_u32}
use softether_android_client.Channel.Stream.{Arrival, Wire, read_all}
use softether_android_client.Channel.Stream.Flow.{IsFlowing, content, flat_read, read_all-Same}
use softether_android_client.Channel.Inbox.{
  and_then, skip, skip_loop, max_block_size, keep_alive_magic,
}
use softether_android_client.Channel.Inbox.Fragments.{
  Alike, Same-and_then, Same-if, Same-bind, word-Alike, skip_loop-Alike,
}
use softether_android_client.Channel.Inbox.Blocks.{
  blocks, message, read_word, skip_loop-flat, read_all_of,
}
use softether_android_client.Channel.Packet.{
  Packet, is_negative, data_of, payload_of, is_stored, store_or_skip, packet_block, packet_blocks,
  packet_keepalive, receive_packet_from,
}

module _ (w : Wire) (z : Option (ℕ → List ℕ → Option (List ℕ))) (max : ℕ) where
  store_or_skip-Alike :
      (n : ℕ) (stored : Option (List ℕ))
      → Alike (store_or_skip (read_all w) z max n stored) (store_or_skip flat_read z max n stored)
  unfolding store_or_skip skip
  store_or_skip-Alike n stored s v =
      Same-if (ltb max_block_size n) _ _ _ _ (refl, v, refl)
        (Same-if (not (is_stored stored) && leb n max) _ _ _ _
          (Same-and_then _ _ none _ _ (read_all-Same w n s v) (λ bs s' v'. (refl, v', refl)))
          (Same-bind (skip_loop (read_all w) 1251 n s) (skip_loop flat_read 1251 n (content s))
            (λ ok s'. (if ok then some stored else none, s'))
            (λ ok s'. (if ok then some stored else none, s')) (skip_loop-Alike w 1251 n s v)
            (λ ok s' v'. (refl, v', refl))))

  packet_block-Alike :
      (stored : Option (List ℕ)) (total : ℕ)
      → Alike
          (packet_block (read_all w) z max stored total)
          (packet_block flat_read z max stored total)
  unfolding packet_block
  packet_block-Alike stored total s v = Same-and_then _ _ none _ _ (word-Alike w s v) (λ n s' v'.
      Same-and_then _ _ none _ _ (store_or_skip-Alike n stored s' v')
        (λ stored' s'' v''. (refl, v'', refl)))

  packet_blocks-Alike :
      (k : ℕ) (stored : Option (List ℕ)) (total : ℕ)
      → Alike
          (packet_blocks (read_all w) z max k stored total)
          (packet_blocks flat_read z max k stored total)
  unfolding packet_blocks
  packet_blocks-Alike zero stored total s v = (refl, v, refl)
  packet_blocks-Alike (suc k) stored total s v =
      Same-and_then _ _ none _ _ (packet_block-Alike stored total s v)
        (λ r. packet_blocks-Alike k r.0 r.1)

  receive_packet_from-Alike :
      Alike (receive_packet_from (read_all w) z max) (receive_packet_from flat_read z max)
  unfolding receive_packet_from packet_keepalive
  receive_packet_from-Alike s v = Same-and_then _ _ none _ _ (word-Alike w s v) (λ count s' v'.
      Same-if (count == keep_alive_magic) _ _ _ _
        (Same-and_then _ _ none _ _ (word-Alike w s' v') (λ n s'' v''.
          Same-and_then _ _ none _ _ (read_all-Same w (if ltb 512 n then 512 else n) s'' v'')
            (λ bs s₃ v₃. (refl, v₃, refl))))
        (packet_blocks-Alike count none 4 s' v'))

-- What is stored after a block: the first that fits stays.
abbrev pub first_of :
    Option (ℕ → List ℕ → Option (List ℕ)) → ℕ → List (List ℕ) → Option (List ℕ) → Option (List ℕ)
first_of z max [] stored = stored
first_of z max (p ∷ ps) stored =
    first_of z max ps
      (if not (is_stored stored) && leb (length p) max then some (payload_of z max p) else stored)

module _ (z : Option (ℕ → List ℕ → Option (List ℕ))) (max : ℕ) where
  packet_block-flat :
      (p rest : List ℕ) (stored : Option (List ℕ)) (total : ℕ)
      → length p ≤ max_block_size
      → packet_block flat_read z max stored total (write_u32 (length p) ++ (p ++ rest)) ≡ (
        some (
          if not (is_stored stored) && leb (length p) max
              then some (payload_of z max p)
              else stored,
          u32 (total + 4 + length p),
        ),
        rest,
      )
  unfolding packet_block and_then store_or_skip skip
  packet_block-flat p rest stored total h =
      let small : ltb max_block_size (length p) ≡ false = ge→ltb _ _ h in
      rw (read_word (length p) (p ++ rest) (omega arith), small)
        (elim (Bool-cases (not (is_stored stored) && leb (length p) max)) [
          | inl first ↦ rw (first, read_all_of p rest) refl
          | inr later ↦ rw (later, skip_loop-flat 1251 (length p) p rest refl (omega arith)) refl
        ])

  packet_blocks-flat :
      (ps : List (List ℕ)) (rest : List ℕ) (stored : Option (List ℕ)) (total : ℕ)
      → All (λ p. length p ≤ max_block_size) ps
      → packet_blocks flat_read z max (length ps) stored (u32 total) (blocks ps ++ rest)
        ≡ (some (data_of (first_of z max ps stored) (u32 (total + length (blocks ps)))), rest)
  unfolding packet_blocks blocks and_then
  packet_blocks-flat [] rest stored total h =
      ap (λ n. (some (data_of stored (u32 n)), rest)) (omega arith)
  packet_blocks-flat (p ∷ ps) rest stored total h =
      let wraps : u32 (u32 total + 4 + length p) ≡ u32 (total + 4 + length p) = omega arith in
      rw
        (
          append_assoc (write_u32 (length p)) (p ++ blocks ps) rest,
          append_assoc p (blocks ps) rest,
          packet_block-flat p (blocks ps ++ rest) stored (u32 total) h.0,
          wraps,
        )
        (packet_blocks-flat ps rest _ (total + 4 + length p) h.1
          ∙ ap (λ n. (some (data_of (first_of z max (p ∷ ps) stored) (u32 n)), rest))
              (omega (
                arith,
                length-append (write_u32 (length p)) (p ++ blocks ps),
                length-append p (blocks ps),
                length-write_u32 (length p),
              )))

  receive_packet_from-flat :
      (ps : List (List ℕ)) (rest : List ℕ)
      → All (λ p. length p ≤ max_block_size) ps
      → length ps < keep_alive_magic
      → receive_packet_from flat_read z max (message ps ++ rest)
        ≡ (some (data_of (first_of z max ps none) (u32 (length (message ps)))), rest)
  unfolding receive_packet_from message and_then
  receive_packet_from-flat ps rest h few =
      rw
        (
          append_assoc (write_u32 (length ps)) (blocks ps) rest,
          read_word (length ps) (blocks ps ++ rest) (omega arith),
          ne→== (length ps) keep_alive_magic (omega arith),
        )
        (packet_blocks-flat ps rest none 4 h
          ∙ ap (λ n. (some (data_of (first_of z max ps none) (u32 n)), rest))
              (omega (
                arith,
                length-append (write_u32 (length ps)) (blocks ps),
                length-write_u32 (length ps),
              )))

-- Of a message of fewer than 2 ^ 32 - 1 blocks of at most 2,560,000 bytes, however the network cuts it
-- up, `softether_receive_packet` gives the first block that fits the caller's buffer, unpacked where
-- the session is compressed, and takes the others off the stream as well: the stream stands before the
-- next message. What it returns is the low 32 bits of the number of bytes of the message, as an int
-- that wraps around: the number itself below 2 ^ 31 bytes, and for a message of 2 ^ 31 to 2 ^ 32 - 1
-- bytes a negative number, which the callers take for an error.
pub receive_packet_from-first :
    (w : Wire) (z : Option (ℕ → List ℕ → Option (List ℕ))) (max : ℕ) (ps : List (List ℕ))
    (s : List Arrival) (rest : List ℕ)
    → All (λ p. length p ≤ max_block_size) ps
    → length ps < keep_alive_magic
    → IsFlowing s
    → content s ≡ message ps ++ rest
    → ((receive_packet_from (read_all w) z max s).0
        ≡ some (data_of (first_of z max ps none) (u32 (length (message ps)))))
      × (content (receive_packet_from (read_all w) z max s).1 ≡ rest)
      × (length (message ps) < 2 ^ 31 → u32 (length (message ps)) ≡ length (message ps))
      × (2 ^ 31 ≤ length (message ps)
          → length (message ps) < 2 ^ 32
          → is_negative (u32 (length (message ps))) ≡ true)
receive_packet_from-first w z max ps s rest h few flow e =
    let same = receive_packet_from-Alike w z max s flow in
    let flat =
      ap (receive_packet_from flat_read z max) e ∙ receive_packet_from-flat z max ps rest h few in
    (
      same.0 ∙ ap (λ (r : Option Packet × List ℕ). r.0) flat,
      same.2 ∙ ap (λ (r : Option Packet × List ℕ). r.1) flat,
      λ short. omega (arith, short),
      λ long fits. ground (arith, long, fits),
    )
