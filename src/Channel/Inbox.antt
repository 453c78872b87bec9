-- ===== src/Channel/Inbox.antt =====
-- The receive queue of a connection, `recv_queue` with its head, tail and count of
-- softether_protocol.h, and the part of `softether_fill_recv_queue_locked` in packet_handler.c that
-- reads one message from the socket it has chosen and puts the blocks into the queue.
pub mod Queue
pub mod Blocks
pub mod Message
pub mod Fragments
pub mod Rings
use softether_android_client.Base.{
  ℕ, zero, suc, ◌+◌, ◌-◌, ◌%◌, u32, Option, none, some, List, [], ltb, leb, ◌==◌, ◌&&◌,
  if◌then◌else◌, length, take, drop, Bool, true, false,
}
use softether_android_client.Bytes.{fold_bytes}
use softether_android_client.Accel.Context.{Ring, update}
use softether_android_client.Channel.Stream.{word_of}

abbrev pub queue_size : ℕ
queue_size = 64

abbrev pub max_queued_frame : ℕ
max_queued_frame = 2048

abbrev pub max_block_size : ℕ
max_block_size = 2560000

abbrev pub keep_alive_magic : ℕ
keep_alive_magic = 0xFFFFFFFF

abbrev pub compress_magic : ℕ
compress_magic = 0xDEADBEEFCAFEFACE

-- The fields of the connection that reading a message changes. An entry of the queue is the list of
-- its `len` bytes.
pub record Inbox : Type 0 where
  pub queue : Ring
  pub rx_skipped_blocks : ℕ

-- The steps that put a frame behind those that wait.
unfoldable pub enqueue : List ℕ → Ring → Ring
enqueue bs q = record q {
  slots = update q.slots q.tail bs;
  tail = (q.tail + 1) % queue_size;
  count = q.count + 1;
}

-- The steps that take the oldest frame out.
unfoldable pub pop : Ring → Ring
pop q = record q { head = (q.head + 1) % queue_size; count = q.count - 1 }

unfoldable pub push : List ℕ → Inbox → Inbox
push bs i = record i { queue = enqueue bs i.queue }

-- `conn->rx_skipped_blocks++`
unfoldable pub skipped : Inbox → Inbox
skipped i = record i { rx_skipped_blocks = u32 (i.rx_skipped_blocks + 1) }

abbrev pub or_else : Option (List ℕ) → List ℕ → List ℕ
or_else none bs = bs
or_else (some cs) bs = cs

-- The frame that a block stands for in a compressed session: `uncompress max bs` is what
-- `uncompress_data` gives with room for `max` bytes. First the whole block, then what follows the
-- signature, else the block as it is.
unfoldable pub decode : (ℕ → List ℕ → Option (List ℕ)) → ℕ → List ℕ → List ℕ
decode uncompress max bs =
    let signed = ltb 8 (length bs) && (fold_bytes 0 (take 8 bs) == compress_magic) in
    let behind = if signed then uncompress max (drop 8 bs) else none in
    or_else (uncompress max bs) (or_else behind bs)

-- The frame that a block stands for, with zlib where the session is compressed.
abbrev pub frame_of : Option (ℕ → List ℕ → Option (List ℕ)) → List ℕ → List ℕ
frame_of none bs = bs
frame_of (some uncompress) bs = decode uncompress max_queued_frame bs

-- How reading a message ends: to its end, with no blocks to read, a keepalive read, a read that fails, a block whose size
-- is refused.
pub data Ending : Type 0 where
  done : Ending
  no_blocks : Ending
  keepalive : Ending
  unreadable : Ending
  too_large : Ending

abbrev pub is_done : Ending → Bool
is_done done = true
is_done e = false

-- Go on with what was read, or end with `b` where the read failed.
unfoldable pub and_then : {A B S : Type 0} → Option A × S → B → (A → S → B × S) → B × S
and_then (none, s) b k = (b, s)
and_then (some a, s) b k = k a s

-- `read n s` gives `n` bytes of the socket whose bytes to come are `s`.
module _ {S : Type 0} (read : ℕ → S → Option (List ℕ) × S) where
  -- The loop that skips in pieces of 2,048 bytes, on fuel for the pieces.
  unfoldable pub skip_loop : ℕ → ℕ → S → Bool × S
  skip_loop zero remaining s = (true, s)
  skip_loop (suc k) remaining s =
      let chunk = if ltb 2048 remaining then 2048 else remaining in
      let rest = and_then (read chunk s) false (λ bs s'. skip_loop k (remaining - chunk) s') in
      if remaining == 0 then (true, s) else rest

  -- Enough for the largest block: 1,250 pieces.
  unfoldable pub skip : ℕ → S → Bool × S
  skip n s = skip_loop 1251 n s

  unfoldable pub queue_block :
      Option (ℕ → List ℕ → Option (List ℕ)) → ℕ → Inbox → S → (Ending × Inbox) × S
  queue_block z n i s =
      and_then (read n s) (unreadable, i) (λ bs s'. ((done, push (frame_of z bs) i), s'))

  unfoldable pub skip_block : ℕ → Inbox → S → (Ending × Inbox) × S
  skip_block n i s =
      let (ok, s') = skip n s in if ok then ((done, skipped i), s') else ((unreadable, i), s')

  -- A block whose size was read. `z` is zlib when the session is compressed; `malloc` gives the
  -- memory that a compressed block is read into.
  unfoldable pub block_of_size :
      Option (ℕ → List ℕ → Option (List ℕ)) → ℕ → Inbox → S → (Ending × Inbox) × S
  block_of_size z n i s =
      if ltb max_block_size n
      then ((too_large, i), s)
      else if n == 0
      then ((done, i), s)
      else if leb n max_queued_frame && ltb i.queue.count queue_size
      then queue_block z n i s
      else skip_block n i s

  unfoldable pub next_block :
      Option (ℕ → List ℕ → Option (List ℕ)) → Inbox → S → (Ending × Inbox) × S
  next_block z i s = and_then (word_of (read 4 s)) (unreadable, i) (λ n s'. block_of_size z n i s')

  -- The loop over the blocks.
  unfoldable pub read_blocks :
      ℕ → Option (ℕ → List ℕ → Option (List ℕ)) → Inbox → S → (Ending × Inbox) × S
  read_blocks zero z i s = ((done, i), s)
  read_blocks (suc k) z i s =
      let (r, s') = next_block z i s in
      let rest = read_blocks k z r.1 s' in if is_done r.0 then rest else (r, s')

  -- The payload of a keepalive whose size was read: at most 512 bytes are read of it.
  unfoldable pub keepalive_payload : ℕ → Inbox → S → (Ending × Inbox) × S
  keepalive_payload n i s =
      and_then (read (if ltb 512 n then 512 else n) s) (unreadable, i)
        (λ bs s'. ((keepalive, i), s'))

  -- One message, from the block count or the magic number to the last block.
  unfoldable pub read_message :
      Option (ℕ → List ℕ → Option (List ℕ)) → Inbox → S → (Ending × Inbox) × S
  read_message z i s =
      and_then (word_of (read 4 s)) (unreadable, i)
        (λ count s'.
          if count == keep_alive_magic
          then and_then (word_of (read 4 s')) (unreadable, i) (λ n s''. keepalive_payload n i s'')
          else if count == 0
          then ((no_blocks, i), s')
          else read_blocks count z i s')
