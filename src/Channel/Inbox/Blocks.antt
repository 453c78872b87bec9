-- ===== src/Channel/Inbox/Blocks.antt =====
-- Blocks as the server sends them, and what reading one does.
use softether_android_client.Base.{
  ℕ, zero, suc, ◌-◌, ◌*◌, ◌^◌, ◌≤◌, ◌<◌, ◌≡◌, refl, ap, ap₂, ◌∙◌, arith, Option, some, List, [],
  ◌∷◌, ◌++◌, length, length-drop, drop, take-all, drop-all, ltb, leb, ◌==◌, ◌&&◌, if◌then◌else◌,
  ge→ltb, Bool-cases, inl, inr, true, false, ==→eq,
}
use softether_android_client.Bytes.{write_u32}
use softether_android_client.Bytes.RoundTrip.{read_u32-write_u32}
use softether_android_client.Channel.Stream.{word_of}
use softether_android_client.Channel.Stream.Flow.{flat_read, flat_read-front}
use softether_android_client.Channel.Inbox.{
  Inbox, and_then, skip_loop, skip, queue_block, skip_block, block_of_size, next_block, frame_of,
  skipped, push, done, max_block_size, max_queued_frame, queue_size,
}

-- Blocks as they stand on the wire, and a message of them.
unfoldable pub blocks : List (List ℕ) → List ℕ
blocks [] = []
blocks (p ∷ ps) = write_u32 (length p) ++ (p ++ blocks ps)

unfoldable pub message : List (List ℕ) → List ℕ
message ps = write_u32 (length ps) ++ blocks ps

pub read_word :
    (n : ℕ) (bs : List ℕ) → n < 2 ^ 32 → word_of (flat_read 4 (write_u32 n ++ bs)) ≡ (some n, bs)
unfolding word_of write_u32
read_word n bs h =
    rw (flat_read-front 4 (write_u32 n) bs (omega arith), read_u32-write_u32 n h) refl

abbrev chunk : ℕ → ℕ
chunk n = if ltb 2048 n then 2048 else n

chunk-le : (n : ℕ) → chunk n ≤ n
chunk-le n = ground arith

chunk-most : (n k : ℕ) → n ≤ 2048 * suc k → n - chunk n ≤ 2048 * k
chunk-most n k h = ground arith

empty_append : (n : ℕ) (bs rest : List ℕ) → n ≡ length bs → n ≡ 0 → bs ++ rest ≡ rest
empty_append n [] rest e h = refl
empty_append n (b ∷ bs) rest e h = absurd (omega arith)

pub skip_loop-flat :
    (k n : ℕ) (bs rest : List ℕ)
    → n ≡ length bs
    → n ≤ 2048 * k
    → skip_loop flat_read k n (bs ++ rest) ≡ (true, rest)
unfolding skip_loop and_then
skip_loop-flat zero n bs rest e h =
    ap (λ (t : List ℕ). (true, t)) (empty_append n bs rest e (omega arith))
skip_loop-flat (suc k) n bs rest e h = elim (Bool-cases (n == 0)) [
  | inl none_left ↦
      rw none_left (ap (λ (t : List ℕ). (true, t)) (empty_append n bs rest e (==→eq n 0 none_left)))
  | inr some_left ↦
      let c_le = chunk-le n in
      rw (some_left, flat_read-front (chunk n) bs rest (omega arith))
        (skip_loop-flat k (n - chunk n) (drop (chunk n) bs) rest
          (omega (arith, length-drop (chunk n) bs)) (chunk-most n k h))
]

pub read_all_of : (bs rest : List ℕ) → flat_read (length bs) (bs ++ rest) ≡ (some bs, rest)
read_all_of bs rest =
    flat_read-front (length bs) bs rest (omega arith)
    ∙ ap₂ (λ (x y : List ℕ). (some x, y ++ rest)) (take-all (length bs) bs (omega arith))
        (drop-all (length bs) bs (omega arith))

-- What becomes of the inbox with one block.
abbrev pub step : Option (ℕ → List ℕ → Option (List ℕ)) → List ℕ → Inbox → Inbox
step z p i =
    if length p == 0
    then i
    else if leb (length p) max_queued_frame && ltb i.queue.count queue_size
    then push (frame_of z p) i
    else skipped i

pub next_block-flat :
    (z : Option (ℕ → List ℕ → Option (List ℕ))) (p rest : List ℕ) (i : Inbox)
    → length p ≤ max_block_size
    → next_block flat_read z i (write_u32 (length p) ++ (p ++ rest)) ≡ ((done, step z p i), rest)
unfolding next_block and_then block_of_size queue_block skip_block skip
next_block-flat z p rest i h =
    let small : ltb max_block_size (length p) ≡ false = ge→ltb _ _ h in
    rw (read_word (length p) (p ++ rest) (omega arith), small)
      (elim (Bool-cases (length p == 0)) [
        | inl e ↦ rw e (
            ap (λ (t : List ℕ). ((done, i), t)) (empty_append (length p) p rest refl (==→eq _ 0 e)))
        | inr ne ↦
            elim (Bool-cases (leb (length p) max_queued_frame && ltb i.queue.count queue_size)) [
              | inl room ↦ rw (ne, room, read_all_of p rest) refl
              | inr no_room ↦
                  rw (ne, no_room, skip_loop-flat 1251 (length p) p rest refl (omega arith)) refl
            ]
      ])
