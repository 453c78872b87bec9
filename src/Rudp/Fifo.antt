-- ===== src/Rudp/Fifo.antt =====
-- `rt_fifo_t`, the byte FIFO of rudp_transport.c. `buf` is an allocation of `cap` bytes; the
-- transport gives up when it could not be made, so `cap` is not 0 where the functions are called.
pub mod Arrays
pub mod Refine
pub mod Append
use softether_android_client.Base.{
  ℕ, ◌+◌, ◌-◌, ◌%◌, u32, Option, none, some, List, ◌++◌, ltb, if◌then◌else◌, length, take, drop,
}

pub record Fifo : Type 0 where
  pub buf : List ℕ
  pub cap : ℕ
  pub head : ℕ
  pub size : ℕ

unfoldable pub avail : Fifo → ℕ
avail f = f.cap - f.size

-- `memcpy(buf + off, bs, length bs)`
abbrev pub splice : ℕ → List ℕ → List ℕ → List ℕ
splice off bs buf = take off buf ++ (bs ++ drop (off + length bs) buf)

abbrev pub smaller : ℕ → ℕ → ℕ
smaller n len = if ltb len n then len else n

-- `none` is -1, which leaves the FIFO alone. The second copy wraps to the start.
unfoldable pub write : Fifo → List ℕ → Option Fifo
unfolding avail
write f bs =
    if ltb (avail f) (length bs)
    then none
    else let off = u32 (f.head + f.size) % f.cap in
      let n1 = smaller (f.cap - off) (length bs) in
      let once = splice off (take n1 bs) f.buf in
      some (record f {
        buf = if ltb n1 (length bs) then splice 0 (drop n1 bs) once else once;
        size = u32 (f.size + length bs);
      })

-- The bytes copied out; their number is the result of the C function.
unfoldable pub peek : Fifo → ℕ → List ℕ
peek f n =
    let len = smaller f.size n in
    let n1 = smaller (f.cap - f.head) len in
    let first = take n1 (drop f.head f.buf) in
    if ltb n1 len then first ++ take (len - n1) f.buf else first

unfoldable pub advance : Fifo → ℕ → Fifo
advance f n =
    let len = smaller f.size n in
    record f { head = u32 (f.head + len) % f.cap; size = f.size - len }
