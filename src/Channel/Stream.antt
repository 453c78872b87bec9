-- ===== src/Channel/Stream.antt =====
-- The loops of packet_handler.c that read and write an exact number of bytes. What the calls of
-- `ssl_read` or `recv` on a socket will give is a list of arrivals, and its end is a closed
-- connection; what the calls of `ssl_write` or `send` will give is a list of results. The state of
-- the connection stays the same during one loop.
pub mod Flow
use softether_android_client.Base.{
  ℕ, zero, suc, ◌-◌, Option, none, some, List, [], ◌∷◌, ◌++◌, ltb, if◌then◌else◌, length, take,
  drop, Bool, true, false, min,
}
use softether_android_client.Bytes.{read_u32}
use softether_android_client.Pack.Reader.{read_uint32}

-- What has come in: bytes, of which a call takes as many as it wants and leaves the others, where
-- no bytes are the result 0 of a closed connection; EAGAIN or EWOULDBLOCK; EINTR; another error.
pub data Arrival : Type 0 where
  got : List ℕ → Arrival
  again : Arrival
  interrupted : Arrival
  failed : Arrival

-- How a loop reads: through TLS, or with `recv`, where `raw_read_all_fd` tries again after EINTR
-- and `raw_read_all` does not.
pub data Wire : Type 0 where
  tls : Wire
  raw_fd : Wire
  raw_conn : Wire

abbrev pub retries : Wire → Arrival → Bool
retries tls a = false
retries raw_fd again = true
retries raw_fd interrupted = true
retries raw_conn again = true
retries w a = false

abbrev pub prepend : {S : Type 0} → List ℕ → Option (List ℕ) × S → Option (List ℕ) × S
prepend bs (none, s) = (none, s)
prepend bs (some cs, s) = (some (bs ++ cs), s)

-- The loops of `ssl_read_all_ctx`, `raw_read_all_fd`, `ssl_read_all` and `raw_read_all`: `none` is
-- -1, and what was read before it is lost.
unfoldable pub read_all : Wire → ℕ → List Arrival → Option (List ℕ) × List Arrival
read_all w zero s = (some [], s)
read_all w (suc n) [] = (none, [])
read_all w (suc n) (got [] ∷ s) = (none, s)
read_all w (suc n) (got (b ∷ bs) ∷ s) =
    let rest = prepend (b ∷ bs) (read_all w (n - length bs) s) in
    if ltb n (length bs) then (some (b ∷ take n bs), got (drop n bs) ∷ s) else rest
read_all w (suc n) (again ∷ s) =
    let rest = read_all w (suc n) s in if retries w again then rest else (none, s)
read_all w (suc n) (interrupted ∷ s) =
    let rest = read_all w (suc n) s in if retries w interrupted then rest else (none, s)
read_all w (suc n) (failed ∷ s) = (none, s)

abbrev pub word : Option (List ℕ) → Option ℕ
word (some (a ∷ (b ∷ (c ∷ (d ∷ bs))))) = some (read_u32 a b c d)
word o = none

-- `read_uint32_sock` and `read_uint32`, on what reading four bytes gives.
unfoldable pub word_of : {S : Type 0} → Option (List ℕ) × S → Option ℕ × S
word_of (o, s) = (word o, s)

-- What a call that writes gives: a number of bytes, at most as many as it was given, where 0 ends
-- the loop; EAGAIN or EWOULDBLOCK; another error.
pub data Write : Type 0 where
  took : ℕ → Write
  full : Write
  broken : Write

-- The loops of `data_write_all_sock`, `ssl_write_all` and `raw_write_all`, with the bytes that went
-- out.
unfoldable pub write_all : (ssl : Bool) → List ℕ → List Write → List ℕ × Bool
write_all ssl [] rs = ([], true)
write_all ssl (b ∷ bs) [] = ([], false)
write_all ssl (b ∷ bs) (took zero ∷ rs) = ([], false)
write_all ssl (b ∷ bs) (took (suc k) ∷ rs) =
    let (sent, ok) = write_all ssl (drop k bs) rs in ((b ∷ take k bs) ++ sent, ok)
write_all ssl (b ∷ bs) (full ∷ rs) =
    let rest = write_all ssl (b ∷ bs) rs in if ssl then ([], false) else rest
write_all ssl (b ∷ bs) (broken ∷ rs) = ([], false)
