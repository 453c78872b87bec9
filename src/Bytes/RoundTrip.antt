-- ===== src/Bytes/RoundTrip.antt =====
-- Reading back a written word gives the word.
use softether_android_client.Base.{ℕ, ◌+◌, ◌*◌, ◌/◌, ◌%◌, ◌^◌, ◌<◌, ◌≡◌, refl, arith, u64, length}
use softether_android_client.Bytes.{write_u32, read_u32, write_u64, fold_bytes}

pub length-write_u32 : (v : ℕ) → length (write_u32 v) ≡ 4
unfolding write_u32
length-write_u32 v = refl

pub length-write_u64 : (v : ℕ) → length (write_u64 v) ≡ 8
unfolding write_u64
length-write_u64 v = refl

pub read_u32-write_u32 :
    (v : ℕ)
    → v < 2 ^ 32
    → read_u32 (v / 2 ^ 24 % 256) (v / 2 ^ 16 % 256) (v / 2 ^ 8 % 256) (v % 256) ≡ v
unfolding read_u32
read_u32-write_u32 v h = omega arith

pub read_u32-lt : (a b c d : ℕ) → a < 256 → b < 256 → c < 256 → d < 256 → read_u32 a b c d < 2 ^ 32
unfolding read_u32
read_u32-lt a b c d ha hb hc hd = omega arith

-- Nothing is shifted out of a value below 2 ^ 56.
join : (v b : ℕ) → v < 2 ^ 56 → u64 (v * 2 ^ 8) + b ≡ v * 256 + b
join v b h = omega arith

pub fold_bytes-write_u64 : (v : ℕ) → v < 2 ^ 64 → fold_bytes 0 (write_u64 v) ≡ v
unfolding write_u64 fold_bytes
fold_bytes-write_u64 v h = omega arith
