-- ===== src/Bytes.antt =====
-- Big-endian words as the C code writes and reads them: `pack_write_uint32`, `pack_write_uint64`
-- of softether_pack.c and `rt_w32`, `rt_w64`, `rt_r32`, `rt_r64` of rudp_transport.c.
-- `|` of disjoint byte fields is written as a sum.
pub mod RoundTrip
use softether_android_client.Base.{ℕ, zero, suc, ◌+◌, ◌*◌, ◌/◌, ◌%◌, ◌^◌, u64}
use softether_android_client.Base.{List, [], ◌∷◌}

unfoldable pub write_u32 : ℕ → List ℕ
write_u32 v = (v / 2 ^ 24) % 256 ∷ (v / 2 ^ 16) % 256 ∷ (v / 2 ^ 8) % 256 ∷ v % 256 ∷ []

unfoldable pub read_u32 : ℕ → ℕ → ℕ → ℕ → ℕ
read_u32 a b c d = a * 2 ^ 24 + b * 2 ^ 16 + c * 2 ^ 8 + d

-- The loop `for (i = k - 1; i >= 0; i--)` that writes byte `i` of `v`.
unfoldable pub write_bytes : ℕ → ℕ → List ℕ
write_bytes zero v = []
write_bytes (suc i) v = (v / 2 ^ (i * 8)) % 256 ∷ write_bytes i v

unfoldable pub write_u64 : ℕ → List ℕ
unfolding write_bytes
write_u64 v = write_bytes 8 v

-- The loop `v = (v << 8) | p[i]` over the bytes.
unfoldable pub fold_bytes : ℕ → List ℕ → ℕ
fold_bytes v [] = v
fold_bytes v (b ∷ bs) = fold_bytes (u64 (v * 2 ^ 8) + b) bs
