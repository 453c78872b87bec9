-- ===== src/Crypto/Rc4.antt =====
-- `rc4_crypt` of aes_wrapper.c. A buffer that is NULL does not occur here; `& 0xFF` is `% 256`.
pub mod Xor
pub mod Involution
use softether_android_client.Base.{
  ℕ, zero, suc, ◌+◌, ◌%◌, List, [], ◌∷◌, ◌==◌, if◌then◌else◌, length, get_or, set,
}
use Prim.Native.Nat.{bit_xor}

-- `n` entries of the initial box, from `i` on.
unfoldable pub identity : ℕ → ℕ → List ℕ
identity zero i = []
identity (suc n) i = i ∷ identity n (i + 1)

-- The exchange of two entries.
unfoldable pub swap : List ℕ → ℕ → ℕ → List ℕ
swap sbox i j = set (set sbox i (get_or sbox j 0)) j (get_or sbox i 0)

-- The key schedule, with `n` rounds to go.
unfoldable pub schedule : List ℕ → ℕ → ℕ → ℕ → List ℕ → List ℕ
schedule key zero i j sbox = sbox
schedule key (suc n) i j sbox =
    let j' = (j + get_or sbox i 0 + get_or key (i % length key) 0) % 256 in
    schedule key n (i + 1) j' (swap sbox i j')

-- The loop over the bytes, with the two indices and the box.
unfoldable pub crypt_loop : ℕ → ℕ → List ℕ → List ℕ → List ℕ
crypt_loop i j sbox [] = []
crypt_loop i j sbox (b ∷ bs) =
    let i' = (i + 1) % 256 in
    let j' = (j + get_or sbox i' 0) % 256 in
    let sbox' = swap sbox i' j' in
    bit_xor b (get_or sbox' ((get_or sbox' i' 0 + get_or sbox' j' 0) % 256) 0)
    ∷ crypt_loop i' j' sbox' bs

unfoldable pub rc4_crypt : List ℕ → List ℕ → List ℕ
unfolding schedule identity crypt_loop
rc4_crypt key bs =
    if length key == 0 then bs else crypt_loop 0 0 (schedule key 256 0 0 (identity 256 0)) bs
