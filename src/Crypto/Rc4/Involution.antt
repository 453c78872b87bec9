-- ===== src/Crypto/Rc4/Involution.antt =====
-- Decrypting is encrypting: the key stream does not depend on the bytes.
use softether_android_client.Base.{
  ℕ, ◌+◌, ◌%◌, ◌≡◌, refl, ap, List, [], ◌∷◌, length, get_or, Bool-cases, inl, inr, ◌==◌, suc,
}
use softether_android_client.Crypto.Rc4.{swap, crypt_loop, rc4_crypt}
use softether_android_client.Crypto.Rc4.Xor.{bit_xor_cancel}

crypt_loop-crypt_loop :
    (i j : ℕ) (sbox bs : List ℕ) → crypt_loop i j sbox (crypt_loop i j sbox bs) ≡ bs
unfolding crypt_loop
crypt_loop-crypt_loop i j sbox [] = refl
crypt_loop-crypt_loop i j sbox (b ∷ bs) =
    let i' = (i + 1) % 256 in
    let j' = (j + get_or sbox i' 0) % 256 in
    rw (bit_xor_cancel, crypt_loop-crypt_loop i' j' (swap sbox i' j') bs)

length-crypt_loop : (i j : ℕ) (sbox bs : List ℕ) → length (crypt_loop i j sbox bs) ≡ length bs
unfolding crypt_loop
length-crypt_loop i j sbox [] = refl
length-crypt_loop i j sbox (b ∷ bs) =
    let i' = (i + 1) % 256 in
    let j' = (j + get_or sbox i' 0) % 256 in ap suc (length-crypt_loop i' j' (swap sbox i' j') bs)

pub length-rc4_crypt : (key bs : List ℕ) → length (rc4_crypt key bs) ≡ length bs
unfolding rc4_crypt
length-rc4_crypt key bs = elim (Bool-cases (length key == 0)) [
  | inl e ↦ rw e
  | inr e ↦ rw (e, length-crypt_loop)
]

-- `rc4_crypt` with a key undoes itself, for every key and all bytes, and keeps their number.
pub rc4_crypt-rc4_crypt :
    (key bs : List ℕ)
    → (rc4_crypt key (rc4_crypt key bs) ≡ bs) × (length (rc4_crypt key bs) ≡ length bs)
unfolding rc4_crypt
rc4_crypt-rc4_crypt key bs = elim (Bool-cases (length key == 0)) [
  | inl e ↦ (rw e refl, length-rc4_crypt key bs)
  | inr e ↦ (rw (e, crypt_loop-crypt_loop), length-rc4_crypt key bs)
]
