-- ===== src/Tests/Ciphers.antt =====
-- RC4 on a published vector.
use softether_android_client.Base.{ℕ, ◌≡◌, refl, List, [], ◌∷◌, codes}
use softether_android_client.Base.{length}
use softether_android_client.Crypto.Rc4.{rc4_crypt, swap}
use softether_android_client.Crypto.Rc4.Involution.{rc4_crypt-rc4_crypt}

abbrev cipher_text : List ℕ
cipher_text = 0xBB ∷ 0xF3 ∷ 0x16 ∷ 0xE8 ∷ 0xD9 ∷ 0x40 ∷ 0xAF ∷ 0x0A ∷ 0xD3 ∷ []

vector : rc4_crypt (codes "Key") (codes "Plaintext") ≡ cipher_text
unfolding rc4_crypt swap
vector = refl

rc4_crypt-rc4_crypt_example :
    (rc4_crypt (codes "Key") (rc4_crypt (codes "Key") (codes "Plaintext")) ≡ codes "Plaintext")
    × (length (rc4_crypt (codes "Key") (codes "Plaintext")) ≡ length (codes "Plaintext"))
rc4_crypt-rc4_crypt_example = rc4_crypt-rc4_crypt (codes "Key") (codes "Plaintext")
