-- ===== src/Rudp/Send/Sealed.antt =====
-- What one end signs and encrypts with a key, the other end accepts and decrypts with it.
use softether_android_client.Base.{
  ℕ, ◌+◌, ◌≡◌, refl, sym, ap, ◌∙◌, arith, List, ◌++◌, length, length-append, take, drop, drop-drop,
  take-append, drop-append, true,
}
use softether_android_client.Crypto.Rc4.{rc4_crypt}
use softether_android_client.Crypto.Rc4.Involution.{rc4_crypt-rc4_crypt, length-rc4_crypt}
use softether_android_client.Rudp.Packet.{is_signed, decrypt}
use softether_android_client.Rudp.Send.{seal}
use softether_android_client.Rudp.Send.Fields.{list_eq_self}

-- Signing and encrypting with one key is what the other end undoes.
module _ (sha1 : List ℕ → List ℕ) (hashes : (bs : List ℕ) → length (sha1 bs) ≡ 20)
    (key iv plain : List ℕ) (iv_size : length iv ≡ 20) where
  abbrev pub sealed : List ℕ
  sealed = seal sha1 rc4_crypt key iv plain

  abbrev pub body : List ℕ
  body = rc4_crypt (sha1 (iv ++ key)) plain

  sign_at : (take 20 sealed ≡ sha1 (key ++ (iv ++ body))) × (drop 20 sealed ≡ iv ++ body)
  unfolding seal
  sign_at = (
    take-append 20 (sha1 (key ++ (iv ++ body))) (iv ++ body) (sym (hashes _)),
    drop-append 20 (sha1 (key ++ (iv ++ body))) (iv ++ body) (sym (hashes _)),
  )

  body_at : drop 40 sealed ≡ body
  body_at =
      drop-drop 40 20 20 sealed refl ∙ ap (drop 20) sign_at.1 ∙ drop-append 20 iv body (sym iv_size)

  pub length-seal : length sealed ≡ 40 + length plain
  unfolding seal
  length-seal = omega (
    arith,
    length-append (sha1 (key ++ (iv ++ body))) (iv ++ body),
    length-append iv body,
    hashes (key ++ (iv ++ body)),
    length-rc4_crypt (sha1 (iv ++ key)) plain,
  )

  pub is_signed-seal : is_signed sha1 rc4_crypt key sealed ≡ true
  is_signed-seal = rw (sign_at.0, sign_at.1, list_eq_self)

  pub decrypt-seal : decrypt sha1 rc4_crypt key sealed ≡ plain
  decrypt-seal =
      rw (sign_at.1, take-append 20 iv body (sym iv_size), body_at)
        (rc4_crypt-rc4_crypt (sha1 (iv ++ key)) plain).0
