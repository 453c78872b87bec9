-- ===== src/Accel/Init/Starts.antt =====
-- A new context, and one that was initialised for a server.
use softether_android_client.Base.{
  ℕ, ◌≤◌, ◌<◌, ◌≡◌, ◌^◌, refl, arith, some, length, take, take-all, leb, ◌&&◌, if◌then◌else◌, Bool,
  true, false,
}
use softether_android_client.Accel.Context.{Context, Address, is_set}
use softether_android_client.Accel.Init.{Randoms, created, take_key, init_client, differ}
use softether_android_client.Accel.Sound.{IsSound}
use softether_android_client.Accel.Exchange.{Linked}

-- A new context is sound, and its receive queue is empty.
pub created-IsSound :
    (r : Randoms) (mine yours now : ℕ)
    → length r.next_iv ≡ 20
    → length r.next_iv_v2 ≡ 12
    → IsSound (created r mine yours now)
created-IsSound r mine yours now iv iv' = record {
  ring = record { head_within = omega arith; tail_at = omega arith; few = omega arith };
  budget = omega arith;
  iv_size = iv;
  iv_v2_size = iv';
}

-- What the server has to be for the client to hear it.
pub record IsServer (a : Context) (r : Randoms) : Type 0 where
  pub ready : a.inited && is_set a.peer_addr ≡ true
  pub plain : a.use_compress ≡ false
  pub old_version : a.version ≡ 1
  pub iv_size : length a.next_iv ≡ 20
  pub key_size : length a.my_key ≡ 20
  pub cookie_fits : a.your_cookie < 2 ^ 32
  pub tick_fits : a.last_recv_your_tick < 2 ^ 64

-- `rudp_init_client` on a new context, with the key of a ready server and the cookie that the
-- server addresses it by, succeeds for every address that `inet_pton` can read when the sockets can
-- be made, and leaves the two ends linked: what the server sends the client can read.
pub init_client-Linked :
    (a : Context) (r : Randoms) (mine yours now now' server_cookie : ℕ) (ciphers_made : Bool)
    (host : Address)
    → IsServer a r
    → ((init_client true ciphers_made
          (some host)
          a.my_key
          server_cookie
          a.your_cookie
          now'
          (created r mine yours now)).1
        ≡ true)
      × Linked a
          (init_client true ciphers_made
            (some host)
            a.my_key
            server_cookie
            a.your_cookie
            now'
            (created r mine yours now)).0
unfolding init_client take_key
init_client-Linked a r mine yours now now' server_cookie ciphers_made host s =
    rw (and-false (differ host.is_ipv6 false)) (
      refl,
      record {
        ready = s.ready;
        plain = s.plain;
        sender_version = s.old_version;
        receiver_version = refl;
        iv_size = s.iv_size;
        same_key = same_key;
        same_cookie = refl;
        cookie_fits = s.cookie_fits;
        tick_fits = s.tick_fits;
        ring = record { head_within = omega arith; tail_at = omega arith; few = omega arith };
        room = omega arith;
      },
    )
  where
    and-false : (x : Bool) → x && false ≡ false
    and-false true = refl
    and-false false = refl

    same_key : (if leb 20 (length a.my_key) then take 20 a.my_key else r.your_key) ≡ a.my_key
    same_key =
        rw (le→leb 20 (length a.my_key) (omega (arith, s.key_size)))
          (take-all 20 a.my_key (omega (arith, s.key_size)))
      where
        le→leb : (a b : ℕ) → a ≤ b → leb a b ≡ true
        le→leb a b h = ground arith
