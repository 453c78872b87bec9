-- ===== src/Channel/Ethernet/Arp.antt =====
-- ARP between two ends: the answer of one is what the other waits for.
use softether_android_client.Base.{
  ℕ, ◌^◌, ◌<◌, ◌≡◌, ◌≢◌, refl, some, List, [], ◌∷◌, length, ==_self, ne→==, true,
}
use softether_android_client.Bytes.{write_u32}
use softether_android_client.Bytes.RoundTrip.{read_u32-write_u32}
use softether_android_client.Channel.Connection.{Connection}
use softether_android_client.Channel.Ethernet.{
  arp_reply, arp_request, is_arp, is_arp_answer, resolved,
}

-- The bytes of a hardware address.
pub record IsMac (m : List ℕ) : Type 0 where
  pub b0 : ℕ
  pub b1 : ℕ
  pub b2 : ℕ
  pub b3 : ℕ
  pub b4 : ℕ
  pub b5 : ℕ
  pub bytes : m ≡ b0 ∷ (b1 ∷ (b2 ∷ (b3 ∷ (b4 ∷ (b5 ∷ [])))))

-- The request of one end for the address of the other is answered there, and the answer ends the wait
-- of the first and gives it the hardware address of the second.
pub arp_reply-arp_request :
    (a b : Connection)
    → IsMac a.client_mac
    → IsMac b.client_mac
    → b.assigned_ip ≢ 0
    → b.assigned_ip < 2 ^ 32
    → (is_arp (arp_request a b.assigned_ip) ≡ true)
      × ((reply : List ℕ) × (arp_reply b (arp_request a b.assigned_ip) ≡ some reply)
          × (is_arp_answer b.assigned_ip reply ≡ true)
          × (length reply ≡ 42)
          × ((resolved reply a).gateway_mac ≡ b.client_mac))
unfolding is_arp arp_reply arp_request is_arp_answer resolved write_u32
arp_reply-arp_request a b ha hb used small =
    rw
      (
        ha.bytes,
        hb.bytes,
        ne→== b.assigned_ip 0 used,
        read_u32-write_u32 b.assigned_ip small,
        ==_self b.assigned_ip,
      )
      (
        refl,
        (
          _,
          refl,
          rw (read_u32-write_u32 b.assigned_ip small, ==_self b.assigned_ip) refl,
          refl,
          refl,
        ),
      )
