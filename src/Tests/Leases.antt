-- ===== src/Tests/Leases.antt =====
-- The DHCP exchange on concrete rounds.
use softether_android_client.Base.{
  ℕ, ◌+◌, ◌≡◌, ◌≤◌, refl, some, List, [], ◌∷◌, true, if◌then◌else◌, ltb, length, take, drop,
}
use softether_android_client.Dhcp.Parse.{Lease, parse_dhcp_response}
use softether_android_client.Dhcp.Build.{build_dhcp_frame, ip_checksum}
use softether_android_client.Dhcp.Build.Request.{build_dhcp_frame_lem}
use softether_android_client.Dhcp.Exchange.{
  Round, silent, frame, pending, timed_out, World, wait_dhcp_response, do_dhcp, no_lease,
}
use softether_android_client.Dhcp.Exchange.Patience.{silence, wait_dhcp_response-Idle}
use softether_android_client.Dhcp.Exchange.Frugal.{Adds, do_dhcp-Adds}

abbrev mac : List ℕ
mac = 2 ∷ 0 ∷ 0 ∷ 0 ∷ 0 ∷ 1 ∷ []

build_dhcp_frame_lem_example :
    (bs : List ℕ) × (build_dhcp_frame 600 mac 7 3 99 1 5 6 ≡ some bs)
    × (length bs ≤ 310)
    × (ip_checksum (take 20 (drop 14 bs)) ≡ 0)
    × ((l : Lease) → parse_dhcp_response bs 7 mac l ≡ some (0, l))
build_dhcp_frame_lem_example = build_dhcp_frame_lem 2 0 0 0 0 1 7 3 99 1 5 6

-- A frame that is too short for an answer, then a pause.
abbrev quiet : List Round
quiet = frame (1 ∷ []) ∷ silent ∷ frame (2 ∷ []) ∷ []

wait_dhcp_response-Idle_example :
    (wait_dhcp_response 7 mac 5000 4900 quiet no_lease).0
    ≡ (if ltb (4900 + silence quiet) 5000 then pending else timed_out)
wait_dhcp_response-Idle_example =
    wait_dhcp_response-Idle 7 mac 5000 4900 quiet no_lease
      (unfold parse_dhcp_response in (refl, (tt, (refl, tt))))

abbrev world : World
world = record { rounds = quiet; send_results = true ∷ []; randoms = (5, 6) ∷ []; sent = [] }

do_dhcp-Adds_example : Adds 6 [] (do_dhcp true 7 mac world).1.sent
do_dhcp-Adds_example = do_dhcp-Adds 2 0 0 0 0 1 7 true world
