-- ===== src/Dhcp/Exchange/Frugal.antt =====
-- What `softether_do_dhcp` sends.
use softether_android_client.Base.{
  ℕ, zero, suc, ◌*◌, ◌≡◌, ◌≤◌, refl, arith, some, List, [], ◌∷◌, ◌++◌, if◌then◌else◌, Bool, true,
  false, All, length, ◌==◌, append-nil, append_assoc, sym, ◌∙◌,
}
use softether_android_client.Dhcp.Parse.{Lease}
use softether_android_client.Dhcp.Build.{dhcp_request, dhcp_discover}
use softether_android_client.Dhcp.Build.Request.{build_dhcp_frame_lem}
use softether_android_client.Dhcp.Exchange.{
  answered, timed_out, broken, pending, faulty, Wait, World, Outcome, head_or, send_built,
  after_wait, frame_of, request_offer, attempts, do_dhcp, wait_dhcp_response, no_lease,
}

-- At most `n` frames more, and none of more than 310 bytes among them.
pub record Adds (n : ℕ) (xs ys : List (List ℕ)) : Type 0 where
  pub frames : List (List ℕ)
  pub is : ys ≡ xs ++ frames
  pub few : length frames ≤ n
  pub short : All (λ bs. length bs ≤ 310) frames

Adds-nothing : (n : ℕ) (xs : List (List ℕ)) → Adds n xs xs
Adds-nothing n xs = record { frames = []; is = sym (append-nil xs); few = omega arith; short = tt }

Adds-more : (m n : ℕ) (xs ys : List (List ℕ)) → m ≤ n → Adds m xs ys → Adds n xs ys
Adds-more m n xs ys h s = record {
  frames = s.frames;
  is = s.is;
  few = omega (arith, s.few);
  short = s.short;
}

Adds-frame :
    (bs : List ℕ) (n : ℕ) (xs ys : List (List ℕ))
    → length bs ≤ 310
    → Adds n (xs ++ (bs ∷ [])) ys
    → Adds (suc n) xs ys
Adds-frame bs n xs ys h s = record {
  frames = bs ∷ s.frames;
  is = s.is ∙ append_assoc xs (bs ∷ []) s.frames;
  few = omega (arith, s.few);
  short = (h, s.short);
}

if-Adds :
    (b : Bool) (n : ℕ) (w : World) (x y : Outcome × World)
    → Adds n w.sent x.1.sent
    → Adds n w.sent y.1.sent
    → Adds n w.sent (if b then x else y).1.sent
if-Adds true n w x y p q = p
if-Adds false n w x y p q = q

send_built-Adds :
    (bs : List ℕ) (n : ℕ) (w : World) (more : World → Outcome × World)
    → length bs ≤ 310
    → ((w' : World) → Adds n w'.sent (more w').1.sent)
    → Adds (suc n) w.sent (send_built (some bs) w more).1.sent
send_built-Adds bs n w more short h = go (head_or true w.send_results) refl
  where
    go :
        (b : Bool)
        → head_or true w.send_results ≡ b
        → Adds (suc n) w.sent (send_built (some bs) w more).1.sent
    go false e = rw (e, send_built) (Adds-nothing (suc n) w.sent)
    go true e = rw (e, send_built) (Adds-frame bs n w.sent _ short (h _))

after_wait-Adds :
    (n : ℕ) (w : World) (x : Wait) (more : ℕ → Lease → World → Outcome × World)
    (again : Lease → World → Outcome × World)
    → ((m : ℕ) (r : Lease) (w' : World) → Adds n w'.sent (more m r w').1.sent)
    → ((r : Lease) (w' : World) → Adds n w'.sent (again r w').1.sent)
    → Adds n w.sent (after_wait w x more again).1.sent
after_wait-Adds n w (answered m, r, rest) more again p q = p m r (record w { rounds = rest })
after_wait-Adds n w (timed_out, r, rest) more again p q = q r (record w { rounds = rest })
after_wait-Adds n w (broken, r, rest) more again p q = Adds-nothing n w.sent
after_wait-Adds n w (pending, r, rest) more again p q = Adds-nothing n w.sent
after_wait-Adds n w (faulty, r, rest) more again p q = Adds-nothing n w.sent

module _ (m0 m1 m2 m3 m4 m5 xid : ℕ) where
  abbrev mac : List ℕ
  mac = m0 ∷ m1 ∷ m2 ∷ m3 ∷ m4 ∷ m5 ∷ []

  send_frame-Adds :
      (msg_type requested_ip server_id n : ℕ) (w : World) (more : World → Outcome × World)
      → ((w' : World) → Adds n w'.sent (more w').1.sent)
      → Adds
          (suc n)
          w.sent
          (send_built (frame_of xid mac msg_type requested_ip server_id w) w more).1.sent
  send_frame-Adds msg_type requested_ip server_id n w more h =
      let rs = head_or (0, 0) w.randoms in
      let built =
        build_dhcp_frame_lem m0 m1 m2 m3 m4 m5 xid msg_type requested_ip server_id rs.0 rs.1 in
      rw (built.1) (send_built-Adds built.0 n w more built.2 h)

  request_offer-Adds :
      (n : ℕ) (r : Lease) (w : World) (again : Lease → World → Outcome × World)
      → ((r : Lease) (w' : World) → Adds n w'.sent (again r w').1.sent)
      → Adds (suc n) w.sent (request_offer xid mac r w again).1.sent
  unfolding request_offer
  request_offer-Adds n r w again h =
      send_frame-Adds dhcp_request r.assigned_ip r.server_id n w _ λ w'.
        after_wait-Adds n w' (wait_dhcp_response xid mac 5000 0 w'.rounds r) _ again
          (λ m r' w''.
            if-Adds (m == 5) n w'' _ _ (Adds-nothing n w''.sent)
              (if-Adds (m == 6) n w'' _ _ (Adds-nothing n w''.sent) (h r' w'')))
          h

  attempts-Adds :
      (n : ℕ) (r : Lease) (w : World) → Adds (2 * n) w.sent (attempts n xid mac r w).1.sent
  unfolding attempts
  attempts-Adds zero r w = Adds-nothing 0 w.sent
  attempts-Adds (suc n) r w =
      let again : (r : Lease) (w' : World)
          → Adds (suc (2 * n)) w'.sent (attempts n xid mac r w').1.sent =
        λ r w'. Adds-more (2 * n) (suc (2 * n)) w'.sent _ (omega arith) (attempts-Adds n r w') in
      Adds-more (suc (suc (2 * n))) (2 * suc n) w.sent _ (omega arith) (
        send_frame-Adds dhcp_discover 0 0 (suc (2 * n)) w _ λ w'.
          after_wait-Adds (suc (2 * n)) w' (wait_dhcp_response xid mac 5000 0 w'.rounds r) _ _
            (λ m r' w''.
              if-Adds (m == 2) (suc (2 * n)) w'' _ _
                (request_offer-Adds (2 * n) r' w'' (attempts n xid mac) (attempts-Adds n))
                (again r' w''))
            again)

  -- Whatever the network answers, and however often a wait ends without an answer,
  -- `softether_do_dhcp` sends six frames at most, and each has at most 310 bytes.
  pub do_dhcp-Adds :
      (connected : Bool) (w : World) → Adds 6 w.sent (do_dhcp connected xid mac w).1.sent
  unfolding do_dhcp
  do_dhcp-Adds connected w =
      if-Adds connected 6 w _ _ (attempts-Adds 3 no_lease w) (Adds-nothing 6 w.sent)
