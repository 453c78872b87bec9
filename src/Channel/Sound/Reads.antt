-- ===== src/Channel/Sound/Reads.antt =====
-- The calls that receive keep a connection valid.
use softether_android_client.Base.{ℕ, Option, List, ◌==◌, ◌||◌, not, if_both}
use softether_android_client.Channel.Connection.{Connection, is_connected}
use softether_android_client.Channel.Send.{Sent}
use softether_android_client.Channel.Receive.{Library, Meets, Filled, data_queued, no_data, error}
use softether_android_client.Channel.Receive.Counts.{IsValid, fill_recv_queue-IsValid}
use softether_android_client.Channel.Ethernet.{Sending, Taken, take_ip, take_raw, batch_loop}
use softether_android_client.Channel.Calls.{
  maintain_links, Receiving, fill_if_empty, then_take, receive, taken_raw, receive_raw, count_batch,
  batch_of, receive_batch,
}
use softether_android_client.Channel.Sound.Takes.{
  take_ip-IsValid, take_raw-IsValid, batch_loop-IsValid, maintain_links-IsValid,
}

module _ (z : List ℕ → Option (List ℕ)) (unzip : ℕ → List ℕ → Option (List ℕ)) (l : Library) where
  fill_if_empty-IsValid :
      (m : Meets) (c : Connection) → IsValid c → IsValid (fill_if_empty z unzip l m c).0.0
  unfolding fill_if_empty
  fill_if_empty-IsValid m c v =
      if_both (λ (r : (Connection × Sent) × Filled). IsValid r.0.0) (c.inbox.queue.count == 0) _ _
        (fill_recv_queue-IsValid unzip l m c v) v

  then_take-IsValid :
      (r : (Connection × Sent) × Filled) (k : Connection → (Connection × Sent) × Taken)
      → ((c : Connection) → IsValid c → IsValid (k c).0.0)
      → IsValid r.0.0
      → IsValid (then_take z unzip l r k).0.0
  then_take-IsValid ((c, log), error) k h v = v
  then_take-IsValid ((c, log), no_data) k h v = v
  then_take-IsValid ((c, log), data_queued) k h v = h c v

  pub receive-IsValid :
      (r : Receiving) (n : ℕ) (c : Connection) → IsValid c → IsValid (receive z unzip l r n c).0.0
  unfolding receive
  receive-IsValid r n c v =
      let c' = (maintain_links r.upkeep c).0 in
      let Valid : (Connection × Sent) × Taken → Type 0 = λ x. IsValid x.0.0 in
      if_both Valid (n == 0) _ _ v (
        if_both Valid (not (is_connected c.state)) _ _ v (
          then_take-IsValid (fill_if_empty z unzip l r.meets c') (take_ip z l (r.answers 0) n)
            (take_ip-IsValid z l (r.answers 0) n)
            (fill_if_empty-IsValid r.meets c' (maintain_links-IsValid r.upkeep c v))))

  pub receive_raw-IsValid :
      (m : Meets) (n : ℕ) (c : Connection) → IsValid c → IsValid (receive_raw z unzip l m n c).0.0
  unfolding receive_raw
  receive_raw-IsValid m n c v =
      if_both (λ (x : (Connection × Sent) × Taken). IsValid x.0.0) (is_connected c.state) _ _
        (then_take-IsValid (fill_if_empty z unzip l m c) (λ c'. taken_raw z unzip l (take_raw n c'))
          (take_raw-IsValid n) (fill_if_empty-IsValid m c v))
        v

  count_batch-IsValid :
      (r : (Connection × Sent) × List (List ℕ))
      → IsValid r.0.0
      → IsValid (count_batch z unzip l r).0.0
  unfolding count_batch
  count_batch-IsValid r v = record { ring = v.ring; counted = v.counted }

  batch_of-IsValid :
      (n k : ℕ) (m : ℕ → Sending) (r : (Connection × Sent) × Filled)
      → IsValid r.0.0
      → IsValid (batch_of z unzip l n k m r).0.0
  batch_of-IsValid n k m ((c, log), error) v = v
  batch_of-IsValid n k m ((c, log), no_data) v =
      count_batch-IsValid (batch_loop z l n c.inbox.queue.count m 0 k c)
        (batch_loop-IsValid z l n c.inbox.queue.count m 0 k c v)
  batch_of-IsValid n k m ((c, log), data_queued) v =
      count_batch-IsValid (batch_loop z l n c.inbox.queue.count m 0 k c)
        (batch_loop-IsValid z l n c.inbox.queue.count m 0 k c v)

  pub receive_batch-IsValid :
      (r : Receiving) (n k : ℕ) (c : Connection)
      → IsValid c
      → IsValid (receive_batch z unzip l r n k c).0.0
  unfolding receive_batch
  receive_batch-IsValid r n k c v =
      let c' = (maintain_links r.upkeep c).0 in
      let Valid : (Connection × Sent) × Option (List (List ℕ)) → Type 0 = λ x. IsValid x.0.0 in
      if_both Valid ((n == 0) || (k == 0)) _ _ v (
        if_both Valid (not (is_connected c.state)) _ _ v (
          batch_of-IsValid n k r.answers (fill_if_empty z unzip l r.meets c')
            (fill_if_empty-IsValid r.meets c' (maintain_links-IsValid r.upkeep c v))))
