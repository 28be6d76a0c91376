-- ===== src/Tests/Counter.antt =====
-- The sequence counter, and the reception of datagrams, at concrete values.
use total_order_multicast.Common.{ℕ, ◌<◌, ◌≡◌, refl, ◌⊎◌, ok, ◌>>=◌, arith}
use total_order_multicast.Udp.{ServerAction}
use total_order_multicast.Message.Wire.{data_msg_bytes, seq_msg_bytes}
use total_order_multicast.Process.{Process, next_seq_num, forward_seq_num, accept_data, accept_seq}
use total_order_multicast.Process.Counter.{next_seq_num-forward_seq_num}
use total_order_multicast.Process.Reception.{receive-bytes}
use total_order_multicast.Process.Server.{initial, receive}
use total_order_multicast.Tests.Sites.{pc, mainframe, open_client, data_of, seq_of, site_0}

abbrev process_0 : Process
process_0 = (initial site_0).process

abbrev some_number : ℕ
some_number = 5

-- A SeqMessage with the largest number makes the counter wrap.
wraps : next_seq_num (forward_seq_num process_0 4294967295) ≡ 0
unfolding next_seq_num forward_seq_num
wraps = refl

next_seq_num-forward_seq_num_example :
    let next = next_seq_num (forward_seq_num process_0 some_number) in
    ((some_number < next)
      × (process_0.seq_counter < next)
      × (¬ (some_number ≡ 4294967295))
      × (¬ (process_0.seq_counter ≡ 4294967295)))
    ⊎ ((next ≡ 0) × ((some_number ≡ 4294967295) ⊎ (process_0.seq_counter ≡ 4294967295)))
next_seq_num-forward_seq_num_example =
    next_seq_num-forward_seq_num process_0 some_number (omega arith) (omega arith)

receive-bytes_example :
    (receive pc (initial site_0) open_client (data_msg_bytes mainframe (data_of 1 9)) ≡ (
      accept_data pc (initial site_0) open_client (record (data_of 1 9) { type = 1 })
      >>= (λ after. ok (after, ServerAction.continue))))
    × (receive pc (initial site_0) open_client (seq_msg_bytes mainframe (seq_of 1 9 2 0)) ≡ (
        accept_seq pc (initial site_0) open_client (record (seq_of 1 9 2 0) { type = 3 })
        >>= (λ after. ok (after, ServerAction.continue))))
receive-bytes_example =
    receive-bytes mainframe pc (initial site_0) open_client (data_of 1 9) (seq_of 1 9 2 0)
      (omega arith) (omega arith) (omega arith) (omega arith) (omega arith)
