-- ===== src/Process/Counter.antt =====
-- src/process.cc: ForwardSeqNum and NextSeqNum on a uint32_t.
use total_order_multicast.Common.{ℕ, ◌<◌, ◌≡◌, ◌⊎◌, arith}
use total_order_multicast.Message.Host.{u32_mod}
use total_order_multicast.Process.{Process, next_seq_num, forward_seq_num}

-- For a counter and a number that fit a uint32_t: the number that is proposed after ForwardSeqNum is
-- larger than the one seen and than the counter before, except where one of these is the largest
-- uint32_t: then, and only then, it wraps to 0.
pub next_seq_num-forward_seq_num :
    (p : Process) (seen : ℕ)
    → p.seq_counter < u32_mod
    → seen < u32_mod
    → let next = next_seq_num (forward_seq_num p seen) in
      ((seen < next)
        × (p.seq_counter < next)
        × (¬ (seen ≡ 4294967295))
        × (¬ (p.seq_counter ≡ 4294967295)))
      ⊎ ((next ≡ 0) × ((seen ≡ 4294967295) ⊎ (p.seq_counter ≡ 4294967295)))
unfolding next_seq_num forward_seq_num
next_seq_num-forward_seq_num p seen h l = ground arith
