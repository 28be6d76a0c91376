-- ===== src/Tests/Runs.antt =====
-- The run of `Threads` is one that the network permits, and calm.
use total_order_multicast.Common.{
  ℕ, zero, suc, ◌≡◌, refl, ◌⊎◌, inl, inr, List, [], ◌∷◌, Among, arith,
}
use total_order_multicast.Message.{SeqMessage}
use total_order_multicast.Message.Wire.{ack_msg_bytes}
use total_order_multicast.HoldBack.{seq_key}
use total_order_multicast.Udp.Reliable.{Arrives}
use total_order_multicast.Network.{launched, Always, IsPossible, IsCalm}
use total_order_multicast.Network.Order.{IsRun, terminal}
use total_order_multicast.Network.Reachable.{Always-append}
use total_order_multicast.Tests.Sites.{pc, mainframe}
use total_order_multicast.Tests.Threads.{
  pair, ack_of, acks, seq_7, key_9, first_actions, last_actions, all_actions, run_of,
}

-- What arrives at the two clients of a thread was sent by the two servers.
Arrives-cases :
    (sender msg_id seq_0 seq_1 pid : ℕ) (bytes : List ℕ)
    → Arrives bytes (acks sender msg_id seq_0 seq_1 pid)
    → (ack_msg_bytes pc (ack_of sender msg_id seq_0 0) ≡ bytes)
      ⊎ (ack_msg_bytes mainframe (ack_of sender msg_id seq_1 1) ≡ bytes)
Arrives-cases sender msg_id seq_0 seq_1 zero bytes (inl e) = inl e
Arrives-cases sender msg_id seq_0 seq_1 (suc zero) bytes (inl e) = inr e
Arrives-cases sender msg_id seq_0 seq_1 zero bytes (inr h) = absurd h
Arrives-cases sender msg_id seq_0 seq_1 (suc zero) bytes (inr h) = absurd h
Arrives-cases sender msg_id seq_0 seq_1 (suc (suc pid)) bytes h = absurd h

apart_7_9 : (m : SeqMessage) → Among m (seq_7 ∷ []) → ¬ (seq_key m ≡ key_9)
apart_7_9 m (inl e) h = cc (e, h)
apart_7_9 m (inr x) h = absurd x

IsPossible-first : Always pair (IsPossible pair) (launched pair) first_actions
unfolding run_of
IsPossible-first = (
  (refl, omega arith, omega arith, omega arith),
  (
    (refl, omega arith, omega arith, omega arith),
    (
      (omega arith, inr (inl refl)),
      (
        (omega arith, inl refl),
        (
          (omega arith, inl refl),
          (
            (omega arith, inr (inl refl)),
            (
              (
                (refl, omega arith, omega arith, omega arith),
                λ pid bytes a. elim (Arrives-cases 0 7 1 2 pid bytes a) [
                  | inl e ↦ (0, omega arith, inl e)
                  | inr e ↦ (1, omega arith, inr (inl e))
                ],
              ),
              (
                (
                  (refl, omega arith, omega arith, omega arith),
                  λ pid bytes a. elim (Arrives-cases 1 9 2 1 pid bytes a) [
                    | inl e ↦ (0, omega arith, inr (inl e))
                    | inr e ↦ (1, omega arith, inl e)
                  ],
                ),
                (
                  (omega arith, inl refl),
                  ((omega arith, inr (inl refl)), ((omega arith, inr (inl refl)), tt)),
                ),
              ),
            ),
          ),
        ),
      ),
    ),
  ),
)

IsCalm-first : Always pair (IsCalm pair) (launched pair) first_actions
unfolding run_of
IsCalm-first = (
  tt,
  (
    tt,
    (
      (λ h. h, omega arith),
      (
        (λ h. h, omega arith),
        (
          (λ h. h, omega arith),
          ((λ h. h, omega arith), (λ m h. absurd h, (λ m h. apart_7_9 m h, (tt, (tt, (tt, tt)))))),
        ),
      ),
    ),
  ),
)

pub IsRun-first : IsRun pair first_actions
IsRun-first = (omega arith, IsPossible-first, IsCalm-first)

IsPossible-last : Always pair (IsPossible pair) (terminal pair first_actions) last_actions
unfolding run_of
IsPossible-last = ((omega arith, inl refl), ((omega arith, inl refl), tt))

IsCalm-last : Always pair (IsCalm pair) (terminal pair first_actions) last_actions
IsCalm-last = (tt, (tt, tt))

pub IsRun-all : IsRun pair all_actions
IsRun-all = (
  omega arith,
  Always-append pair (IsPossible pair) (launched pair) first_actions last_actions IsPossible-first
      IsPossible-last,
  Always-append pair (IsCalm pair) (launched pair) first_actions last_actions IsCalm-first
      IsCalm-last,
)
