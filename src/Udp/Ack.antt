-- ===== src/Udp/Ack.antt =====
-- src/udp_conn.cc, Client::SendWithAck: its attempts, its backoffs, and the state of its callback.
use Prim.Native.Nat.{min}
use native.Mathlib.Nat.{two-pow-succ, add-zero}
use total_order_multicast.Common.{
  ℕ, zero, suc, ◌+◌, ◌^◌, ◌≤◌, ◌<◌, ◌≡◌, ◌≢◌, refl, ap, ◌∙◌, inl, inr, Bool, true, false, List, ◌∷◌,
  some, get_elem?, ◌==◌, Returns, Returns-mono, arith,
}
use total_order_multicast.Message.Host.{u32_mod}
use total_order_multicast.Udp.{
  ServerAction, Client, Arrival, acked, exhausted, SendLog, next_backoff, decrement, send_with_ack,
  unlimited_attempts,
}
use total_order_multicast.Udp.Reliable.{answer, Arrives, IsQuiet, Rules, loop-Returns}

decrement_pos : (n : ℕ) → 0 < n → n < u32_mod → decrement n + 1 ≡ n
unfolding decrement
decrement_pos n h l = omega arith

-- The multiplier before the k-th backoff, counted from 0.
abbrev pub multiplier : ℕ → ℕ
multiplier k = min 64 (2 ^ k)

-- From the sixth doubling on the limit holds.
pow-ge : (k : ℕ) → 64 ≤ 2 ^ suc (suc (suc (suc (suc (suc k)))))
pow-ge zero = omega arith
pow-ge (suc k) = omega (arith, two-pow-succ (suc (suc (suc (suc (suc (suc k)))))), pow-ge k)

next_backoff-multiplier : (k : ℕ) → next_backoff (multiplier k) ≡ multiplier (suc k)
unfolding next_backoff
next_backoff-multiplier zero = refl
next_backoff-multiplier (suc zero) = refl
next_backoff-multiplier (suc (suc zero)) = refl
next_backoff-multiplier (suc (suc (suc zero))) = refl
next_backoff-multiplier (suc (suc (suc (suc zero)))) = refl
next_backoff-multiplier (suc (suc (suc (suc (suc zero))))) = refl
next_backoff-multiplier (suc (suc (suc (suc (suc (suc k)))))) =
    ground (arith, pow-ge k, two-pow-succ (suc (suc (suc (suc (suc (suc k)))))))

module _ {S : Type 0} (client : Client) (buf : List ℕ)
    (valid_ack : S → List ℕ → ℕ → S × ServerAction) (s : S) where
  -- What the log says of the callback's state.
  abbrev pub StateOf : List Arrival → SendLog S → Type 0
  StateOf arrivals log =
      (log.finish ≡ acked
        → (bytes : List ℕ) × Arrives bytes arrivals
          × (answer valid_ack s bytes ≡ (log.state, ServerAction.stop)))
      × (log.finish ≢ acked → log.state ≡ s)

  state_rules :
      (no_limit : Bool)
      → Rules client buf valid_ack s no_limit (λ a m arrivals log. StateOf arrivals log)
  state_rules no_limit = record {
    blocks = λ a m h. (λ e. cc, λ n. refl);
    gives_up = λ a m arrivals h. (λ e. cc, λ n. refl);
    accepts = λ a m s' bytes rest h e. (λ _. (bytes, inl refl, e), λ n. absurd (n refl));
    ignores = λ a m bytes rest log h p. (λ e. let (b, i, q) = p.0 e in (b, inr i, q), λ n. p.1 n);
    backs_off = λ a m rest log h p. (λ e. p.0 e, λ n. p.1 n);
  }

  -- For a callback that changes its state only with an acknowledgement that it accepts: where
  -- SendWithAck returns acknowledged, the callback accepted one of the datagrams that arrived, in the
  -- state with which it was called, and the state is what the callback then left; where it gives up
  -- or is still waiting, the state is unchanged.
  pub send_with_ack-StateOf :
      IsQuiet client buf valid_ack s true
      → (attempts : ℕ) (arrivals : List Arrival)
      → Returns (StateOf arrivals) (send_with_ack client buf valid_ack attempts s arrivals)
  unfolding send_with_ack
  send_with_ack-StateOf quiet attempts arrivals =
      loop-Returns client buf valid_ack s (attempts == unlimited_attempts) _ (state_rules _) quiet
        attempts 1 arrivals

  -- The backoffs of a log that begins with the j-th.
  abbrev pub BacksOff : ℕ → SendLog S → Type 0
  BacksOff j log = (k b : ℕ) → get_elem? log.backoffs k ≡ some b → b ≡ multiplier (j + k)

  backoff_rules :
      (no_limit : Bool)
      → Rules client buf valid_ack s no_limit
          (λ a m arrivals log. (j : ℕ) → m ≡ multiplier j → BacksOff j log)
  backoff_rules no_limit = record {
    blocks = λ a m h j e i b g. cc;
    gives_up = λ a m arrivals h j e i b g. cc;
    accepts = λ a m s' bytes rest h q j e i b g. cc;
    ignores = λ a m bytes rest log h p j e i b g. p j e i b g;
    backs_off = λ a m rest log h p j e.
        shift m log.backoffs j e (p (suc j) (ap next_backoff e ∙ next_backoff-multiplier j));
  }
    where
      shift :
          (m : ℕ) (backoffs : List ℕ) (j : ℕ)
          → m ≡ multiplier j
          → ((i b : ℕ) → get_elem? backoffs i ≡ some b → b ≡ multiplier (suc j + i))
          → (i b : ℕ) → get_elem? (m ∷ backoffs) i ≡ some b
          → b ≡ multiplier (j + i)
      shift m backoffs j e p zero b g = rw add-zero (cc)
      shift m backoffs j e p (suc i) b g =
          let same : j + suc i ≡ suc j + i = omega arith in rw same (p i b g)

  -- For a callback that changes its state only with an acknowledgement that it accepts: the multiplier
  -- of the k-th backoff of a call, counted from 0, is the smaller of 2 ^ k and 64.
  pub send_with_ack-backoffs :
      IsQuiet client buf valid_ack s true
      → (attempts : ℕ) (arrivals : List Arrival)
      → Returns (BacksOff 0) (send_with_ack client buf valid_ack attempts s arrivals)
  unfolding send_with_ack
  send_with_ack-backoffs quiet attempts arrivals =
      Returns-mono (λ log. (j : ℕ) → 1 ≡ multiplier j → BacksOff j log) (BacksOff 0)
        (λ log h. h 0 refl) _
        (loop-Returns client buf valid_ack s (attempts == unlimited_attempts) _ (backoff_rules _)
          quiet attempts 1 arrivals)

  -- The attempts that a log accounts for.
  abbrev pub Within : ℕ → SendLog S → Type 0
  Within attempts log = (log.sends ≤ attempts) × (log.finish ≡ exhausted → log.sends ≡ attempts)

  abbrev pub Limited : ℕ → SendLog S → Type 0
  Limited attempts log =
      (0 < attempts → Within attempts log) × (attempts ≡ 0 → log.finish ≢ exhausted)

  limit_rules : Rules client buf valid_ack s false (λ a m arrivals log. a < u32_mod → Within a log)
  limit_rules = record {
    blocks = λ a m h l. (ground arith, λ e. cc);
    gives_up = λ a m arrivals h l. (ground arith, λ e. ground arith);
    accepts = λ a m s' bytes rest h e l. (ground arith, λ e. cc);
    ignores = λ a m bytes rest log h p l.
        let d = decrement_pos a (ground arith) l in
        let (le, eq) = p (omega arith) in (omega arith, λ e. omega (arith, eq e));
    backs_off = λ a m rest log h p l.
        let d = decrement_pos a (ground arith) l in
        let (le, eq) = p (omega arith) in (omega arith, λ e. omega (arith, eq e));
  }

  unlimited_rules : Rules client buf valid_ack s true (λ a m arrivals log. log.finish ≢ exhausted)
  unlimited_rules = record {
    blocks = λ a m h e. cc;
    gives_up = λ a m arrivals h e. cc;
    accepts = λ a m s' bytes rest h q e. cc;
    ignores = λ a m bytes rest log h p. p;
    backs_off = λ a m rest log h p. p;
  }

  -- For a callback that changes its state only with an acknowledgement that it accepts, and a number
  -- of attempts that fits an unsigned int: with a limit, where SendWithAck does not throw, it sends at
  -- most that often, and exactly that often where it gives up; with none, it does not give up.
  pub send_with_ack-attempts :
      IsQuiet client buf valid_ack s true
      → (attempts : ℕ) (arrivals : List Arrival) → attempts < u32_mod
      → Returns (Limited attempts) (send_with_ack client buf valid_ack attempts s arrivals)
  unfolding send_with_ack
  send_with_ack-attempts quiet zero arrivals l =
      Returns-mono (λ log. log.finish ≢ exhausted) (Limited 0)
        (λ log h. (λ p. absurd (omega arith), λ _. h)) _
        (loop-Returns client buf valid_ack s true _ unlimited_rules quiet 0 1 arrivals)
  send_with_ack-attempts quiet (suc n) arrivals l =
      let limited : (suc n == unlimited_attempts) ≡ false = ground arith in
      rw limited (
        Returns-mono (λ log. suc n < u32_mod → Within (suc n) log) (Limited (suc n))
          (λ log h. (λ _. h l, λ e. absurd (omega arith))) _
          (loop-Returns client buf valid_ack s false _ limit_rules quiet (suc n) 1 arrivals))
