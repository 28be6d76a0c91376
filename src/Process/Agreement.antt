-- ===== src/Process/Agreement.antt =====
-- src/process.cc: the deliveries of two processes compared.
use total_order_multicast.Common.{
  ℕ, ◌<◌, ◌≡◌, refl, sym, ap₂, subst, ◌∙◌, ◌↔◌, ◌⊎◌, inl, inr, List, [], ◌∷◌, map, All, ok, arith,
}
use total_order_multicast.Message.{SeqMessage}
use total_order_multicast.HoldBack.{PendingMessageKey, seq_key}
use total_order_multicast.HoldBack.Loop.{Earlier, IsIncreasing}
use total_order_multicast.Udp.{waiting}
use total_order_multicast.Process.{Node}
use total_order_multicast.Process.Invariant.{NodeInv}
use total_order_multicast.Process.Server.{Served, AllSafe, Site, initial, outcome}
use total_order_multicast.Process.Final.{Given, FinalInv, HasFinal, IsAgreed, outcome-FinalInv}

abbrev pub In : PendingMessageKey → List PendingMessageKey → Type 0
In k [] = ⊥
In k (j ∷ js) = (j ≡ k) ⊎ In k js

-- `k` stands in the list, and `j` somewhere behind it.
abbrev pub InOrder : PendingMessageKey → PendingMessageKey → List PendingMessageKey → Type 0
InOrder k j [] = ⊥
InOrder k j (i ∷ is) = ((i ≡ k) × In j is) ⊎ InOrder k j is

-- The keys of the messages that a process has delivered, in order.
abbrev pub log_keys : Node → List PendingMessageKey
log_keys node = map seq_key node.delivered

module _ (final : PendingMessageKey → ℕ) where
  abbrev pub KeyEarlier : PendingMessageKey → PendingMessageKey → Type 0
  KeyEarlier k j =
      (final k < final j)
      ⊎ ((final k ≡ final j) × (k.sender < j.sender))
      ⊎ ((final k ≡ final j) × (k.sender ≡ j.sender) × (k.msg_id < j.msg_id))

  abbrev pub KeysIncrease : List PendingMessageKey → Type 0
  KeysIncrease [] = Unit
  KeysIncrease (k ∷ ks) = All (KeyEarlier k) ks × KeysIncrease ks

  pub All-In :
      (k j : PendingMessageKey) (ks : List PendingMessageKey)
      → All (KeyEarlier k) ks
      → In j ks
      → KeyEarlier k j
  All-In k j [] a h = absurd h
  All-In k j (i ∷ ks) a (inl e) = rw (← e) a.0
  All-In k j (i ∷ ks) a (inr h) = All-In k j ks a.1 h

  pub InOrder-KeyEarlier :
      (k j : PendingMessageKey) (ks : List PendingMessageKey)
      → KeysIncrease ks
      → InOrder k j ks
      → KeyEarlier k j
  InOrder-KeyEarlier k j [] s h = absurd h
  InOrder-KeyEarlier k j (i ∷ ks) s (inl h) = rw (← h.0) (All-In i j ks s.0 h.1)
  InOrder-KeyEarlier k j (i ∷ ks) s (inr h) = InOrder-KeyEarlier k j ks s.1 h

  KeyEarlier-irrefl : (k j : PendingMessageKey) → k ≡ j → KeyEarlier k j → ⊥
  KeyEarlier-irrefl k j e h = ground arith

  pub KeyEarlier-asymm : (k j : PendingMessageKey) → KeyEarlier k j → KeyEarlier j k → ⊥
  KeyEarlier-asymm k j h l = omega arith

  -- The heads of two increasing lists with the same members are one key.
  heads-eq :
      (x y : PendingMessageKey) (xs ys : List PendingMessageKey)
      → KeysIncrease (x ∷ xs)
      → KeysIncrease (y ∷ ys)
      → In x (y ∷ ys)
      → In y (x ∷ xs)
      → x ≡ y
  heads-eq x y xs ys s t (inl e) g = sym e
  heads-eq x y xs ys s t (inr h) (inl e) = e
  heads-eq x y xs ys s t (inr h) (inr g) =
      absurd (KeyEarlier-asymm x y (All-In x y xs s.0 g) (All-In y x ys t.0 h))

  -- A member of one tail is a member of the other.
  pub tail-In :
      (x y k : PendingMessageKey) (xs ys : List PendingMessageKey)
      → x ≡ y
      → KeysIncrease (x ∷ xs)
      → In k xs
      → In k (y ∷ ys)
      → In k ys
  tail-In x y k xs ys e s h (inr g) = g
  tail-In x y k xs ys e s h (inl q) = absurd (KeyEarlier-irrefl x k (e ∙ q) (All-In x k xs s.0 h))

  pub same_members-eq :
      (xs ys : List PendingMessageKey)
      → KeysIncrease xs
      → KeysIncrease ys
      → ((k : PendingMessageKey) → In k xs → In k ys)
      → ((k : PendingMessageKey) → In k ys → In k xs)
      → xs ≡ ys
  same_members-eq [] [] s t f g = refl
  same_members-eq [] (y ∷ ys) s t f g = absurd (g y (inl refl))
  same_members-eq (x ∷ xs) [] s t f g = absurd (f x (inl refl))
  same_members-eq (x ∷ xs) (y ∷ ys) s t f g =
      let e = heads-eq x y xs ys s t (f x (inl refl)) (g y (inl refl)) in
      ap₂ ◌∷◌ e (
        same_members-eq xs ys s.1 t.1 (λ k h. tail-In x y k xs ys e s h (f k (inr h)))
          (λ k h. tail-In y x k ys xs (sym e) t h (g k (inr h))))

  log-KeyEarlier :
      (m : SeqMessage) (ms : List SeqMessage)
      → HasFinal (Given final) m
      → All (HasFinal (Given final)) ms
      → All (Earlier m) ms
      → All (KeyEarlier (seq_key m)) (map seq_key ms)
  log-KeyEarlier m [] h hs e = tt
  log-KeyEarlier m (n ∷ ms) h hs e = (omega arith, log-KeyEarlier m ms h hs.1 e.1)

  -- A log that is increasing and carries the agreed numbers has increasing keys.
  pub log-KeysIncrease :
      (ms : List SeqMessage)
      → IsIncreasing ms
      → All (HasFinal (Given final)) ms
      → KeysIncrease (map seq_key ms)
  log-KeysIncrease [] s h = tt
  log-KeysIncrease (m ∷ ms) s h = (log-KeyEarlier m ms h.0 h.1 s.0, log-KeysIncrease ms s.1 h.1)

  outcome-KeysIncrease :
      (s : Site) (node : Node)
      → AllSafe s.host (IsAgreed final s.host) (initial s) s.incoming
      → outcome s ≡ ok (waiting node)
      → KeysIncrease (log_keys node)
  outcome-KeysIncrease s node safe e =
      let h : Served (λ n. NodeInv n × FinalInv (Given final) n) (ok (waiting node)) =
        subst (Served (λ n. NodeInv n × FinalInv (Given final) n)) e
          (outcome-FinalInv final s safe) in
      log-KeysIncrease node.delivered h.0.increasing h.1.logged

-- Total order: if one process has delivered one message before another, no process has delivered
-- them the other way round. The two processes may have received different datagrams, in different
-- orders, on hosts of different byte order.
-- Conditions: at both, the sequence counter does not wrap, a SeqMessage for a pending message
-- carries no smaller number than the process proposed for it, and `final` gives the number that
-- every SeqMessage carries for its message.
pub no_inversion :
    (final : PendingMessageKey → ℕ) (a b : Site)
    → AllSafe a.host (IsAgreed final a.host) (initial a) a.incoming
    → AllSafe b.host (IsAgreed final b.host) (initial b) b.incoming
    → (m n : Node) → outcome a ≡ ok (waiting m)
    → outcome b ≡ ok (waiting n)
    → (k j : PendingMessageKey) → InOrder k j (log_keys m)
    → ¬ InOrder j k (log_keys n)
no_inversion final a b safe_a safe_b m n ea eb k j h l =
    KeyEarlier-asymm final k j
      (InOrder-KeyEarlier final k j (log_keys m) (outcome-KeysIncrease final a m safe_a ea) h)
      (InOrder-KeyEarlier final j k (log_keys n) (outcome-KeysIncrease final b n safe_b eb) l)

-- No duplicates: a process delivers each message at most once, under the conditions of the total
-- order for this one process: no wrap of its sequence counter, SeqMessages that carry no smaller
-- number than it proposed, and one final number for each message.
pub no_duplicates :
    (final : PendingMessageKey → ℕ) (a : Site)
    → AllSafe a.host (IsAgreed final a.host) (initial a) a.incoming
    → (m : Node) → outcome a ≡ ok (waiting m)
    → (k : PendingMessageKey) → ¬ InOrder k k (log_keys m)
no_duplicates final a safe m e k h =
    KeyEarlier-irrefl final k k refl
      (InOrder-KeyEarlier final k k (log_keys m) (outcome-KeysIncrease final a m safe e) h)

-- Agreement: two processes that have delivered the same messages have delivered them in one
-- sequence. The conditions are those of the total order: no wrap of the two
-- sequence counters, SeqMessages that carry no smaller number than was proposed, and one final
-- number for each message.
pub same_log :
    (final : PendingMessageKey → ℕ) (a b : Site)
    → AllSafe a.host (IsAgreed final a.host) (initial a) a.incoming
    → AllSafe b.host (IsAgreed final b.host) (initial b) b.incoming
    → (m n : Node) → outcome a ≡ ok (waiting m)
    → outcome b ≡ ok (waiting n)
    → ((k : PendingMessageKey) → In k (log_keys m) ↔ In k (log_keys n))
    → log_keys m ≡ log_keys n
same_log final a b safe_a safe_b m n ea eb members =
    same_members-eq final (log_keys m) (log_keys n) (outcome-KeysIncrease final a m safe_a ea)
      (outcome-KeysIncrease final b n safe_b eb) (λ k. (members k).0) (λ k. (members k).1)
