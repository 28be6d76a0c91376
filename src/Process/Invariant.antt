-- ===== src/Process/Invariant.antt =====
-- src/process.cc: what holds of a process between two datagrams, and the outcomes of a handler.
use total_order_multicast.Common.{
  ℕ, ◌≤◌, ◌≡◌, refl, subst, inl, inr, false, List, [], ◌∷◌, ◌++◌, All, All-mono, Bool-cases, Result,
  ok, throw, Exception, ◌>>=◌, arith,
}
use total_order_multicast.Message.Host.{Host}
use total_order_multicast.HoldBack.{HoldBackQueue}
use total_order_multicast.HoldBack.Loop.{IsIncreasing, Follows}
use total_order_multicast.HoldBack.Invariant.{QueueInv}
use total_order_multicast.Process.{Node, reply}
use total_order_multicast.Udp.{Client, send}

pub record NodeInv (node : Node) : Type 0 where
  pub queue : QueueInv node.process.seq_counter node.process.hold_back_queue
  -- Deliveries were made in the agreed order.
  pub increasing : IsIncreasing node.delivered
  -- What is still queued comes after all that was delivered.
  pub follows : All (λ d. All (Follows d) node.process.hold_back_queue.ordering) node.delivered
  -- The counter has seen every delivered number.
  pub seen : All (λ d. d.final_seq ≤ node.process.seq_counter) node.delivered

-- The outcome of a handler: a result of which `P` holds, or a SendException, and that only because
-- sendto refused a datagram.
abbrev pub Settles : {A : Type 0} → Client → (A → Type 0) → Result A → Type 0
Settles client P (ok a) = P a
Settles client P (throw x) =
    (x ≡ Exception.send_exception) × ((buf : List ℕ) × (client.sendto buf ≡ false))

pub Settles-ok :
    {A : Type 0} (client : Client) (P : A → Type 0) (r : Result A) (a : A)
    → Settles client P r
    → r ≡ ok a
    → P a
Settles-ok client P r a h e = subst (Settles client P) e h

pub Settles->>= :
    {A B : Type 0} (client : Client) (P : A → Type 0) (Q : B → Type 0) (r : Result A) (f : A → B)
    → ((a : A) → P a → Q (f a))
    → Settles client P r
    → Settles client Q (r >>= (λ a. ok (f a)))
Settles->>= client P Q (ok a) f h s = h a s
Settles->>= client P Q (throw x) f h s = s

pub Settles-× :
    {A : Type 0} (client : Client) (P Q : A → Type 0) (r : Result A)
    → Settles client P r
    → Settles client Q r
    → Settles client (λ a. P a × Q a) r
Settles-× client P Q (ok a) h k = (h, k)
Settles-× client P Q (throw x) h k = h

-- A reply changes nothing but what was sent.
pub reply-Settles :
    (host : Host) (node : Node) (client : Client) (buf : List ℕ) (P : Node → Type 0)
    → ((sent : List (List ℕ)) → P (record node { sent = sent }))
    → Settles client P (reply host node client buf)
unfolding reply send
reply-Settles host node client buf P h = elim (Bool-cases (client.sendto buf)) [
  | inl e ↦ rw e (h (node.sent ++ buf ∷ []))
  | inr e ↦ rw e (refl, (buf, e))
]

-- The invariant does not speak of what was sent.
pub NodeInv-sent :
    {node : Node} (sent : List (List ℕ)) → NodeInv node → NodeInv (record node { sent = sent })
NodeInv-sent sent inv = record {
  queue = inv.queue;
  increasing = inv.increasing;
  follows = inv.follows;
  seen = inv.seen;
}

pub QueueInv-mono : {b c : ℕ} {q : HoldBackQueue} → b ≤ c → QueueInv b q → QueueInv c q
QueueInv-mono {q} h inv = record {
  shape = inv.shape;
  bounded = All-mono _ _ (λ pm b. omega arith) q.ordering inv.bounded;
}
