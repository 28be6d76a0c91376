-- ===== src/Network/Global.antt =====
-- src/process.cc: what holds of a group and its network between two actions.
use total_order_multicast.Common.{
  ℕ, ◌≤◌, ◌<◌, ◌≡◌, refl, inl, inr, [], ◌∷◌, length, Among, update, update-each, All-mono, arith,
}
use total_order_multicast.Message.Host.{u32_mod}
use total_order_multicast.Message.{DataMessage, SeqMessage}
use total_order_multicast.Message.Wire.RoundTrip.{DataMessageFits, SeqMessageFits}
use total_order_multicast.HoldBack.{PendingMessageKey, find, seq_key}
use total_order_multicast.Process.Order.{start-NodeInv}
use total_order_multicast.Sender.{Sending, data_msg}
use total_order_multicast.Network.{Member, Network, Group, launched, IsSender}
use total_order_multicast.Network.Invariant.{Local, Settled, Backed, DecidedBy}
use total_order_multicast.Network.Decision.{IsFounded}

module _ (g : Group) where
  abbrev n : ℕ
  n = length g.processes

  abbrev pub IsSeqOfGroup : SeqMessage → Type 0
  IsSeqOfGroup m = SeqMessageFits m × (m.sender < n) × (m.final_seq_proposer < n)

  pub record NetInv (net : Network) : Type 0 where
    pub local : (i : ℕ) → i < n → Local (g.hosts i) n i (net.members i)
    pub settled : (i : ℕ) → i < n → Settled (g.hosts i) i net.seqs (net.members i)
    pub datas : (d : DataMessage) → Among d net.datas → DataMessageFits d × (d.sender < n)
    pub seqs : (m : SeqMessage) → Among m net.seqs → IsSeqOfGroup m
    -- A message has one final number.
    pub unique :
        (m q : SeqMessage)
        → Among m net.seqs
        → Among q net.seqs
        → seq_key m ≡ seq_key q
        → m.final_seq ≡ q.final_seq

  pub launched-NetInv : NetInv (launched g)
  unfolding find
  launched-NetInv = record {
    local = λ i h. record {
      inv = start-NodeInv (record {
        host = g.hosts i;
        processes = g.processes;
        id = i;
        server_port = g.ports i;
        delays = g.delays i;
        incoming = [];
      });
      count = refl;
      identity = refl;
      pending = λ k v e. cc;
      replies = λ b h. absurd h;
      held = λ k h. absurd h;
    };
    settled =
        λ i h. record { final = record { queued = tt; logged = tt }; backed = λ m h. absurd h };
    datas = λ d h. absurd h;
    seqs = λ m h. absurd h;
    unique = λ m q h. absurd h;
  }

  module _ (net : Network) (w : NetInv net) where
    -- One of the processes has another state.
    pub member-NetInv :
        (i : ℕ) (mem : Member)
        → Local (g.hosts i) n i mem × Settled (g.hosts i) i net.seqs mem
        → NetInv (record net { members = update net.members i mem })
    member-NetInv i mem (l, s) = record {
      local = λ j h.
          update-each (λ j mem. Local (g.hosts j) n j mem) net.members i mem l j (w.local j h);
      settled = λ j h.
          update-each (λ j mem. Settled (g.hosts j) j net.seqs mem) net.members i mem s j
            (w.settled j h);
      datas = w.datas;
      seqs = w.seqs;
      unique = w.unique;
    }

    pub send_data-NetInv :
        (t : Sending)
        → n ≤ u32_mod
        → IsSender g t
        → NetInv (record net { datas = data_msg (g.hosts t.id) t ∷ net.datas })
    send_data-NetInv t small sender = record {
      local = w.local;
      settled = w.settled;
      datas = λ d h. elim h [
        | inl e ↦ rw (← e) ((omega (arith, sender.1), sender.2, sender.3), sender.1)
        | inr before ↦ w.datas d before
      ];
      seqs = w.seqs;
      unique = w.unique;
    }

    Settled-more :
        (i : ℕ) (m : SeqMessage) (mem : Member)
        → Backed (g.hosts i) i mem m
        → Settled (g.hosts i) i net.seqs mem
        → Settled (g.hosts i) i (m ∷ net.seqs) mem
    Settled-more i m mem b s = record {
      final = record {
        queued = All-mono _ _ (λ pm f d. more pm.pmk pm.pms.seq (f d)) _ s.final.queued;
        logged = All-mono _ _ (λ d f. more (seq_key d) d.final_seq f) _ s.final.logged;
      };
      backed = λ q h. elim h [ inl e ↦ rw (← e) b | inr before ↦ s.backed q before ];
    }
      where
        more :
            (k : PendingMessageKey) (f : ℕ) → DecidedBy net.seqs k f → DecidedBy (m ∷ net.seqs) k f
        more k f (q, h, e, same) = (q, inr h, e, same)

    pub decided-NetInv :
        (m : SeqMessage)
        → IsFounded g net m
        → ((q : SeqMessage) → Among q net.seqs → ¬ (seq_key q ≡ seq_key m))
        → NetInv (record net { seqs = m ∷ net.seqs })
    decided-NetInv m (fits, sender, proposer, backed) fresh = record {
      local = w.local;
      settled = λ i h. Settled-more i m (net.members i) (backed i h) (w.settled i h);
      datas = w.datas;
      seqs = λ q h. elim h [
        | inl e ↦ rw (← e) (fits, sender, proposer)
        | inr before ↦ w.seqs q before
      ];
      unique = one;
    }
      where
        one :
            (p q : SeqMessage)
            → Among p (m ∷ net.seqs)
            → Among q (m ∷ net.seqs)
            → seq_key p ≡ seq_key q
            → p.final_seq ≡ q.final_seq
        one p q (inl e) (inl f) same = cc (e, f)
        one p q (inl e) (inr h) same = absurd (fresh q h (cc (e, same)))
        one p q (inr h) (inl f) same = absurd (fresh p h (cc (f, same)))
        one p q (inr h) (inr k) same = w.unique p q h k same
