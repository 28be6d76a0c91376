-- ===== src/Process/Server.antt =====
-- The callback of TotalOrder (src/process.cc) in the loop of Server::Listen (src/udp_conn.cc): rules
-- for what holds after any datagrams.
use total_order_multicast.Common.{
  ℕ, ◌≡◌, subst, refl, ◌⊎◌, inl, inr, Bool, true, false, none, some, List, [], ◌∷◌, Bool-cases,
  Option-cases, Result, ok, throw, Exception, length, ◌==◌,
}
use total_order_multicast.Message.Host.{Host}
use total_order_multicast.Message.{DataMessage, SeqMessage, data_message_type, seq_message_type}
use total_order_multicast.Message.Valid.{valid_data_msg, valid_seq_msg}
use total_order_multicast.Message.Wire.{message_type_from_buf, data_msg_from_buf, seq_msg_from_buf}
use total_order_multicast.Net.{Address}
use total_order_multicast.Udp.{
  Client, ServerAction, Incoming, packet, no_packet, Serving, waiting, returned, listen,
  receive_buffer, receive_count,
}
use total_order_multicast.Process.{
  Node, accept_data, handle_data_msg, accept_seq, handle_seq_msg, dispatch, on_receive, serve,
  new_process, start,
}
use total_order_multicast.Process.Invariant.{Settles, Settles->>=}

module _ (host : Host) where
  -- A datagram handed to the callback.
  abbrev pub receive : Node → Client → List ℕ → Result (Node × ServerAction)
  receive node client bytes =
      on_receive host node client (receive_buffer bytes) (receive_count bytes)

  -- What the callback may be handed when a predicate is to be kept: valid data messages and valid
  -- SeqMessages for which the handlers keep it.
  pub record Keeps (P : Node → Type 0) (node : Node) (client : Client) (buf : List ℕ) (n : ℕ)
      : Type 0 where
    pub data_msg :
        (m : DataMessage)
        → data_msg_from_buf host buf n ≡ some m
        → valid_data_msg m (length node.process.processes) ≡ true
        → Settles client P (accept_data host node client m)
    pub seq_msg :
        (m : SeqMessage)
        → seq_msg_from_buf host buf n ≡ some m
        → valid_seq_msg m (length node.process.processes) ≡ true
        → Settles client P (accept_seq host node client m)

  module _ (P : Node → Type 0) (node : Node) (client : Client) (buf : List ℕ) (n : ℕ) (p : P node)
      (keeps : Keeps P node client buf n) where
    handle_data_msg-Settles : Settles client P (handle_data_msg host node client buf n)
    unfolding handle_data_msg
    handle_data_msg-Settles = elim (Option-cases (data_msg_from_buf host buf n)) [
      | inl e ↦ rw (handle_data_msg, e) p
      | inr (m, e) ↦ elim (Bool-cases (valid_data_msg m (length node.process.processes))) [
        | inl v ↦ rw (handle_data_msg, e, v) (keeps.data_msg m e v)
        | inr v ↦ rw (handle_data_msg, e, v) p
      ]
    ]

    handle_seq_msg-Settles : Settles client P (handle_seq_msg host node client buf n)
    unfolding handle_seq_msg
    handle_seq_msg-Settles = elim (Option-cases (seq_msg_from_buf host buf n)) [
      | inl e ↦ rw (handle_seq_msg, e) p
      | inr (m, e) ↦ elim (Bool-cases (valid_seq_msg m (length node.process.processes))) [
        | inl v ↦ rw (handle_seq_msg, e, v) (keeps.seq_msg m e v)
        | inr v ↦ rw (handle_seq_msg, e, v) p
      ]
    ]

    dispatch-Settles : (type : ℕ) → Settles client P (dispatch host type node client buf n)
    unfolding dispatch
    dispatch-Settles type = elim (Bool-cases (type == data_message_type)) [
      | inl e ↦ rw e handle_data_msg-Settles
      | inr e ↦ elim (Bool-cases (type == seq_message_type)) [
        | inl f ↦ rw (e, f) handle_seq_msg-Settles
        | inr f ↦ rw (e, f) p
      ]
    ]

    -- The callback keeps what the handlers keep, on every datagram, and asks to go on.
    pub on_receive-Settles :
        Settles client
          (λ r. P r.0 × (r.1 ≡ ServerAction.continue))
          (on_receive host node client buf n)
    unfolding on_receive
    on_receive-Settles = elim (Option-cases (message_type_from_buf host buf n)) [
      | inl e ↦ rw (on_receive, e) (p, refl)
      | inr (type, e) ↦
          rw (on_receive, e)
            (Settles->>= client P _ (dispatch host type node client buf n) _ (λ a h. (h, refl))
              (dispatch-Settles type))
    ]

-- The exceptions that the network can cause.
abbrev pub IsNetworkFailure : Exception → Type 0
IsNetworkFailure x =
    (x ≡ Exception.send_exception)
    ⊎ (x ≡ Exception.receive_exception)
    ⊎ (x ≡ Exception.socket_exception)

-- The server goes on waiting in a state of which `P` holds, or the network failed: it does not
-- return, and throws nothing else.
abbrev pub Served : (Node → Type 0) → Result (Serving Node) → Type 0
Served P (ok (waiting node)) = P node
Served P (ok (returned node)) = ⊥
Served P (throw x) = IsNetworkFailure x

module _ (host : Host) (Safe : Node → Client → List ℕ → Type 0) where
  -- Every datagram is safe in the state that it meets.
  abbrev pub AllSafe : Node → List Incoming → Type 0
  AllSafe node [] = Unit
  AllSafe node (packet (some client) bytes ∷ rest) =
      Safe node client bytes
      × ((after : Node)
          → receive host node client bytes ≡ ok (after, ServerAction.continue)
          → AllSafe after rest)
  AllSafe node (packet none bytes ∷ rest) = Unit
  AllSafe node (no_packet t ∷ rest) = Unit

  -- The state after a datagram is the one that the callback returns.
  pub AllSafe-step :
      (node after : Node) (client : Client) (bytes : List ℕ) (rest : List Incoming)
      → Safe node client bytes
      → receive host node client bytes ≡ ok (after, ServerAction.continue)
      → AllSafe after rest
      → AllSafe node (packet (some client) bytes ∷ rest)
  AllSafe-step node after client bytes rest safe e h =
      (safe, λ other o. subst (λ n. AllSafe n rest) (cc) h)

  -- One round of the server: a result of the callback of which `R` holds, and what follows it.
  pub serve-step :
      (Q R : Node → Type 0) (node : Node) (client : Client) (bytes : List ℕ) (rest : List Incoming)
      → Settles client (λ q. R q.0 × (q.1 ≡ ServerAction.continue)) (receive host node client bytes)
      → ((after : Node)
          → receive host node client bytes ≡ ok (after, ServerAction.continue)
          → R after
          → Served Q (serve host after rest))
      → Served Q (serve host node (packet (some client) bytes ∷ rest))
  unfolding serve listen
  serve-step Q R node client bytes rest h again = step (receive host node client bytes) refl h
    where
      step :
          (r : Result (Node × ServerAction))
          → receive host node client bytes ≡ r
          → Settles client (λ q. R q.0 × (q.1 ≡ ServerAction.continue)) r
          → Served Q (serve host node (packet (some client) bytes ∷ rest))
      step (throw x) e h = rw e (inl h.0)
      step (ok (after, ServerAction.stop)) e h = cc (h.1)
      step (ok (after, ServerAction.continue)) e h = rw e (again after e h.0)

  module _ (P : Node → Type 0)
      (keep : (node : Node) (client : Client) (bytes : List ℕ)
        → P node
        → Safe node client bytes
        → Keeps host P node client (receive_buffer bytes) (receive_count bytes)) where
    pub serve-Served :
        (node : Node) (incoming : List Incoming)
        → P node
        → AllSafe node incoming
        → Served P (serve host node incoming)
    unfolding serve listen
    serve-Served node [] p safe = p
    serve-Served node (packet none bytes ∷ rest) p safe = inr (inr refl)
    serve-Served node (no_packet true ∷ rest) p safe = inr (inl refl)
    serve-Served node (no_packet false ∷ rest) p safe = inr (inl refl)
    serve-Served node (packet (some client) bytes ∷ rest) p safe =
        serve-step P P node client bytes rest
          (on_receive-Settles host P node client (receive_buffer bytes) (receive_count bytes) p
            (keep node client bytes p safe.0))
          (λ after e q. serve-Served after rest q (safe.1 after e))

pub Served-mono :
    {P Q : Node → Type 0} (f : (node : Node) → P node → Q node) (r : Result (Serving Node))
    → Served P r
    → Served Q r
Served-mono f (ok (waiting node)) h = f node h
Served-mono f (ok (returned node)) h = h
Served-mono f (throw x) h = h

module _ (host : Host) (Safe Weak : Node → Client → List ℕ → Type 0)
    (weaken : (node : Node) (client : Client) (bytes : List ℕ)
      → Safe node client bytes
      → Weak node client bytes) where
  pub AllSafe-mono :
      (node : Node) (incoming : List Incoming)
      → AllSafe host Safe node incoming
      → AllSafe host Weak node incoming
  AllSafe-mono node [] h = tt
  AllSafe-mono node (packet none bytes ∷ rest) h = tt
  AllSafe-mono node (no_packet t ∷ rest) h = tt
  AllSafe-mono node (packet (some client) bytes ∷ rest) h =
      (weaken node client bytes h.0, λ after e. AllSafe-mono after rest (h.1 after e))

-- A process with the datagrams that its server receives.
pub record Site : Type 0 where
  pub host : Host
  pub processes : List Address
  pub id : ℕ
  pub server_port : ℕ
  pub delays : Bool
  pub incoming : List Incoming

abbrev pub initial : Site → Node
initial s = start (new_process s.processes s.id s.server_port s.delays)

abbrev pub outcome : Site → Result (Serving Node)
outcome s = serve s.host (initial s) s.incoming
