-- ===== src/Message/Wire/Recovery.antt =====
-- src/process.cc: the four decoders against the four encoders: what was decoded is encoded as it came.
use total_order_multicast.Common.{
  ℕ, ◌+◌, ◌<◌, ◌≡◌, refl, sym, ap, subst, ◌∙◌, inl, inr, none, some, Option, ◌!=◌, List, [], ◌∷◌,
  ◌++◌, length, All, Bool-cases, arith,
}
use total_order_multicast.Message.Host.{Host, load_u32, ntohl, ntohl-load-bytes, network_bytes}
use total_order_multicast.Message.{
  data_message_type, ack_message_type, seq_message_type, seq_ack_message_type,
}
use total_order_multicast.Message.Wire.{
  sizeof_data_message, sizeof_ack_message, sizeof_seq_message, sizeof_seq_ack_message, field_at,
  field_bytes, data_msg_from_buf, ack_msg_from_buf, seq_msg_from_buf, seq_ack_msg_from_buf,
  data_msg_bytes, ack_msg_bytes, seq_msg_bytes, seq_ack_msg_bytes,
}
use total_order_multicast.Message.Wire.RoundTrip.{field_bytes-network}

abbrev pub IsBytes : List ℕ → Type 0
IsBytes buf = All (λ b. b < 256) buf

-- Four bytes in the order of the buffer.
record Word : Type 0 where
  pub a : ℕ
  pub b : ℕ
  pub c : ℕ
  pub d : ℕ
  pub small : (a < 256) × (b < 256) × (c < 256) × (d < 256)

abbrev bytes_of : Word → List ℕ
bytes_of w = w.a ∷ w.b ∷ w.c ∷ w.d ∷ []

-- A buffer of `k + 4` bytes is a word and `k` bytes.
starts_with_word :
    (k : ℕ) (buf : List ℕ)
    → length buf ≡ k + 4
    → IsBytes buf
    → (w : Word) × (rest : List ℕ) × (buf ≡ bytes_of w ++ rest) × IsBytes rest × (length rest ≡ k)
starts_with_word k [] e h = absurd (omega arith)
starts_with_word k (a ∷ []) e h = absurd (omega arith)
starts_with_word k (a ∷ b ∷ []) e h = absurd (omega arith)
starts_with_word k (a ∷ b ∷ c ∷ []) e h = absurd (omega arith)
starts_with_word k (a ∷ b ∷ c ∷ d ∷ rest) e (ha, (hb, (hc, (hd, others)))) = (
  record { a = a; b = b; c = c; d = d; small = (ha, hb, hc, hd) },
  rest,
  refl,
  others,
  omega arith,
)

no_bytes : (rest : List ℕ) → length rest ≡ 0 → rest ≡ []
no_bytes [] e = refl
no_bytes (x ∷ xs) e = absurd (omega arith)

abbrev one_word : Word → List ℕ
one_word w = bytes_of w ++ []

abbrev three_words : Word → Word → Word → List ℕ
three_words w0 w1 w2 = bytes_of w0 ++ (bytes_of w1 ++ one_word w2)

abbrev four_words : Word → Word → Word → Word → List ℕ
four_words w0 w1 w2 w3 = bytes_of w0 ++ three_words w1 w2 w3

abbrev five_words : Word → Word → Word → Word → Word → List ℕ
five_words w0 w1 w2 w3 w4 = bytes_of w0 ++ four_words w1 w2 w3 w4

as_three_words :
    (buf : List ℕ)
    → length buf ≡ 12
    → IsBytes buf
    → (w0 w1 w2 : Word) × (buf ≡ three_words w0 w1 w2)
as_three_words buf e h =
    let (w0, r0, e0, h0, s0) = starts_with_word 8 buf e h in
    let (w1, r1, e1, h1, s1) = starts_with_word 4 r0 s0 h0 in
    let (w2, r2, e2, h2, s2) = starts_with_word 0 r1 s1 h1 in
    (
      w0,
      w1,
      w2,
      e0
          ∙ ap (λ l. bytes_of w0 ++ l)
              (e1 ∙ ap (λ l. bytes_of w1 ++ l) (e2 ∙ ap (λ l. bytes_of w2 ++ l) (no_bytes r2 s2))),
    )

as_four_words :
    (buf : List ℕ)
    → length buf ≡ 16
    → IsBytes buf
    → (w0 w1 w2 w3 : Word) × (buf ≡ four_words w0 w1 w2 w3)
as_four_words buf e h =
    let (w0, r0, e0, h0, s0) = starts_with_word 12 buf e h in
    let (w1, w2, w3, e1) = as_three_words r0 s0 h0 in
    (w0, w1, w2, w3, e0 ∙ ap (λ l. bytes_of w0 ++ l) e1)

as_five_words :
    (buf : List ℕ)
    → length buf ≡ 20
    → IsBytes buf
    → (w0 w1 w2 w3 w4 : Word) × (buf ≡ five_words w0 w1 w2 w3 w4)
as_five_words buf e h =
    let (w0, r0, e0, h0, s0) = starts_with_word 16 buf e h in
    let (w1, w2, w3, w4, e1) = as_four_words r0 s0 h0 in
    (w0, w1, w2, w3, w4, e0 ∙ ap (λ l. bytes_of w0 ++ l) e1)

-- The bytes behind the type of a message.
abbrev pub behind_type : List ℕ → List ℕ
behind_type (a ∷ b ∷ c ∷ d ∷ rest) = rest
behind_type buf = []

-- A decoder takes the buffers of one size, and what it reads is encoded, with the type of the message,
-- as the bytes that it was read from.
abbrev pub Reencodes : {M : Type 0} → ℕ → ℕ → List ℕ → (M → List ℕ) → Option M → Type 0
Reencodes size type buf encode none = ¬ (length buf ≡ size)
Reencodes size type buf encode (some m) =
    (length buf ≡ size) × (encode m ≡ network_bytes type ++ behind_type buf)

module _ (receiver sender : Host) where
  abbrev word_of : Word → ℕ
  word_of w = ntohl receiver (load_u32 receiver w.a w.b w.c w.d)

  -- The bytes that a field was read from.
  field-back : (w : Word) → field_bytes sender (word_of w) ≡ bytes_of w
  field-back w =
      field_bytes-network sender _
      ∙ ntohl-load-bytes receiver w.a w.b w.c w.d w.small.0 w.small.1 w.small.2 w.small.3

  data-words :
      (w0 w1 w2 w3 : Word)
      → let buf = four_words w0 w1 w2 w3 in
        Reencodes sizeof_data_message data_message_type buf
          (data_msg_bytes sender)
          (data_msg_from_buf receiver buf (length buf))
  unfolding data_msg_from_buf data_msg_bytes field_at
  data-words w0 w1 w2 w3 = (
    refl,
    cc (field_bytes-network sender data_message_type, field-back w1, field-back w2, field-back w3),
  )

  data-Reencodes :
      (buf : List ℕ)
      → IsBytes buf
      → Reencodes sizeof_data_message data_message_type buf
          (data_msg_bytes sender)
          (data_msg_from_buf receiver buf (length buf))
  unfolding data_msg_from_buf
  data-Reencodes buf h = elim (Bool-cases (length buf != sizeof_data_message)) [
    | inl other ↦ rw other (λ e. absurd (ground arith))
    | inr same ↦
        let (w0, w1, w2, w3, e) = as_four_words buf (ground arith) h in
        subst
          (λ l.
            Reencodes sizeof_data_message data_message_type l (data_msg_bytes sender)
              (data_msg_from_buf receiver l (length l)))
          (sym e) (data-words w0 w1 w2 w3)
  ]

  ack-words :
      (w0 w1 w2 w3 w4 : Word)
      → let buf = five_words w0 w1 w2 w3 w4 in
        Reencodes sizeof_ack_message ack_message_type buf
          (ack_msg_bytes sender)
          (ack_msg_from_buf receiver buf (length buf))
  unfolding ack_msg_from_buf ack_msg_bytes field_at
  ack-words w0 w1 w2 w3 w4 = (
    refl,
    cc (
      field_bytes-network sender ack_message_type,
      field-back w1,
      field-back w2,
      field-back w3,
      field-back w4,
    ),
  )

  ack-Reencodes :
      (buf : List ℕ)
      → IsBytes buf
      → Reencodes sizeof_ack_message ack_message_type buf
          (ack_msg_bytes sender)
          (ack_msg_from_buf receiver buf (length buf))
  unfolding ack_msg_from_buf
  ack-Reencodes buf h = elim (Bool-cases (length buf != sizeof_ack_message)) [
    | inl other ↦ rw other (λ e. absurd (ground arith))
    | inr same ↦
        let (w0, w1, w2, w3, w4, e) = as_five_words buf (ground arith) h in
        subst
          (λ l.
            Reencodes sizeof_ack_message ack_message_type l (ack_msg_bytes sender)
              (ack_msg_from_buf receiver l (length l)))
          (sym e) (ack-words w0 w1 w2 w3 w4)
  ]

  seq-words :
      (w0 w1 w2 w3 w4 : Word)
      → let buf = five_words w0 w1 w2 w3 w4 in
        Reencodes sizeof_seq_message seq_message_type buf
          (seq_msg_bytes sender)
          (seq_msg_from_buf receiver buf (length buf))
  unfolding seq_msg_from_buf seq_msg_bytes field_at
  seq-words w0 w1 w2 w3 w4 = (
    refl,
    cc (
      field_bytes-network sender seq_message_type,
      field-back w1,
      field-back w2,
      field-back w3,
      field-back w4,
    ),
  )

  seq-Reencodes :
      (buf : List ℕ)
      → IsBytes buf
      → Reencodes sizeof_seq_message seq_message_type buf
          (seq_msg_bytes sender)
          (seq_msg_from_buf receiver buf (length buf))
  unfolding seq_msg_from_buf
  seq-Reencodes buf h = elim (Bool-cases (length buf != sizeof_seq_message)) [
    | inl other ↦ rw other (λ e. absurd (ground arith))
    | inr same ↦
        let (w0, w1, w2, w3, w4, e) = as_five_words buf (ground arith) h in
        subst
          (λ l.
            Reencodes sizeof_seq_message seq_message_type l (seq_msg_bytes sender)
              (seq_msg_from_buf receiver l (length l)))
          (sym e) (seq-words w0 w1 w2 w3 w4)
  ]

  seq_ack-words :
      (w0 w1 w2 : Word)
      → let buf = three_words w0 w1 w2 in
        Reencodes sizeof_seq_ack_message seq_ack_message_type buf
          (seq_ack_msg_bytes sender)
          (seq_ack_msg_from_buf receiver buf (length buf))
  unfolding seq_ack_msg_from_buf seq_ack_msg_bytes field_at
  seq_ack-words w0 w1 w2 =
      (refl, cc (field_bytes-network sender seq_ack_message_type, field-back w1, field-back w2))

  seq_ack-Reencodes :
      (buf : List ℕ)
      → IsBytes buf
      → Reencodes sizeof_seq_ack_message seq_ack_message_type buf
          (seq_ack_msg_bytes sender)
          (seq_ack_msg_from_buf receiver buf (length buf))
  unfolding seq_ack_msg_from_buf
  seq_ack-Reencodes buf h = elim (Bool-cases (length buf != sizeof_seq_ack_message)) [
    | inl other ↦ rw other (λ e. absurd (ground arith))
    | inr same ↦
        let (w0, w1, w2, e) = as_three_words buf (ground arith) h in
        subst
          (λ l.
            Reencodes sizeof_seq_ack_message seq_ack_message_type l (seq_ack_msg_bytes sender)
              (seq_ack_msg_from_buf receiver l (length l)))
          (sym e) (seq_ack-words w0 w1 w2)
  ]

  -- What the decoders take, and that they lose nothing: for a datagram of bytes, each of the four
  -- decoders yields a message just where the datagram has the size of its struct, and the message is
  -- encoded, on a host of any byte order, as the bytes that it was decoded from, behind the type of the
  -- message in the place of the type that was received.
  pub decoded-Reencodes :
      (buf : List ℕ)
      → IsBytes buf
      → Reencodes sizeof_data_message data_message_type buf
          (data_msg_bytes sender)
          (data_msg_from_buf receiver buf (length buf))
        × Reencodes sizeof_ack_message ack_message_type buf
            (ack_msg_bytes sender)
            (ack_msg_from_buf receiver buf (length buf))
        × Reencodes sizeof_seq_message seq_message_type buf
            (seq_msg_bytes sender)
            (seq_msg_from_buf receiver buf (length buf))
        × Reencodes sizeof_seq_ack_message seq_ack_message_type buf
            (seq_ack_msg_bytes sender)
            (seq_ack_msg_from_buf receiver buf (length buf))
  decoded-Reencodes buf h =
      (data-Reencodes buf h, ack-Reencodes buf h, seq-Reencodes buf h, seq_ack-Reencodes buf h)
