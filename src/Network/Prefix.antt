-- ===== src/Network/Prefix.antt =====
-- src/process.cc: two logs of which neither misses a message that the other puts earlier.
use total_order_multicast.Common.{
  ℕ, ◌≡◌, refl, sym, ap₂, ◌∙◌, ◌⊎◌, inl, inr, List, [], ◌∷◌, ◌++◌, map, arith,
}
use total_order_multicast.Message.{SeqMessage}
use total_order_multicast.HoldBack.{PendingMessageKey, seq_key}
use total_order_multicast.HoldBack.Keys.{Logged}
use total_order_multicast.Process.Agreement.{
  In, InOrder, KeyEarlier, KeysIncrease, KeyEarlier-asymm, All-In, tail-In,
}

abbrev pub IsPrefix : List PendingMessageKey → List PendingMessageKey → Type 0
IsPrefix xs ys = (rest : List PendingMessageKey) × (xs ++ rest ≡ ys)

IsPrefix-cons :
    (x y : PendingMessageKey) (xs ys : List PendingMessageKey)
    → x ≡ y
    → IsPrefix xs ys
    → IsPrefix (x ∷ xs) (y ∷ ys)
IsPrefix-cons x y xs ys e (rest, h) = (rest, ap₂ ◌∷◌ e h)

pub Logged→In : (k : PendingMessageKey) (ms : List SeqMessage) → Logged k ms → In k (map seq_key ms)
Logged→In k [] h = absurd h
Logged→In k (m ∷ ms) (inl e) = inl e
Logged→In k (m ∷ ms) (inr h) = inr (Logged→In k ms h)

pub In→Logged : (k : PendingMessageKey) (ms : List SeqMessage) → In k (map seq_key ms) → Logged k ms
In→Logged k [] h = absurd h
In→Logged k (m ∷ ms) (inl e) = inl e
In→Logged k (m ∷ ms) (inr h) = inr (In→Logged k ms h)

module _ (final : PendingMessageKey → ℕ) where
  KeyEarlier-cases :
      (k j : PendingMessageKey) → KeyEarlier final k j ⊎ (k ≡ j) ⊎ KeyEarlier final j k
  KeyEarlier-cases k j = ground arith

  -- `ys` has whatever `xs` has before a member of `ys`.
  abbrev pub Covers : List PendingMessageKey → List PendingMessageKey → Type 0
  Covers ys xs = (k l : PendingMessageKey) → In k xs → In l ys → KeyEarlier final k l → In k ys

  heads-same :
      (x y : PendingMessageKey) (xs ys : List PendingMessageKey)
      → KeysIncrease final (y ∷ ys)
      → Covers (y ∷ ys) (x ∷ xs)
      → KeyEarlier final x y
      → x ≡ y
  heads-same x y xs ys t covers e = elim (covers x y (inl refl) (inl refl) e) [
    | inl same ↦ sym same
    | inr later ↦ absurd (KeyEarlier-asymm final x y e (All-In final y x ys t.0 later))
  ]

  Covers-tail :
      (x y : PendingMessageKey) (xs ys : List PendingMessageKey)
      → x ≡ y
      → KeysIncrease final (x ∷ xs)
      → Covers (y ∷ ys) (x ∷ xs)
      → Covers ys xs
  Covers-tail x y xs ys e s covers k l h g early =
      tail-In final x y k xs ys e s h (covers k l (inr h) (inr g) early)

  pub Covers-IsPrefix :
      (xs ys : List PendingMessageKey)
      → KeysIncrease final xs
      → KeysIncrease final ys
      → Covers ys xs
      → Covers xs ys
      → IsPrefix xs ys ⊎ IsPrefix ys xs
  Covers-IsPrefix [] ys s t c d = inl (ys, refl)
  Covers-IsPrefix (x ∷ xs) [] s t c d = inr (x ∷ xs, refl)
  Covers-IsPrefix (x ∷ xs) (y ∷ ys) s t c d =
      let same : x ≡ y = elim (KeyEarlier-cases x y) [
        | inl e ↦ heads-same x y xs ys t c e
        | inr (inl e) ↦ e
        | inr (inr e) ↦ sym (heads-same y x ys xs s d e)
      ] in
      elim (Covers-IsPrefix xs ys s.1 t.1 (Covers-tail x y xs ys same s c)
        (Covers-tail y x ys xs (sym same) t d)) [
          | inl p ↦ inl (IsPrefix-cons x y xs ys same p)
          | inr p ↦ inr (IsPrefix-cons y x ys xs (sym same) p)
        ]

  KeyEarlier-self : (k j : PendingMessageKey) → k ≡ j → KeyEarlier final k j → ⊥
  KeyEarlier-self k j e h = ground arith

  -- In an increasing list the earlier of two members stands first.
  pub KeyEarlier-InOrder :
      (k l : PendingMessageKey) (xs : List PendingMessageKey)
      → KeysIncrease final xs
      → In k xs
      → In l xs
      → KeyEarlier final k l
      → InOrder k l xs
  KeyEarlier-InOrder k l [] s h g early = absurd h
  KeyEarlier-InOrder k l (x ∷ xs) s (inl e) (inl f) early =
      absurd (KeyEarlier-self k l (sym e ∙ f) early)
  KeyEarlier-InOrder k l (x ∷ xs) s (inl e) (inr g) early = inl (e, g)
  KeyEarlier-InOrder k l (x ∷ xs) s (inr h) (inl f) early =
      absurd (KeyEarlier-asymm final k l early (rw (← f) (All-In final x k xs s.0 h)))
  KeyEarlier-InOrder k l (x ∷ xs) s (inr h) (inr g) early =
      inr (KeyEarlier-InOrder k l xs s.1 h g early)
