-- ===== src/Common/OrderedSet/Laws.antt =====
-- std::set: what insertion and erasure keep, and what membership becomes.
use total_order_multicast.Common.{
  ◌≡◌, inl, inr, Bool, true, false, ◌||◌, List, [], ◌∷◌, All, All-mono, Bool-cases, arith,
}
use total_order_multicast.Common.OrderedSet.{count, insert, erase, IsSorted}
use mathlib.Core.List.{Perm}
use mathlib.Core.List.Perm

module _ {ℓ κ} {A : Type ℓ} (lt : A → A → Bool) (P : A → Type κ) where
  pub All-insert : (x : A) (ys : List A) → P x → All P ys → All P (insert lt x ys)
  unfolding insert
  All-insert x [] px h = (px, tt)
  All-insert x (y ∷ ys) px h = ground (arith, All-insert x ys)

  pub All-erase : (x : A) (ys : List A) → All P ys → All P (erase lt x ys)
  unfolding erase
  All-erase x [] h = tt
  All-erase x (y ∷ ys) h = ground (arith, All-erase x ys)

  -- An element of the set has a representative in it, of which holds what holds of all.
  pub count-All :
      (x : A) (ys : List A)
      → count lt x ys ≡ true
      → All P ys
      → (y : A) × (lt x y ≡ false) × (lt y x ≡ false) × P y
  unfolding count
  count-All x [] h a = cc
  count-All x (y ∷ ys) h a = elim (Bool-cases (lt x y || lt y x)) [
    | inl apart ↦ count-All x ys (ground arith) a.1
    | inr same ↦ (y, ground arith, ground arith, a.0)
  ]

module _ {ℓ} {A : Type ℓ} (lt : A → A → Bool) where
  pub count-insert :
      (x y : A) (ys : List A) → count lt x ys ≡ true → count lt x (insert lt y ys) ≡ true
  unfolding insert count
  count-insert x y [] h = cc
  count-insert x y (z ∷ zs) h = ground (arith, count-insert x y zs)

  pub count-insert_self :
      (irrefl : (a : A) → lt a a ≡ false) (x : A) (ys : List A) → count lt x (insert lt x ys) ≡ true
  unfolding insert count
  count-insert_self irrefl x [] = ground (arith, irrefl x)
  count-insert_self irrefl x (z ∷ zs) = ground (arith, irrefl x, count-insert_self irrefl x zs)

  -- Erasing what the comparator separates from `x` leaves `x`.
  pub count-erase :
      (x y : A) (ys : List A)
      → ((z : A) → lt x z ≡ false → lt z x ≡ false → (lt y z || lt z y) ≡ true)
      → count lt x ys ≡ true
      → count lt x (erase lt y ys) ≡ true
  unfolding erase count
  count-erase x y [] sep h = h
  count-erase x y (z ∷ zs) sep h = ground (arith, sep z, count-erase x y zs sep)

  module _ (trans : (a b c : A) → lt a b ≡ true → lt b c ≡ true → lt a c ≡ true) where
    pub IsSorted-insert : (x : A) (ys : List A) → IsSorted lt ys → IsSorted lt (insert lt x ys)
    unfolding insert
    IsSorted-insert x [] s = (tt, tt)
    IsSorted-insert x (y ∷ ys) s = elim (Bool-cases (lt x y)) [
      | inl e ↦ rw e ((e, All-mono _ _ (λ z h. trans x y z e h) ys s.0), s)
      | inr e ↦ elim (Bool-cases (lt y x)) [
        | inl f ↦
            rw (e, f) (All-insert lt (λ z. lt y z ≡ true) x ys f s.0, IsSorted-insert x ys s.1)
        | inr f ↦ rw (e, f) s
      ]
    ]

    pub IsSorted-erase : (x : A) (ys : List A) → IsSorted lt ys → IsSorted lt (erase lt x ys)
    unfolding erase
    IsSorted-erase x [] s = tt
    IsSorted-erase x (y ∷ ys) s =
        ground (arith, All-erase lt (λ z. lt y z ≡ true) x ys, IsSorted-erase x ys)

    -- A sorted set holds one representative of each element: after its erasure there is none.
    pub erase-separate :
        (x : A) (ys : List A)
        → ((y z : A) → lt x y ≡ false → lt y x ≡ false → lt y z ≡ true → lt x z ≡ true)
        → IsSorted lt ys
        → All (λ y. (lt x y || lt y x) ≡ true) (erase lt x ys)
    unfolding erase
    erase-separate x [] same s = tt
    erase-separate x (y ∷ ys) same s = elim (Bool-cases (lt x y || lt y x)) [
      | inl e ↦ rw e (e, erase-separate x ys same s.1)
      | inr e ↦ rw e (All-mono _ _ (λ z h. ground (arith, same y z)) ys s.0)
    ]

  -- A new element joins the others, wherever it goes.
  pub insert-perm : (x : A) (ys : List A) → count lt x ys ≡ false → Perm (insert lt x ys) (x ∷ ys)
  unfolding insert count
  insert-perm x [] h = Perm.refl (x ∷ [])
  insert-perm x (y ∷ ys) h = elim (Bool-cases (lt x y)) [
    | inl e ↦ rw e (Perm.refl (x ∷ y ∷ ys))
    | inr e ↦ elim (Bool-cases (lt y x)) [
      | inl f ↦
          rw (e, f) (Perm.trans (Perm.cons y (insert-perm x ys (ground arith))) (Perm.swap x y ys))
      | inr f ↦ absurd (ground arith)
    ]
  ]

  -- An element that is there is taken out, in some representative.
  pub erase-perm :
      (x : A) (ys : List A)
      → count lt x ys ≡ true
      → (y : A) × (lt x y ≡ false) × (lt y x ≡ false) × Perm ys (y ∷ erase lt x ys)
  unfolding erase count
  erase-perm x [] h = cc
  erase-perm x (y ∷ ys) h = elim (Bool-cases (lt x y || lt y x)) [
    | inl e ↦
        let (z, p, q, r) = erase-perm x ys (ground arith) in
        (z, p, q, rw e (Perm.trans (Perm.cons y r) (Perm.swap z y (erase lt x ys))))
    | inr e ↦ (y, ground arith, ground arith, rw e (Perm.refl (y ∷ ys)))
  ]
