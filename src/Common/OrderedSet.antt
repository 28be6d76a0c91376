-- ===== src/Common/OrderedSet.antt =====
-- std::set over a comparator: the elements in the order that iteration visits them.
-- Two elements that the comparator does not separate are one element of the set.
pub mod Laws
use total_order_multicast.Common.{◌≡◌, Bool, true, false, ◌||◌, List, [], ◌∷◌, All, if◌then◌else◌}

module _ {ℓ} {A : Type ℓ} (lt : A → A → Bool) where
  unfoldable pub count : A → List A → Bool
  count x [] = false
  count x (y ∷ ys) = if lt x y || lt y x then count x ys else true

  -- An element that is there already is kept.
  unfoldable pub insert : A → List A → List A
  insert x [] = x ∷ []
  insert x (y ∷ ys) = if lt x y then x ∷ y ∷ ys else if lt y x then y ∷ insert x ys else y ∷ ys

  unfoldable pub erase : A → List A → List A
  erase x [] = []
  erase x (y ∷ ys) = if lt x y || lt y x then y ∷ erase x ys else ys

  abbrev pub IsSorted : List A → Type ℓ
  IsSorted [] = Unit
  IsSorted (x ∷ xs) = All (λ y. lt x y ≡ true) xs × IsSorted xs
