-- ===== src/HoldBack/Pending.antt =====
-- `pending_seqs_` of HoldBackQueue (src/process.h): laws of find, assign and remove.
use total_order_multicast.Common.{
  ◌≡◌, refl, subst, ◌∙◌, true, false, none, some, List, [], ◌∷◌, if◌then◌else◌, Bool-cases, inl,
  inr, arith,
}
use total_order_multicast.HoldBack.{
  PendingMessageKey, PendingMessageSeq, PendingSeq, key_eq, find, assign, remove,
}

abbrev pub Distinct : List PendingSeq → Type 0
Distinct [] = Unit
Distinct (p ∷ ps) = (find p.key ps ≡ none) × Distinct ps

pub key_eq→eq : (k j : PendingMessageKey) → key_eq k j ≡ true → k ≡ j
key_eq→eq k j h = ground arith

pub key_eq_refl : (k : PendingMessageKey) → key_eq k k ≡ true
key_eq_refl k = ground arith

pub find-assign :
    (j k : PendingMessageKey) (v : PendingMessageSeq) (ps : List PendingSeq)
    → find j (assign k v ps) ≡ (if key_eq k j then some v else find j ps)
unfolding find assign
find-assign j k v [] = refl
find-assign j k v (p ∷ ps) = ground (arith, find-assign j k v ps)

pub find-remove_ne :
    (j k : PendingMessageKey) (ps : List PendingSeq)
    → key_eq k j ≡ false
    → find j (remove k ps) ≡ find j ps
unfolding find remove
find-remove_ne j k [] h = refl
find-remove_ne j k (p ∷ ps) h = ground (arith, find-remove_ne j k ps)

pub find-remove_self :
    (k : PendingMessageKey) (ps : List PendingSeq) → Distinct ps → find k (remove k ps) ≡ none
unfolding find remove
find-remove_self k [] d = refl
find-remove_self k (p ∷ ps) d = elim (Bool-cases (key_eq p.key k)) [
  | inl e ↦ rw e (subst (λ j. find j ps ≡ none) (key_eq→eq p.key k e) d.0)
  | inr e ↦ rw (e, e) (find-remove_self k ps d.1)
]

pub assign-Distinct :
    (k : PendingMessageKey) (v : PendingMessageSeq) (ps : List PendingSeq)
    → Distinct ps
    → Distinct (assign k v ps)
unfolding assign find
assign-Distinct k v [] d = (refl, tt)
assign-Distinct k v (p ∷ ps) d = elim (Bool-cases (key_eq p.key k)) [
  | inl e ↦ rw e d
  | inr e ↦ rw e (ground (arith, find-assign p.key k v ps), assign-Distinct k v ps d.1)
]

pub remove-Distinct :
    (k : PendingMessageKey) (ps : List PendingSeq) → Distinct ps → Distinct (remove k ps)
unfolding remove
remove-Distinct k [] d = tt
remove-Distinct k (p ∷ ps) d = elim (Bool-cases (key_eq p.key k)) [
  | inl e ↦ rw e d.1
  | inr e ↦ rw e (find-remove_ne p.key k ps (ground arith) ∙ d.0, remove-Distinct k ps d.1)
]
