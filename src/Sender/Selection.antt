-- ===== src/Sender/Selection.antt =====
-- src/process.cc: the choice of the final sequence number in a sender thread.
use total_order_multicast.Common.{
  ℕ, zero, suc, ◌+◌, ◌≤◌, ◌<◌, ◌≡◌, refl, sym, subst, ◌⊎◌, inl, inr, true, false, List, [], ◌∷◌,
  some, All, get_elem?, ltb, Bool-cases, arith,
}
use total_order_multicast.Sender.{select_final}

-- The number at index `i` is the first that is as large as `f`.
abbrev pub IsFirst : List ℕ → ℕ → ℕ → Type 0
IsFirst seqs i f =
    (get_elem? seqs i ≡ some f) × ((j s : ℕ) → j < i → get_elem? seqs j ≡ some s → s < f)

IsFirst-head : (seqs : List ℕ) (s : ℕ) → IsFirst (s ∷ seqs) 0 s
IsFirst-head seqs s = (refl, λ j x h e. absurd (omega arith))

IsFirst-tail : (seqs : List ℕ) (s i f : ℕ) → s < f → IsFirst seqs i f → IsFirst (s ∷ seqs) (suc i) f
IsFirst-tail seqs s i f h (e, lower) = (e, before)
  where
    before : (j x : ℕ) → j < suc i → get_elem? (s ∷ seqs) j ≡ some x → x < f
    before zero x l g = ground arith
    before (suc j) x l g = lower j x (omega arith) g

-- The loop from a running maximum `f0` that was proposed by `p0`: it stays, or is replaced by the
-- first largest number that exceeds it.
abbrev pub Selects : List ℕ → ℕ → ℕ → ℕ → ℕ × ℕ → Type 0
Selects seqs pid f0 p0 (f, p) =
    (f0 ≤ f)
    × All (λ s. s ≤ f) seqs
    × (((f ≡ f0) × (p ≡ p0)) ⊎ ((i : ℕ) × (p ≡ pid + i) × (f0 < f) × IsFirst seqs i f))

Selects-larger :
    (seqs : List ℕ) (pid f0 p0 s : ℕ) (r : ℕ × ℕ)
    → f0 < s
    → Selects seqs (pid + 1) s pid r
    → Selects (s ∷ seqs) pid f0 p0 r
Selects-larger seqs pid f0 p0 s (f, p) l (h, a, inl (e, q)) =
    (omega arith, (h, a), inr (0, omega arith, omega arith, rw e (IsFirst-head seqs s)))
Selects-larger seqs pid f0 p0 s (f, p) l (h, a, inr (i, q, g, first)) =
    (omega arith, (h, a), inr (suc i, omega arith, omega arith, IsFirst-tail seqs s i f g first))

Selects-smaller :
    (seqs : List ℕ) (pid f0 p0 s : ℕ) (r : ℕ × ℕ)
    → s ≤ f0
    → Selects seqs (pid + 1) f0 p0 r
    → Selects (s ∷ seqs) pid f0 p0 r
Selects-smaller seqs pid f0 p0 s (f, p) l (h, a, inl (e, q)) = (h, (omega arith, a), inl (e, q))
Selects-smaller seqs pid f0 p0 s (f, p) l (h, a, inr (i, q, g, first)) =
    (h, (omega arith, a), inr (suc i, omega arith, g, IsFirst-tail seqs s i f (omega arith) first))

select-larger :
    (seqs : List ℕ) (pid f0 p0 s : ℕ)
    → ltb f0 s ≡ true
    → select_final (s ∷ seqs) pid f0 p0 ≡ select_final seqs (pid + 1) s pid
unfolding select_final
select-larger seqs pid f0 p0 s e = rw e

select-smaller :
    (seqs : List ℕ) (pid f0 p0 s : ℕ)
    → ltb f0 s ≡ false
    → select_final (s ∷ seqs) pid f0 p0 ≡ select_final seqs (pid + 1) f0 p0
unfolding select_final
select-smaller seqs pid f0 p0 s e = rw e

select-Selects :
    (seqs : List ℕ) (pid f0 p0 : ℕ) → Selects seqs pid f0 p0 (select_final seqs pid f0 p0)
select-Selects [] pid f0 p0 = unfold select_final in (omega arith, tt, inl (refl, refl))
select-Selects (s ∷ seqs) pid f0 p0 = elim (Bool-cases (ltb f0 s)) [
  | inl e ↦
      subst (Selects (s ∷ seqs) pid f0 p0) (sym (select-larger seqs pid f0 p0 s e))
        (Selects-larger seqs pid f0 p0 s _ (ground arith) (select-Selects seqs (pid + 1) s pid))
  | inr e ↦
      subst (Selects (s ∷ seqs) pid f0 p0) (sym (select-smaller seqs pid f0 p0 s e))
        (Selects-smaller seqs pid f0 p0 s _ (ground arith) (select-Selects seqs (pid + 1) f0 p0))
]

-- No proposal is larger than the selected number. It is 0 by process 0 if all are 0, and otherwise
-- the selected proposer is the first process that proposed it: ties go to the smallest process id.
pub select_final-Selects :
    (seqs : List ℕ)
    → let (f, p) = select_final seqs 0 0 0 in
      All (λ s. s ≤ f) seqs × (((f ≡ 0) × (p ≡ 0)) ⊎ ((0 < f) × IsFirst seqs p f))
select_final-Selects seqs = widen (select_final seqs 0 0 0) (select-Selects seqs 0 0 0)
  where
    widen :
        (r : ℕ × ℕ)
        → Selects seqs 0 0 0 r
        → All (λ s. s ≤ r.0) seqs × (((r.0 ≡ 0) × (r.1 ≡ 0)) ⊎ ((0 < r.0) × IsFirst seqs r.1 r.0))
    widen (f, p) (h, a, inl e) = (a, inl e)
    widen (f, p) (h, a, inr (i, q, g, first)) =
        let same : p ≡ i = omega arith in (a, inr (g, rw same first))
