-- ===== src/Udp/Mutex/Lock.antt =====
-- src/udp_conn.h, sockfd_mutex_: locking and unlocking it.
use total_order_multicast.Common.{
  ℕ, ◌+◌, ◌≡◌, refl, sym, inl, inr, true, false, some, none, ◌==◌, ==_iff, Bool-cases,
}
use total_order_multicast.Udp.Mutex.{Mutex, unlocked, locked, lock, unlock}

pub lock-unlocked : (t : ℕ) (m x : Mutex) → m ≡ unlocked → lock t m ≡ some x → x ≡ locked t 1
unfolding lock
lock-unlocked t unlocked x e l = cc
lock-unlocked t (locked owner depth) x e l = cc

pub ==-refl : (t : ℕ) → (t == t) ≡ true
==-refl t = (==_iff t t).1 refl

pub apart : (a b : ℕ) → (a == b) ≡ false → ¬ (a ≡ b)
apart a b e same = let eq : (a == b) ≡ true = (==_iff a b).1 same in cc

pub lock-owner : (t d : ℕ) → lock t (locked t d) ≡ some (locked t (d + 1))
unfolding lock
lock-owner t d = rw (==-refl t)

pub lock-again : (t d : ℕ) (m x : Mutex) → m ≡ locked t d → lock t m ≡ some x → x ≡ locked t (d + 1)
lock-again t d m x e l =
    let again : lock t m ≡ some (locked t (d + 1)) = rw e (lock-owner t d) in cc

pub lock-other : (i t d : ℕ) (m x : Mutex) → m ≡ locked t d → ¬ (i ≡ t) → lock i m ≡ some x → ⊥
unfolding lock
lock-other i t d m x e h l = elim (Bool-cases (t == i)) [
  | inl q ↦ h (sym ((==_iff t i).0 q))
  | inr q ↦ let waits : lock i m ≡ none = rw (e, q) in cc
]

pub unlock-nested : (t : ℕ) (m : Mutex) → m ≡ locked t 2 → unlock m ≡ locked t 1
unfolding unlock
unlock-nested t m e = rw e

pub unlock-last : (t : ℕ) (m : Mutex) → m ≡ locked t 1 → unlock m ≡ unlocked
unfolding unlock
unlock-last t m e = rw e
