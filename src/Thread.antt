-- ===== src/Thread.antt =====
-- src/thread.h: ThreadGroup. A thread is given by how the function that it runs ends.
use total_order_multicast.Common.{
  ℕ, ◌+◌, ◌≡◌, refl, ◌↔◌, Bool, true, false, List, [], ◌∷◌, ◌++◌, All, if◌then◌else◌,
}

-- The function returns, or never does, or lets an exception out.
pub data Thread : Type 0 where
  ends blocks throws : Thread

pub record ThreadGroup : Type 0 where
  pub threads : List Thread

-- AddThread: `push_back` of a thread that starts to run the function.
unfoldable pub add_thread : ThreadGroup → Thread → ThreadGroup
add_thread g t = record { threads = g.threads ++ t ∷ [] }

-- Whether a function has let an exception out: std::terminate then ends the whole program.
abbrev pub has_thrown : List Thread → Bool
has_thrown [] = false
has_thrown (throws ∷ rest) = true
has_thrown (ends ∷ rest) = has_thrown rest
has_thrown (blocks ∷ rest) = has_thrown rest

-- How JoinAll ends: it has joined every thread, or it waits for the thread with an index, or the
-- program was terminated.
pub data Joining : Type 0 where
  joined : ThreadGroup → Joining
  waits_at : ℕ → Joining
  terminated : Joining

-- The loop of JoinAll from index `i` on, and `clear` behind it.
unfoldable pub join_from : ℕ → List Thread → Joining
join_from i [] = joined (record { threads = [] })
join_from i (ends ∷ rest) = join_from (i + 1) rest
join_from i (blocks ∷ rest) = waits_at i
join_from i (throws ∷ rest) = terminated

-- JoinAll, which is also the destructor.
unfoldable pub join_all : ThreadGroup → Joining
join_all g = if has_thrown g.threads then terminated else join_from 0 g.threads

waits_not_joined :
    (b : Bool) (i : ℕ) (g : ThreadGroup) → (if b then terminated else waits_at i) ≡ joined g → ⊥
waits_not_joined true i g e = cc
waits_not_joined false i g e = cc

-- A group is left, with no thread in it, just where every function has returned.
join_from_iff :
    (i : ℕ) (ts : List Thread)
    → ((if has_thrown ts then terminated else join_from i ts) ≡ joined (record { threads = [] }))
      ↔ All (λ t. t ≡ ends) ts
unfolding join_from
join_from_iff i [] = (λ e. tt, λ h. refl)
join_from_iff i (throws ∷ ts) = (λ e. cc, λ h. cc (h.0))
join_from_iff i (blocks ∷ ts) =
    (λ e. absurd (waits_not_joined (has_thrown ts) i _ e), λ h. cc (h.0))
join_from_iff i (ends ∷ ts) =
    let (f, g) = join_from_iff (i + 1) ts in (λ e. (refl, f e), λ h. g h.1)

-- JoinAll returns, and leaves an empty group, just where the function of every thread has returned.
pub join_all_iff :
    (g : ThreadGroup)
    → (join_all g ≡ joined (record { threads = [] })) ↔ All (λ t. t ≡ ends) g.threads
unfolding join_all
join_all_iff g = join_from_iff 0 g.threads
