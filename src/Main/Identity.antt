-- ===== src/Main/Identity.antt =====
-- src/main.cc: GetProcessId against the list of the processes on this host.
use total_order_multicast.Common.{
  ℕ, ◌+◌, ◌≡◌, refl, inl, inr, true, false, List, [], ◌∷◌, none, some, Bool-cases, Result, ok,
  throw, ◌>>=◌, Exception,
}
use total_order_multicast.Net.{Address, str_eq}
use total_order_multicast.Main.{or_not_found, find_process_id, get_process_id}

-- The indices, from `i` on, of the processes on this host.
abbrev pub ids_on_host : List ℕ → ℕ → List Address → List ℕ
ids_on_host hostname i [] = []
ids_on_host hostname i (a ∷ processes) = elim (str_eq a.hostname hostname) [
  | true ↦ i ∷ ids_on_host hostname (i + 1) processes
  | false ↦ ids_on_host hostname (i + 1) processes
]

-- The only one of the indices.
abbrev pub only : List ℕ → Result ℕ
only [] = throw Exception.validation_error
only (i ∷ []) = ok i
only (i ∷ j ∷ ids) = throw Exception.usage_error

found_one :
    (hostname : List ℕ) (processes : List Address) (i first : ℕ)
    → (find_process_id hostname processes i (some first) >>= or_not_found)
      ≡ only (first ∷ ids_on_host hostname i processes)
unfolding find_process_id
found_one hostname [] i first = refl
found_one hostname (a ∷ processes) i first = elim (Bool-cases (str_eq a.hostname hostname)) [
  | inl e ↦ rw (find_process_id, ids_on_host, e) refl
  | inr e ↦ rw (find_process_id, ids_on_host, e) (found_one hostname processes (i + 1) first)
]

found_none :
    (hostname : List ℕ) (processes : List Address) (i : ℕ)
    → (find_process_id hostname processes i none >>= or_not_found)
      ≡ only (ids_on_host hostname i processes)
unfolding find_process_id
found_none hostname [] i = refl
found_none hostname (a ∷ processes) i = elim (Bool-cases (str_eq a.hostname hostname)) [
  | inl e ↦ rw (find_process_id, ids_on_host, e) (found_one hostname processes (i + 1) i)
  | inr e ↦ rw (find_process_id, ids_on_host, e) (found_none hostname processes (i + 1))
]

-- GetProcessId returns the index of the only process of the hostfile that is on this host; it throws
-- a validation error if there is none, and a usage error if there are several.
pub get_process_id-only :
    (hostname : List ℕ) (processes : List Address)
    → get_process_id hostname processes ≡ only (ids_on_host hostname 0 processes)
unfolding get_process_id
get_process_id-only hostname processes = found_none hostname processes 0
