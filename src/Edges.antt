-- ===== src/Edges.antt =====
-- Dependency edges (wsd/crates/ws-daemon/src/edges.rs): the breadth-first search of `path`, and the
-- check that a new dependency makes no cycle.
pub mod Walk
pub mod Discover
pub mod Found
pub mod Answers
pub mod Acyclic
pub mod Add
use dotfile.Prelude.{
  ℕ, zero, suc, Bool, true, false, ◌&&◌, Option, none, some, List, [], ◌∷◌, ◌++◌, any, map, find,
  select, length, if◌then◌else◌, ◌==◌,
}
use dotfile.Registry.Schema.{Edge}

-- the map `previous`: a session with the one that it was discovered from, newest first
abbrev pub Previous : Type 0
Previous = List (ℕ × ℕ)

abbrev pub lookup : ℕ → Previous → Option ℕ
lookup v [] = none
lookup v ((n, c) ∷ rest) = if n == v then some c else lookup v rest

abbrev pub known : ℕ → Previous → Bool
known v [] = false
known v ((n, c) ∷ rest) = if n == v then true else known v rest

-- the sessions that are still to be searched, and those that were discovered
pub record Search : Type 0 where
  pub queue : List ℕ
  pub previous : Previous

-- the entry of `next` is vacant
unfoldable pub discover : ℕ → ℕ → Search → Search
discover current next s =
    if known next s.previous
    then s
    else record { queue = s.queue ++ next ∷ []; previous = (next, current) ∷ s.previous }

unfoldable pub visit : ℕ → List ℕ → Search → Search
unfolding discover
visit current [] s = s
visit current (next ∷ rest) s = visit current rest (discover current next s)

-- `previous[…]` panics on a session that was not discovered
unfoldable pub step_back : (ℕ → Option (List ℕ)) → Option ℕ → Option (List ℕ)
step_back onward none = none
step_back onward (some c) = onward c

-- The inner loop, whose path is built from its end: `after` holds what follows `v`. No result
-- stands for a panic or for fuel that ran out.
unfoldable pub trace : ℕ → ℕ → Previous → ℕ → List ℕ → Option (List ℕ)
unfolding step_back
trace zero start previous v after = if v == start then some (v ∷ after) else none
trace (suc fuel) start previous v after =
    if v == start
    then some (v ∷ after)
    else step_back (λ c. trace fuel start previous c (v ∷ after)) (lookup v previous)

abbrev pub found : Option (List ℕ) → Option (Option (List ℕ))
found none = none
found (some p) = some (some p)

module _ {V : Type 0} where
  abbrev pub is_edge : ℕ → ℕ → Edge V → Bool
  is_edge a b e = e.source == a && e.target == b

  -- the targets in `adjacent` of a session, in the order of the edges
  unfoldable pub adjacent : List (Edge V) → ℕ → List ℕ
  adjacent edges v = map (λ e. e.target) (select (λ e. e.source == v) edges)

  -- a round of the outer loop for the session at the front of the queue
  unfoldable pub search_from :
      (Search → Option (Option (List ℕ)))
      → List (Edge V)
      → ℕ
      → ℕ
      → ℕ
      → Search
      → Option (Option (List ℕ))
  unfolding trace visit adjacent
  search_from onward edges start end current s =
      if current == end
      then found (trace (length s.previous) start s.previous end [])
      else onward (visit current (adjacent edges current) s)

  -- The outer loop. No result stands for a panic or for fuel that ran out.
  unfoldable pub search : ℕ → List (Edge V) → ℕ → ℕ → List ℕ → Previous → Option (Option (List ℕ))
  unfolding search_from
  search fuel edges start end [] previous = some none
  search zero edges start end (c ∷ q) previous = none
  search (suc fuel) edges start end (c ∷ q) previous =
      search_from (λ s. search fuel edges start end s.queue s.previous) edges start end c
        (record { queue = q; previous = previous })

  -- `path`, with fuel for one session and the target of every edge
  unfoldable pub path : List (Edge V) → ℕ → ℕ → Option (Option (List ℕ))
  unfolding search
  path edges start end =
      search (suc (length edges)) edges start end (start ∷ []) ((start, start) ∷ [])
