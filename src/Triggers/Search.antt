-- ===== src/Triggers/Search.antt =====
-- `check_trigger_cycles`: a depth-first search for each edge that a trigger adds. The edges that it
-- adds have the fields of the objects that `register_trigger` builds.
pub mod Answers
pub mod Cycles
use dotfile.Prelude.{
  ℕ, zero, suc, Bool, Option, none, some, List, [], ◌∷◌, ◌++◌, Result, ok, err, length, mem,
  if◌then◌else◌, ◌==◌,
}
use dotfile.Registry.Schema.{Edge, Tables}
use dotfile.Edges.{adjacent}
use dotfile.Edges.Add.{edges_by_id}

-- the sessions on the way to the first, from the source of the new edge on
abbrev pub Stack : Type 0
Stack = List (ℕ × List ℕ)

abbrev pub push_all : List ℕ → List ℕ → Stack → Stack
push_all path [] stack = stack
push_all path (next ∷ rest) stack = push_all path rest ((next, path ++ next ∷ []) ∷ stack)

-- the next edge, where this one makes no cycle
unfoldable pub unless_cycle :
    Option (Option (List ℕ))
    → Option (Result (List ℕ) (Unit {0}))
    → Option (Result (List ℕ) (Unit {0}))
unless_cycle none rest = none
unless_cycle (some none) rest = rest
unless_cycle (some (some cycle)) rest = some (err cycle)

module _ {V : Type 0} where
  -- a node that is not the source: passed over, or its targets are pushed
  unfoldable pub expand_node :
      (Stack → List ℕ → Option (Option (List ℕ)))
      → List (Edge V)
      → ℕ
      → List ℕ
      → Stack
      → List ℕ
      → Option (Option (List ℕ))
  unfolding adjacent
  expand_node onward edges node path stack seen =
      if mem node seen
      then onward stack seen
      else onward (push_all path (adjacent edges node) stack) (node ∷ seen)

  -- The loop for one edge. No result stands for fuel that ran out.
  unfoldable pub search_back : ℕ → List (Edge V) → ℕ → Stack → List ℕ → Option (Option (List ℕ))
  unfolding expand_node
  search_back fuel edges source [] seen = some none
  search_back zero edges source (top ∷ stack) seen = none
  search_back (suc fuel) edges source ((node, path) ∷ stack) seen =
      if node == source
      then some (some path)
      else expand_node (search_back fuel edges source) edges node path stack seen

  -- with fuel for the target and each edge
  unfoldable pub cycle_of : List (Edge V) → ℕ → ℕ → Option (Option (List ℕ))
  unfolding search_back
  cycle_of edges source target =
      search_back (suc (length edges)) edges source ((target, source ∷ target ∷ []) ∷ []) []

  unfoldable pub check_edges : List (Edge V) → List (Edge V) → Option (Result (List ℕ) (Unit {0}))
  unfolding cycle_of unless_cycle
  check_edges edges [] = some (ok tt)
  check_edges edges (e ∷ additions) =
      unless_cycle (cycle_of edges e.source e.target) (check_edges (edges ++ e ∷ []) additions)

  unfoldable pub check_trigger_cycles :
      Tables V → List (Edge V) → Option (Result (List ℕ) (Unit {0}))
  unfolding check_edges edges_by_id
  check_trigger_cycles t additions = check_edges (edges_by_id t.edges) additions
