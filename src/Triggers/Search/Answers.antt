-- ===== src/Triggers/Search/Answers.antt =====
-- The depth-first search ends: with the sessions on a cycle, or with none where there is none.
use dotfile.Prelude.{
  ℕ, zero, suc, ◌+◌, ◌≤◌, Bool, true, false, not, ◌||◌, Option, some, none, List, [], ◌∷◌, ◌++◌,
  any, mem, count, All, length, ◌≡◌, refl, ap, sym, subst, inl, inr, ◌⊎◌, Bool-cases, arith, ◌==◌,
  ==_iff, ==_refl, on_branches, count-le-length,
}
use dotfile.Registry.Schema.{Edge}
use dotfile.Edges.{adjacent}
use dotfile.Edges.Walk.{HasEdge, Walk, here, along, Trail, trail_end, trail_edge}
use dotfile.Edges.Found.{adjacent-HasEdge, HasEdge-adjacent}
use dotfile.Triggers.Search.{Stack, push_all, expand_node, search_back, cycle_of}

abbrev on_stack : ℕ → Stack → Bool
on_stack v = any (λ (item : ℕ × List ℕ). item.0 == v)

or_right : (a : Bool) {b : Bool} → b ≡ true → (a || b) ≡ true
or_right false h = h
or_right true h = refl

push_all-keeps :
    (v : ℕ) (path ns : List ℕ) (stack : Stack)
    → on_stack v stack ≡ true
    → on_stack v (push_all path ns stack) ≡ true
push_all-keeps v path [] stack h = h
push_all-keeps v path (n ∷ ns) stack h = push_all-keeps v path ns _ (ground arith)

push_all-mem :
    (v : ℕ) (path ns : List ℕ) (stack : Stack)
    → mem v ns ≡ true
    → on_stack v (push_all path ns stack) ≡ true
push_all-mem v path [] stack h = cc
push_all-mem v path (n ∷ ns) stack h = elim (Bool-cases (n == v)) [
  | inl this ↦ push_all-keeps v path ns ((n, path ++ n ∷ []) ∷ stack) (rw this refl)
  | inr other ↦ push_all-mem v path ns _ (ground arith)
]

length-push_all :
    (path ns : List ℕ) (stack : Stack) → length (push_all path ns stack) ≡ length ns + length stack
length-push_all path [] stack = omega arith
length-push_all path (n ∷ ns) stack =
    omega (arith, length-push_all path ns ((n, path ++ n ∷ []) ∷ stack))

skipped :
    (node : ℕ) (path : List ℕ) (stack : Stack) (seen : List ℕ) (n : ℕ)
    → mem node seen ≡ true
    → (mem n seen || on_stack n ((node, path) ∷ stack)) ≡ true
    → (mem n seen || on_stack n stack) ≡ true
skipped node path stack seen n old h = elim (Bool-cases (node == n)) [
  | inl this ↦
      let same : node ≡ n = (==_iff node n).0 this in
      let held : mem n seen ≡ true = subst (λ m. mem m seen ≡ true) same old in rw held refl
  | inr other ↦ ground arith
]

pushed :
    (node : ℕ) (path ns : List ℕ) (stack : Stack) (seen : List ℕ) (n : ℕ)
    → (mem n seen || on_stack n ((node, path) ∷ stack)) ≡ true
    → (mem n (node ∷ seen) || on_stack n (push_all path ns stack)) ≡ true
pushed node path ns stack seen n h = elim (Bool-cases (mem n (node ∷ seen))) [
  | inl held ↦ rw held refl
  | inr new ↦ or_right (mem n (node ∷ seen)) (push_all-keeps n path ns stack (ground arith))
]

module _ {V : Type 0} where
  Trail-append :
      {edges : List (Edge V)} {a b c : ℕ} {p : List ℕ}
      → Trail edges a b p
      → HasEdge edges b c
      → Trail edges a c (p ++ c ∷ [])
  Trail-append trail_end e = trail_edge e trail_end
  Trail-append (trail_edge f t) e = trail_edge f (Trail-append t e)

  -- the edges whose source was not expanded
  abbrev ahead : List ℕ → Edge V → Bool
  ahead seen e = not (mem e.source seen)

  ahead_cons_le :
      (node : ℕ) (seen : List ℕ) (edges : List (Edge V))
      → count (ahead (node ∷ seen)) edges ≤ count (ahead seen) edges
  ahead_cons_le node seen [] = omega arith
  ahead_cons_le node seen (e ∷ es) = ground (arith, ahead_cons_le node seen es)

  -- what an expansion pushes is no longer ahead
  ahead-adjacent :
      (node : ℕ) (seen : List ℕ) (edges : List (Edge V))
      → mem node seen ≡ false
      → count (ahead (node ∷ seen)) edges + length (adjacent edges node) ≤ count (ahead seen) edges
  unfolding adjacent
  ahead-adjacent node seen [] new = omega arith
  ahead-adjacent node seen (e ∷ es) new = elim (Bool-cases (e.source == node)) [
    | inl this ↦
        let same : e.source ≡ node = (==_iff e.source node).0 this in
        rw (same, new, ==_refl node) (omega (arith, ahead-adjacent node seen es new))
    | inr other ↦
        let apart : (node == e.source) ≡ false = ground arith in
        rw (apart, other) (ground (arith, ahead-adjacent node seen es new))
  ]

module _ {V : Type 0} (edges : List (Edge V)) (source target : ℕ) where
  -- a way from the target to the first session of an item, with the source before it
  IsWay : ℕ × List ℕ → Type 0
  IsWay (node, path) = (q : List ℕ) × (path ≡ source ∷ q) × Trail edges target node q

  push_all-IsWay :
      (node : ℕ) (path ns : List ℕ) (stack : Stack)
      → IsWay (node, path)
      → ((n : ℕ) → mem n ns ≡ true → HasEdge edges node n)
      → All IsWay stack
      → All IsWay (push_all path ns stack)
  unfolding IsWay
  push_all-IsWay node path [] stack way e ways = ways
  push_all-IsWay node path (n ∷ ns) stack (q, starts, trail) e ways =
      push_all-IsWay node path ns ((n, path ++ n ∷ []) ∷ stack) (q, starts, trail)
        (λ m h. e m (ground arith))
        (
          (
            q ++ n ∷ [],
            ap (λ p. p ++ n ∷ []) starts,
            Trail-append trail (e n (rw (==_refl n) refl)),
          ),
          ways,
        )

  -- what was expanded is not the source, and each of its targets was expanded or waits
  Done : Stack → List ℕ → Type 0
  Done stack seen =
      (v : ℕ)
      → mem v seen ≡ true
      → ((v == source) ≡ false)
        × ((n : ℕ) → HasEdge edges v n → (mem n seen || on_stack n stack) ≡ true)

  skip-Done :
      (node : ℕ) (path : List ℕ) (stack : Stack) (seen : List ℕ)
      → mem node seen ≡ true
      → Done ((node, path) ∷ stack) seen
      → Done stack seen
  unfolding Done
  skip-Done node path stack seen old done v h =
      let (far, next) = done v h in (far, λ n e. skipped node path stack seen n old (next n e))

  push-Done :
      (node : ℕ) (path : List ℕ) (stack : Stack) (seen : List ℕ)
      → (node == source) ≡ false
      → Done ((node, path) ∷ stack) seen
      → Done (push_all path (adjacent edges node) stack) (node ∷ seen)
  unfolding Done
  push-Done node path stack seen apart done v h = elim (Bool-cases (node == v)) [
    | inl this ↦
        let same : node ≡ v = (==_iff node v).0 this in
        (
          subst (λ w. (w == source) ≡ false) same apart,
          λ n e. or_right (mem n (node ∷ seen)) (
              push_all-mem n path (adjacent edges node) stack
                (HasEdge-adjacent edges node n (subst (λ w. HasEdge edges w n) (sym same) e))),
        )
    | inr other ↦
        let (far, next) = done v (ground arith) in
        (far, λ n e. pushed node path (adjacent edges node) stack seen n (next n e))
  ]

  -- the two answers
  abbrev pub IsAnswer : Option (Option (List ℕ)) → Type 0
  IsAnswer answer =
      ((p q : List ℕ) × (answer ≡ some (some p)) × (p ≡ source ∷ q) × Trail edges target source q)
      ⊎ ((answer ≡ some none) × ¬ (Walk edges target source))

  closed-Walk :
      {a b : ℕ} (seen : List ℕ)
      → Done [] seen
      → Walk edges a b
      → mem a seen ≡ true
      → mem b seen ≡ true
  unfolding Done
  closed-Walk seen done here h = h
  closed-Walk {a} seen done (along {c = c} e w) h =
      closed-Walk seen done w (or_false (mem c seen) ((done a h).1 c e))
    where
      or_false : (b : Bool) → (b || false) ≡ true → b ≡ true
      or_false b h = ground arith

  no-Walk : (seen : List ℕ) → Done [] seen → mem target seen ≡ true → ¬ (Walk edges target source)
  unfolding Done
  no-Walk seen done begun w =
      let (far, next) = done source (closed-Walk seen done w begun) in
      absurd (ground (arith, ==_refl source))

  -- what is still to be popped
  abbrev left : Stack → List ℕ → ℕ
  left stack seen = length stack + count (ahead seen) edges

  expand_node-IsAnswer :
      (onward : Stack → List ℕ → Option (Option (List ℕ))) (fuel node : ℕ) (path : List ℕ)
      (stack : Stack) (seen : List ℕ)
      → ((stack : Stack) (seen : List ℕ)
          → All IsWay stack
          → Done stack seen
          → (mem target seen || on_stack target stack) ≡ true
          → left stack seen ≤ fuel
          → IsAnswer (onward stack seen))
      → (node == source) ≡ false
      → All IsWay ((node, path) ∷ stack)
      → Done ((node, path) ∷ stack) seen
      → (mem target seen || on_stack target ((node, path) ∷ stack)) ≡ true
      → left ((node, path) ∷ stack) seen ≤ suc fuel
      → IsAnswer (expand_node onward edges node path stack seen)
  unfolding expand_node
  expand_node-IsAnswer onward fuel node path stack seen go apart ways done begun h =
      on_branches IsAnswer (mem node seen)
        (λ old.
          go stack seen ways.1 (skip-Done node path stack seen old done)
            (skipped node path stack seen target old begun) (omega arith))
        (λ new.
          go (push_all path (adjacent edges node) stack) (node ∷ seen)
            (push_all-IsWay node path (adjacent edges node) stack ways.0
              (adjacent-HasEdge edges node) ways.1)
            (push-Done node path stack seen apart done)
            (pushed node path (adjacent edges node) stack seen target begun)
            (omega (
              arith,
              length-push_all path (adjacent edges node) stack,
              ahead-adjacent node seen edges new,
            )))

  search_back-IsAnswer :
      (fuel : ℕ) (stack : Stack) (seen : List ℕ)
      → All IsWay stack
      → Done stack seen
      → (mem target seen || on_stack target stack) ≡ true
      → left stack seen ≤ fuel
      → IsAnswer (search_back fuel edges source stack seen)
  unfolding search_back IsWay
  search_back-IsAnswer fuel [] seen ways done begun h = inr (refl, no-Walk seen done (ground arith))
  search_back-IsAnswer zero ((node, path) ∷ stack) seen ways done begun h = absurd (omega arith)
  search_back-IsAnswer (suc fuel) ((node, path) ∷ stack) seen ways done begun h =
      on_branches IsAnswer (node == source)
        (λ this.
          let (q, starts, trail) = ways.0 in
          inl (
            path,
            q,
            refl,
            starts,
            subst (λ v. Trail edges target v q) ((==_iff node source).0 this) trail,
          ))
        (λ apart.
          expand_node-IsAnswer (search_back fuel edges source) fuel node path stack seen
            (search_back-IsAnswer fuel) apart ways done begun h)

  -- The search for a cycle through a new edge ends: with the edge's source before a way from its
  -- target back to it, or with none, and then no walk leads back.
  pub cycle_of-IsAnswer : IsAnswer (cycle_of edges source target)
  unfolding cycle_of IsWay Done
  cycle_of-IsAnswer =
      search_back-IsAnswer (suc (length edges)) ((target, source ∷ target ∷ []) ∷ []) []
        ((target ∷ [], refl, trail_end), tt) (λ v h. cc) (rw (==_refl target) refl)
        (omega (arith, count-le-length (ahead []) edges))
