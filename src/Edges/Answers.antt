-- ===== src/Edges/Answers.antt =====
-- The answer of `path`: a way along edges where there is one, and none where there is none.
use dotfile.Prelude.{
  ℕ, zero, suc, ◌≤◌, true, false, Option, some, none, List, [], ◌∷◌, mem, ◌≡◌, ap, sym, subst, refl,
  length, inl, inr, ◌⊎◌, Bool-cases, arith, ◌==◌, ==_iff, ==_refl, on_branches, count-le-length,
}
use dotfile.Registry.Schema.{Edge}
use dotfile.Edges.{Previous, known, Search, visit, adjacent, found, search_from, search, path}
use dotfile.Edges.Walk.{
  HasEdge, Walk, here, along, Trail, trail_end, Chain, chain_start, trace-Trail, Traced,
}
use dotfile.Edges.Discover.{visit-Grows, visit-known}
use dotfile.Edges.Found.{Sound, left, ahead, visit-Sound, adjacent-HasEdge, HasEdge-adjacent}

module _ {V : Type 0} (edges : List (Edge V)) (start end : ℕ) where
  -- what was discovered waits in the queue, or is not the end and all its targets are discovered
  Done : Search → Type 0
  Done s =
      (v : ℕ)
      → known v s.previous ≡ true
      → (mem v s.queue ≡ true)
        ⊎ (((v == end) ≡ false) × ((n : ℕ) → HasEdge edges v n → known n s.previous ≡ true))

  -- the two answers
  abbrev pub IsAnswer : Option (Option (List ℕ)) → Type 0
  IsAnswer answer =
      ((p : List ℕ) × (answer ≡ some (some p)) × Trail edges start end p)
      ⊎ ((answer ≡ some none) × ¬ (Walk edges start end))

  found-IsAnswer :
      (traced : Option (List ℕ)) → Traced edges start end traced → IsAnswer (found traced)
  found-IsAnswer traced (p, read, trail) = inl (p, ap found read, trail)

  visit-Done :
      (c : ℕ) (q : List ℕ) (previous : Previous)
      → (c == end) ≡ false
      → Done (record { queue = c ∷ q; previous = previous })
      → Done (visit c (adjacent edges c) (record { queue = q; previous = previous }))
  unfolding Done
  visit-Done c q previous other done v h =
      let s : Search = record { queue = q; previous = previous } in
      let grows = visit-Grows c (adjacent edges c) s in
      elim (grows.fresh v h) [
        | inr queued ↦ inl queued
        | inl before ↦ elim (Bool-cases (c == v)) [
          | inl this ↦
              let same : c ≡ v = (==_iff c v).0 this in
              inr (
                subst (λ w. (w == end) ≡ false) same other,
                λ n e.
                    visit-known c (adjacent edges c) s n
                      (HasEdge-adjacent edges c n (subst (λ w. HasEdge edges w n) (sym same) e)),
              )
          | inr apart ↦ elim (done v before) [
            | inl queued ↦ inl (grows.queues v (ground arith))
            | inr (far, next) ↦ inr (far, λ n e. grows.keeps n (next n e))
          ]
        ]
      ]

  closed-Walk :
      {a b : ℕ} (previous : Previous)
      → Done (record { queue = []; previous = previous })
      → Walk edges a b
      → known a previous ≡ true
      → known b previous ≡ true
  unfolding Done
  closed-Walk previous done here h = h
  closed-Walk {a} previous done (along {c = c} e w) h = elim (done a h) [
    | inl queued ↦ cc
    | inr (far, next) ↦ closed-Walk previous done w (next c e)
  ]

  no-Walk :
      (previous : Previous)
      → Done (record { queue = []; previous = previous })
      → known start previous ≡ true
      → ¬ (Walk edges start end)
  unfolding Done
  no-Walk previous done begun w = elim (done end (closed-Walk previous done w begun)) [
    | inl queued ↦ cc
    | inr (far, next) ↦ absurd (ground (arith, ==_refl end))
  ]

  search-IsAnswer :
      (fuel : ℕ) (q : List ℕ) (previous : Previous)
      → Sound edges start (record { queue = q; previous = previous })
      → Done (record { queue = q; previous = previous })
      → known start previous ≡ true
      → left edges (record { queue = q; previous = previous }) ≤ fuel
      → IsAnswer (search fuel edges start end q previous)
  unfolding search search_from
  search-IsAnswer fuel [] previous sound done begun h = inr (refl, no-Walk previous done begun)
  search-IsAnswer zero (c ∷ q) previous sound done begun h = absurd (omega arith)
  search-IsAnswer (suc fuel) (c ∷ q) previous sound done begun h =
      let held : known c previous ≡ true = sound.queued c (rw (==_refl c) refl) in
      let s : Search = record { queue = q; previous = previous } in
      let popped : Sound edges start s = record {
        chains = sound.chains;
        queued = λ v m. sound.queued v (ground arith);
      } in
      on_branches IsAnswer (c == end)
        (λ this.
          let (n, short, chain) = sound.chains c held in
          found-IsAnswer _ (
            trace-Trail (length previous) []
              (subst (λ v. Chain edges start previous v n) ((==_iff c end).0 this) chain) short
              trail_end))
        (λ other.
          let (next, less) =
            visit-Sound c (adjacent edges c) s (adjacent-HasEdge edges c) held popped in
          let t = visit c (adjacent edges c) s in
          search-IsAnswer fuel t.queue t.previous next (visit-Done c q previous other done)
            ((visit-Grows c (adjacent edges c) s).keeps start begun) (omega arith))

  -- The search ends without a panic: with the sessions on a way along edges from the start to the end,
  -- or with none, and then no walk leads there.
  pub path-IsAnswer : IsAnswer (path edges start end)
  unfolding path Done
  path-IsAnswer =
      search-IsAnswer (suc (length edges)) (start ∷ []) ((start, start) ∷ [])
        (record {
          chains = λ v h. (
            0,
            omega arith,
            subst (λ w. Chain edges start ((start, start) ∷ []) w 0)
                ((==_iff start v).0 (ground arith)) chain_start,
          );
          queued = λ v h. ground arith;
        })
        (λ v h. inl (ground arith)) (rw (==_refl start) refl)
        (omega (arith, count-le-length (ahead ((start, start) ∷ [])) edges))
