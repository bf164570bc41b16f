-- ===== src/Edges/Found.antt =====
-- What holds in every round of the search: each discovery leads back to the start along edges, and
-- the rounds that are left fit the fuel.
use dotfile.Prelude.{
  ℕ, suc, ◌+◌, ◌≤◌, ◌<◌, Bool, true, false, not, some, List, [], ◌∷◌, ◌++◌, mem, count, ◌≡◌, subst,
  refl, length, length-append, inl, inr, Bool-cases, arith, ◌==◌, ==_iff, ==_refl, on_branches,
}
use dotfile.Registry.Schema.{Edge}
use dotfile.Edges.{Previous, lookup, known, Search, discover, visit, is_edge, adjacent}
use dotfile.Edges.Discover.{mem-append-cases, known_cons, discover-Grows}
use dotfile.Edges.Walk.{HasEdge, Chain, chain_start, chain_back}

lookup-known : (v c : ℕ) (p : Previous) → lookup v p ≡ some c → known v p ≡ true
lookup-known v c [] h = cc
lookup-known v c ((n, d) ∷ p) h = ground (arith, lookup-known v c p)

queued_cons :
    (v n c : ℕ) (queue : List ℕ) (p : Previous)
    → ((w : ℕ) → mem w queue ≡ true → known w p ≡ true)
    → mem v (queue ++ n ∷ []) ≡ true
    → known v ((n, c) ∷ p) ≡ true
queued_cons v n c queue p queued h = elim (mem-append-cases v n queue h) [
  | inl before ↦ known_cons v n c p (queued v before)
  | inr this ↦ rw (this, ==_refl v) refl
]

module _ {V : Type 0} where
  -- the edges whose target is not known
  abbrev pub ahead : Previous → Edge V → Bool
  ahead p e = not (known e.target p)

  ahead_cons_le :
      (n c : ℕ) (p : Previous) (edges : List (Edge V))
      → count (ahead ((n, c) ∷ p)) edges ≤ count (ahead p) edges
  ahead_cons_le n c p [] = omega arith
  ahead_cons_le n c p (e ∷ es) = ground (arith, ahead_cons_le n c p es)

  ahead_cons :
      (a n c : ℕ) (p : Previous) (edges : List (Edge V))
      → HasEdge edges a n
      → known n p ≡ false
      → count (ahead ((n, c) ∷ p)) edges < count (ahead p) edges
  ahead_cons a n c p [] h new = cc
  ahead_cons a n c p (e ∷ es) h new = elim (Bool-cases (is_edge a n e)) [
    | inl this ↦
        let same : e.target ≡ n = ground arith in
        rw (same, new, ==_refl n) (omega (arith, ahead_cons_le n c p es))
    | inr other ↦ ground (arith, ahead_cons a n c p es)
  ]

  -- what a round has still to do
  abbrev pub left : List (Edge V) → Search → ℕ
  left edges s = length s.queue + count (ahead s.previous) edges

  abbrev HasBack : List (Edge V) → ℕ → Search → Type 0
  HasBack edges start s =
      (v : ℕ)
      → known v s.previous ≡ true
      → (n : ℕ) × (n ≤ length s.previous) × Chain edges start s.previous v n

  pub record Sound (edges : List (Edge V)) (start : ℕ) (s : Search) : Type 0 where
    pub chains : HasBack edges start s
    pub queued : (v : ℕ) → mem v s.queue ≡ true → known v s.previous ≡ true

module _ {V : Type 0} {edges : List (Edge V)} {start : ℕ} where
  Chain-cons :
      {p : Previous} {v n : ℕ} (m c : ℕ)
      → known m p ≡ false
      → Chain edges start p v n
      → Chain edges start ((m, c) ∷ p) v n
  Chain-cons m c new chain_start = chain_start
  Chain-cons {p} {v} m c new (chain_back {c = d} back e chain) =
      let other : (m == v) ≡ false = ground (arith, lookup-known v d p back) in
      chain_back (rw other back) e (Chain-cons m c new chain)

  discover-chains :
      (c n : ℕ) (s : Search)
      → HasEdge edges c n
      → known c s.previous ≡ true
      → known n s.previous ≡ false
      → HasBack edges start s
      → HasBack edges start (record { queue = s.queue ++ n ∷ []; previous = (n, c) ∷ s.previous })
  discover-chains c n s e held new chains v h = elim (Bool-cases (n == v)) [
    | inl this ↦
        let (k, short, chain) = chains c held in
        let back : lookup n ((n, c) ∷ s.previous) ≡ some c = rw (==_refl n) refl in
        subst
          (λ v.
            (k : ℕ) × (k ≤ suc (length s.previous)) × Chain edges start ((n, c) ∷ s.previous) v k)
          ((==_iff n v).0 this) (suc k, omega arith, chain_back back e (Chain-cons n c new chain))
    | inr other ↦
        let (k, short, chain) = chains v (ground arith) in
        (k, omega arith, Chain-cons n c new chain)
  ]

  -- A discovery along an edge keeps the state sound and leaves no more to do.
  discover-Sound :
      (c n : ℕ) (s : Search)
      → HasEdge edges c n
      → known c s.previous ≡ true
      → Sound edges start s
      → Sound edges start (discover c n s) × (left edges (discover c n s) ≤ left edges s)
  unfolding discover
  discover-Sound c n s e held sound =
      on_branches (λ (t : Search). Sound edges start t × (left edges t ≤ left edges s))
        (known n s.previous) (λ _. (sound, omega arith))
        (λ new. (
          record {
            chains = discover-chains c n s e held new sound.chains;
            queued = λ v h. queued_cons v n c s.queue s.previous sound.queued h;
          },
          omega (arith, length-append s.queue (n ∷ []), ahead_cons c n c s.previous edges e new),
        ))

  pub visit-Sound :
      (c : ℕ) (ns : List ℕ) (s : Search)
      → ((n : ℕ) → mem n ns ≡ true → HasEdge edges c n)
      → known c s.previous ≡ true
      → Sound edges start s
      → Sound edges start (visit c ns s) × (left edges (visit c ns s) ≤ left edges s)
  unfolding visit
  visit-Sound c [] s e held sound = (sound, omega arith)
  visit-Sound c (n ∷ ns) s e held sound =
      let (next, less) = discover-Sound c n s (e n (rw (==_refl n) refl)) held sound in
      let (last, lesser) =
        visit-Sound c ns (discover c n s) (λ m h. e m (ground arith))
          ((discover-Grows c n s).keeps c held) next in
      (last, omega arith)

module _ {V : Type 0} where
  pub adjacent-HasEdge :
      (edges : List (Edge V)) (v n : ℕ) → mem n (adjacent edges v) ≡ true → HasEdge edges v n
  unfolding adjacent
  adjacent-HasEdge [] v n h = cc
  adjacent-HasEdge (e ∷ es) v n h = ground (arith, adjacent-HasEdge es v n)

  pub HasEdge-adjacent :
      (edges : List (Edge V)) (v n : ℕ) → HasEdge edges v n → mem n (adjacent edges v) ≡ true
  unfolding adjacent
  HasEdge-adjacent [] v n h = cc
  HasEdge-adjacent (e ∷ es) v n h = ground (arith, HasEdge-adjacent es v n)
