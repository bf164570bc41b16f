-- ===== src/Edges/Discover.antt =====
-- What a discovery and a visit do to the queue and to the map of discoveries.
use dotfile.Prelude.{
  ℕ, true, List, [], ◌∷◌, ◌++◌, mem, ◌≡◌, refl, sym, inl, inr, ◌⊎◌, Bool-cases, arith, ◌==◌, ==_iff,
  ==_refl, on_branches,
}
use dotfile.Edges.{Previous, known, Search, discover, visit}

mem-append : (v : ℕ) (xs ys : List ℕ) → mem v xs ≡ true → mem v (xs ++ ys) ≡ true
mem-append v [] ys h = cc
mem-append v (x ∷ xs) ys h = ground (arith, mem-append v xs ys)

mem-append-last : (v : ℕ) (xs : List ℕ) → mem v (xs ++ v ∷ []) ≡ true
mem-append-last v [] = rw (==_refl v) refl
mem-append-last v (x ∷ xs) = ground (arith, mem-append-last v xs)

pub mem-append-cases :
    (v n : ℕ) (xs : List ℕ) → mem v (xs ++ n ∷ []) ≡ true → (mem v xs ≡ true) ⊎ (n ≡ v)
mem-append-cases v n [] h = inr (ground arith)
mem-append-cases v n (x ∷ xs) h = elim (Bool-cases (x == v)) [
  | inl first ↦ inl (ground arith)
  | inr other ↦ elim (mem-append-cases v n xs (ground arith)) [
    | inl later ↦ inl (ground arith)
    | inr last ↦ inr last
  ]
]

-- A step from one state of the search to a later one: nothing is forgotten, and what is newly known
-- is queued.
pub record Grows (s t : Search) : Type 0 where
  pub keeps : (v : ℕ) → known v s.previous ≡ true → known v t.previous ≡ true
  pub queues : (v : ℕ) → mem v s.queue ≡ true → mem v t.queue ≡ true
  pub fresh :
      (v : ℕ) → known v t.previous ≡ true → (known v s.previous ≡ true) ⊎ (mem v t.queue ≡ true)

Grows-refl : (s : Search) → Grows s s
Grows-refl s = record { keeps = λ v h. h; queues = λ v h. h; fresh = λ v h. inl h }

Grows-trans : {s t w : Search} → Grows s t → Grows t w → Grows s w
Grows-trans g h = record {
  keeps = λ v k. h.keeps v (g.keeps v k);
  queues = λ v m. h.queues v (g.queues v m);
  fresh = λ v k. elim (h.fresh v k) [
    | inr queued ↦ inr queued
    | inl before ↦ elim (g.fresh v before) [
      | inl first ↦ inl first
      | inr queued ↦ inr (h.queues v queued)
    ]
  ];
}

pub known_cons : (v n c : ℕ) (p : Previous) → known v p ≡ true → known v ((n, c) ∷ p) ≡ true
known_cons v n c p h = ground arith

pub discover-Grows : (c n : ℕ) (s : Search) → Grows s (discover c n s)
unfolding discover
discover-Grows c n s =
    on_branches (Grows s) (known n s.previous) (λ _. Grows-refl s)
      (λ _. record {
        keeps = λ v h. known_cons v n c s.previous h;
        queues = λ v h. mem-append v s.queue (n ∷ []) h;
        fresh = λ v h. elim (Bool-cases (n == v)) [
          | inl new ↦ inr (rw ((==_iff n v).0 new) (mem-append-last v s.queue))
          | inr old ↦ inl (ground arith)
        ];
      })

discover-known : (c n : ℕ) (s : Search) → known n (discover c n s).previous ≡ true
unfolding discover
discover-known c n s =
    on_branches (λ (t : Search). known n t.previous ≡ true) (known n s.previous) (λ held. held)
      (λ _. rw (==_refl n) refl)

pub visit-Grows : (c : ℕ) (ns : List ℕ) (s : Search) → Grows s (visit c ns s)
unfolding visit
visit-Grows c [] s = Grows-refl s
visit-Grows c (n ∷ ns) s = Grows-trans (discover-Grows c n s) (visit-Grows c ns (discover c n s))

-- after a visit every session that was listed is known
pub visit-known :
    (c : ℕ) (ns : List ℕ) (s : Search) (n : ℕ)
    → mem n ns ≡ true
    → known n (visit c ns s).previous ≡ true
unfolding visit
visit-known c [] s n h = cc
visit-known c (m ∷ ns) s n h = elim (Bool-cases (m == n)) [
  | inl first ↦
      (visit-Grows c ns (discover c m s)).keeps n
        (rw (sym ((==_iff m n).0 first)) (discover-known c m s))
  | inr later ↦ visit-known c ns (discover c m s) n (ground arith)
]
