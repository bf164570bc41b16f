-- ===== src/Bus/Numbered/Next.antt =====
-- The number of the next message of a pair.
use dotfile.Prelude.{
  ℕ, suc, ◌+◌, ◌<◌, Bool, true, false, ◌&&◌, ◌||◌, Option, none, some, List, [], ◌∷◌, ◌≡◌, ◌∙◌, ap,
  sym, refl, ◌⊎◌, inl, inr, any, count, ltb, leb, ==_refl, on_branches, if◌then◌else◌, arith, ◌==◌,
}
use dotfile.External.{External}
use dotfile.Registry.Schema.{Message, Tables}
use dotfile.Registry.Project.Messages.{id_is}
use dotfile.Registry.Lists.{in_order, by_id, messages}
use dotfile.Registry.Lists.Ordered.{count-in_order}
use dotfile.Bus.{is_sent, pair_seq_of, greatest, max_pair_seq, next_pair_seq}

greatest-bound :
    (sent : Bool) (o : Option ℕ) (rest n : ℕ) (later : Bool)
    → (sent && id_is o n || later) ≡ true
    → (later ≡ true → n < suc rest)
    → n < suc (if sent then greatest o rest else rest)
greatest-bound false o rest n later h below = below h
greatest-bound true none rest n later h below = below h
greatest-bound true (some m) rest n false h below = ground arith
greatest-bound true (some m) rest n true h below = ground (arith, below refl)

greatest-used :
    (sent : Bool) (o : Option ℕ) (rest : ℕ) (used : ℕ → Bool)
    → (rest ≡ 0) ⊎ (used rest ≡ true)
    → ((if sent then greatest o rest else rest) ≡ 0)
      ⊎ ((sent && id_is o (if sent then greatest o rest else rest)
            || used (if sent then greatest o rest else rest))
          ≡ true)
greatest-used false o rest used h = h
greatest-used true none rest used h = h
greatest-used true (some n) rest used h =
    on_branches (λ top. (top ≡ 0) ⊎ ((n == top || used top) ≡ true)) (leb n rest)
      (λ below. elim h [
        | inl none_used ↦ inl none_used
        | inr is_used ↦ inr (ground (arith, is_used))
      ])
      (λ above. inr (ground (arith, ==_refl n)))

module _ {V : Type 0} ⦃x : External V⦄ where
  -- a message of the pair with the number
  abbrev pub is_used : ℕ → ℕ → ℕ → Message V → Bool
  is_used from to n m = is_sent from to m && id_is (pair_seq_of m.body) n

  max_pair_seq-bound :
      (from to n : ℕ) (ms : List (Message V))
      → any (is_used from to n) ms ≡ true
      → n < suc (max_pair_seq from to ms)
  unfolding max_pair_seq
  max_pair_seq-bound from to n [] h = ground arith
  max_pair_seq-bound from to n (m ∷ ms) h =
      greatest-bound (is_sent from to m) (pair_seq_of m.body) (max_pair_seq from to ms) n
        (any (is_used from to n) ms) h (max_pair_seq-bound from to n ms)

  max_pair_seq-used :
      (from to : ℕ) (ms : List (Message V))
      → (max_pair_seq from to ms ≡ 0) ⊎ (any (is_used from to (max_pair_seq from to ms)) ms ≡ true)
  unfolding max_pair_seq
  max_pair_seq-used from to [] = inl refl
  max_pair_seq-used from to (m ∷ ms) =
      greatest-used (is_sent from to m) (pair_seq_of m.body) (max_pair_seq from to ms)
        (λ n. any (is_used from to n) ms) (max_pair_seq-used from to ms)

  any_by_count : (p : Message V → Bool) (ms : List (Message V)) → any p ms ≡ ltb 0 (count p ms)
  any_by_count p [] = refl
  any_by_count p (m ∷ ms) = ground (arith, any_by_count p ms)

  any-messages : (p : Message V → Bool) (t : Tables V) → any p (messages t) ≡ any p t.messages
  unfolding messages
  any-messages p t =
      any_by_count p (in_order by_id t.messages)
      ∙ ap (λ n. ltb 0 n) (count-in_order by_id p t.messages)
      ∙ sym (any_by_count p t.messages)

  -- The number of the next message of a pair is above every number that a message of the pair has,
  -- and it is 1 or follows one of them.
  pub next_pair_seq-bound :
      (t : Tables V) (from to : ℕ)
      → ((n : ℕ) → any (is_used from to n) t.messages ≡ true → n < next_pair_seq t from to)
        × ((next_pair_seq t from to ≡ 1)
            ⊎ ((n : ℕ) × (next_pair_seq t from to ≡ n + 1)
                × (any (is_used from to n) t.messages ≡ true)))
  unfolding next_pair_seq
  next_pair_seq-bound t from to = (
    λ n h.
        ground (
          arith,
          max_pair_seq-bound from to n (messages t) (any-messages (is_used from to n) t ∙ h),
        ),
    elim (max_pair_seq-used from to (messages t)) [
      | inl none_used ↦ inl (ground (arith, none_used))
      | inr used ↦
          let n = max_pair_seq from to (messages t) in
          inr (n, refl, sym (any-messages (is_used from to n) t) ∙ used)
    ],
  )
