-- ===== src/Sessions/Above.antt =====
-- A session is moved under a new parent only where it is not among the parent's ancestors.
use dotfile.Prelude.{
  ℕ, suc, zero, true, false, Option, none, some, List, [], ◌∷◌, Result, ok, err, mem, length, ◌≡◌,
  ◌≢◌, ◌⊎◌, ◌∙◌, ap, sym, subst, refl, inl, inr, Bool-cases, on_branches, by_test, ◌==◌, ==_iff,
  arith, ok_unique,
}
use dotfile.External.{UlidText, External}
use dotfile.Registry.Schema.{SessionRow, Tables, Error}
use dotfile.Registry.Resolve.{get_record}
use dotfile.Limits.Ancestors.{Turn, onward, climb, turn, unless}
use dotfile.Limits.Ancestors.Ends.{climb-enough}
use dotfile.Limits.Collect.{collect, length-collect, mem-collect}
use dotfile.Limits.Scope.Ends.{get_record-IsRow}
use dotfile.Calls.{ServiceError}
use dotfile.Sessions.{
  parent_of, parent_climb, visit_ancestor, climbed, search_ancestors, check_ancestors,
}

abbrev Check : Type 0
Check = Option (Result ServiceError (Unit {0}))

stopped : {r : ServiceError} → ◌≡◌ {A = Check} (some (err r)) (some (ok tt)) → ⊥
stopped q = cc

out_of_fuel : ◌≡◌ {A = Check} none (some (ok tt)) → ⊥
out_of_fuel q = cc

none-some : {b : ℕ} → none ≡ some b → ⊥
none-some q = cc

mem-first : (id b : ℕ) (seen : List ℕ) → some id ≡ some b → mem b (id ∷ seen) ≡ true
mem-first id b seen q = ground arith

climbed-ok : (result : Check) → climbed result ≡ ok tt → result ≡ some (ok tt)
climbed-ok none h = cc
climbed-ok (some result) h = ap some h

mem-next : (id b : ℕ) (seen : List ℕ) → some id ≡ some b → mem id seen ≡ true → mem b seen ≡ true
mem-next id b seen q here = subst (λ i. mem i seen ≡ true) (inner q) here
  where
    inner : some id ≡ some b → id ≡ b
    inner h = cc

module _ {V : Type 0} ⦃u : UlidText⦄ ⦃x : External V⦄ (t : Tables V) where
  -- the record of the session names the parent
  pub HasParent : ℕ → ℕ → Type 0
  HasParent a b =
      (row : SessionRow V) × (get_record t (u.show_ulid a) ≡ ok row) × (parent_of row ≡ some b)

  -- from a session to itself or to an ancestor
  pub data Above : ℕ → ℕ → Type 0 where
    itself : {a : ℕ} → Above a a
    above : {a b c : ℕ} → HasParent a b → Above b c → Above a c

  -- the ids with each parent of theirs, where the parent is not the one to be visited next
  Closed : ℕ → List ℕ → Option ℕ → Type 0
  Closed session seen next =
      (a : ℕ)
      → mem a seen ≡ true
      → (a ≢ session) × ((b : ℕ) → HasParent a b → (mem b seen ≡ true) ⊎ (next ≡ some b))

  Closed-Above :
      (session : ℕ) (seen : List ℕ) (next : Option ℕ)
      → Closed session seen next
      → ((b : ℕ) → next ≡ some b → mem b seen ≡ true)
      → (a c : ℕ) → mem a seen ≡ true
      → Above a c
      → c ≢ session
  unfolding Closed
  Closed-Above session seen next closed visited a c here itself = (closed a here).0
  Closed-Above session seen next closed visited a c here (above {b = b} parent rest) =
      elim ((closed a here).1 b parent) [
        | inl known ↦ Closed-Above session seen next closed visited b c known rest
        | inr last ↦ Closed-Above session seen next closed visited b c (visited b last) rest
      ]

  Closed-next :
      (session id : ℕ) (seen : List ℕ) (row : SessionRow V)
      → Closed session seen (some id)
      → (id == session) ≡ false
      → get_record t (u.show_ulid id) ≡ ok row
      → Closed session (id ∷ seen) (parent_of row)
  unfolding Closed HasParent
  Closed-next session id seen row closed apart found a here = elim (Bool-cases (id == a)) [
    | inl this ↦
        let same = (==_iff id a).0 this in
        (
          λ q. not_both (sym apart ∙ (==_iff id session).1 (same ∙ q)),
          λ b (row', found', parent).
              let found_at = ap (λ i. get_record t (u.show_ulid i)) same ∙ found' in
              inr (ap parent_of (ok_unique _ found found_at) ∙ parent),
        )
    | inr other ↦
        let (away, parents) = closed a (ground arith) in
        (
          away,
          λ b parent. elim (parents b parent) [
            | inl known ↦ inl (ground arith)
            | inr last ↦ inl (mem-first id b seen last)
          ],
        )
  ]
    where
      not_both : false ≡ true → ⊥
      not_both q = cc

  -- what a loop that passes shows
  abbrev Passes : ℕ → ℕ → Option (Result ServiceError (Unit {0})) → Type 0
  Passes session start result = result ≡ some (ok tt) → (c : ℕ) → Above start c → c ≢ session

  visit_ancestor-Passes :
      (session start : ℕ) (go : Option ℕ → Unit {0} → Option (Result ServiceError (Unit {0})))
      (found : Result Error (SessionRow V))
      → ((row : SessionRow V) → found ≡ ok row → Passes session start (go (parent_of row) tt))
      → Passes session start (turn (parent_climb t session) go (visit_ancestor found))
  unfolding turn
  visit_ancestor-Passes session start go (err reason) h = λ q. absurd (stopped q)
  visit_ancestor-Passes session start go (ok row) h = h row refl

  -- a loop that passes ends on a closed list, which has the start
  parent_climb-Closed :
      (session start fuel : ℕ) (next : Option ℕ) (seen : List ℕ)
      → Closed session seen next
      → (mem start seen ≡ true) ⊎ (next ≡ some start)
      → climb (parent_climb t session) fuel next seen tt ≡ some (ok tt)
      → (c : ℕ) → Above start c
      → c ≢ session
  unfolding climb parent_climb turn unless
  parent_climb-Closed session start fuel none seen closed from h = λ c up. elim from [
    | inl here ↦ Closed-Above session seen none closed (λ b q. absurd (none-some q)) start c here up
    | inr q ↦ absurd (none-some q)
  ]
  parent_climb-Closed session start zero (some id) seen closed from h = absurd (out_of_fuel h)
  parent_climb-Closed session start (suc fuel) (some id) seen closed from h =
      on_branches (Passes session start) (mem id seen)
        (λ known passed c up.
          Closed-Above session seen (some id) closed (λ b q. mem-next id b seen q known) start c
            (start_known from known) up)
        (λ new.
          on_branches
            (λ step. Passes session start (
              turn (parent_climb t session)
                (λ next s. climb (parent_climb t session) fuel next (id ∷ seen) s) step))
            (id == session) (λ this passed. absurd (stopped passed))
            (λ apart.
              visit_ancestor-Passes session start
                (λ next s. climb (parent_climb t session) fuel next (id ∷ seen) s)
                (get_record t (u.show_ulid id))
                (λ row found.
                  parent_climb-Closed session start fuel (parent_of row) (id ∷ seen)
                    (Closed-next session id seen row closed apart found) (inl (start_in from)))))
        h
    where
      start_known :
          (mem start seen ≡ true) ⊎ (some id ≡ some start)
          → mem id seen ≡ true
          → mem start seen ≡ true
      start_known (inl here) known = here
      start_known (inr q) known = mem-next id start seen q known

      start_in : (mem start seen ≡ true) ⊎ (some id ≡ some start) → mem start (id ∷ seen) ≡ true
      start_in (inl here) = ground arith
      start_in (inr q) = mem-first id start seen q

  -- Where the check of a new parent passes, the session is neither the parent nor an ancestor of it.
  pub check_ancestors-Above :
      (session parent : ℕ)
      → check_ancestors t session (some parent) ≡ ok tt
      → ¬ Above parent session
  unfolding check_ancestors search_ancestors Closed
  check_ancestors-Above session parent h up =
      parent_climb-Closed session parent (suc (suc (length t.sessions))) (some parent) []
        (λ a here. absurd (empty here)) (inr refl) (climbed-ok _ h) session up refl
    where
      empty : false ≡ true → ⊥
      empty q = cc

  visit_ancestor-names :
      (found : Result Error (SessionRow V)) (next : ℕ)
      → visit_ancestor found ≡ onward (some next) tt
      → (row : SessionRow V) × (found ≡ ok row) × (parent_of row ≡ some next)
  visit_ancestor-names (err reason) next h = cc
  visit_ancestor-names (ok row) next h = (row, refl, named h)
    where
      named :
          ◌≡◌ {A = Turn (Unit {0}) (Result ServiceError (Unit {0}))}
            (onward (parent_of row) tt)
            (onward (some next) tt)
          → parent_of row ≡ some next
      named q = cc

  -- The loop over the ancestors of a new parent ends, whatever the sessions name as their parents.
  pub search_ancestors-ends :
      (session : ℕ) (parent : Option ℕ)
      → (r : Result ServiceError (Unit {0})) × (search_ancestors t session parent ≡ some r)
  unfolding search_ancestors parent_climb
  search_ancestors-ends session parent =
      climb-enough (parent_climb t session) (collect parent_of t.sessions)
        (λ id s s' n q.
          let (row, got, named) =
            visit_ancestor-names (get_record t (u.show_ulid id)) n (goes id s' n q) in
          mem-collect parent_of t.sessions row n (get_record-IsRow t (u.show_ulid id) row got)
            named)
        (length t.sessions) parent tt (length-collect parent_of t.sessions)
    where
      goes :
          (id : ℕ) (s' : Unit {0}) (n : ℕ)
          → (parent_climb t session).visit id tt ≡ onward (some n) s'
          → visit_ancestor (get_record t (u.show_ulid id)) ≡ onward (some n) tt
      goes id s' n q = by_test (id == session) q (λ stops. cc) (λ goes_on. goes_on)
