-- ===== src/Triggers/Pending/Orders.antt =====
-- The logs of different sessions can be applied in any order: each changes only its own triggers.
use dotfile.Prelude.{
  ℕ, Bool, false, ◌&&◌, Option, none, some, List, [], ◌∷◌, ◌≡◌, ◌≢◌, ◌∙◌, refl, ap, sym, inl, inr,
  Bool-cases, arith, str_eq, one_of, if◌then◌else◌, ◌==◌, subst, ==_iff,
}
use dotfile.Entry.{LogEntry}
use dotfile.External.{UlidText, External}
use dotfile.Registry.Fields.{str_field}
use dotfile.Triggers.Pending.{
  Trigger, find_trigger, remove_trigger, note_registered, note_ended, is_owned, parsed,
  ending_types, ReadsTrigger, apply_trigger_entry,
}

unequal : (a b : ℕ) → a ≢ b → (a == b) ≡ false
unequal a b apart = ground arith

abbrev names_id : Option ℕ → ℕ → Bool
names_id none id = false
names_id (some i) id = i == id

module _ {V : Type 0} where
  find-remove :
      (id i : ℕ) (triggers : List (ℕ × Trigger V))
      → find_trigger i (remove_trigger id triggers)
        ≡ (if id == i then none else find_trigger i triggers)
  find-remove id i [] = ground arith
  find-remove id i ((j, trigger) ∷ rest) = ground (arith, find-remove id i rest)

  -- what an entry does at one id
  abbrev registers : ℕ → Option (Trigger V) → ℕ → Option (Trigger V) → Option (Trigger V)
  registers session none id before = before
  registers session (some trigger) id before =
      if trigger.owner == session && trigger.id == id then some trigger else before

  abbrev ends : ℕ → Option ℕ → ℕ → Option (Trigger V) → Option (Trigger V)
  ends session named id before =
      if names_id named id && is_owned session before then none else before

  find-registered :
      (session : ℕ) (read : Option (Trigger V)) (triggers : List (ℕ × Trigger V)) (id : ℕ)
      → find_trigger id (note_registered session read triggers)
        ≡ registers session read id (find_trigger id triggers)
  unfolding note_registered
  find-registered session none triggers id = refl
  find-registered session (some trigger) triggers id =
      ground (arith, find-remove trigger.id id triggers)

  find-ended_same :
      (session id : ℕ) (triggers : List (ℕ × Trigger V))
      → find_trigger id (note_ended session (some id) triggers)
        ≡ ends session (some id) id (find_trigger id triggers)
  unfolding note_ended
  find-ended_same session id triggers = ground (arith, find-remove id id triggers)

  find-ended :
      (session : ℕ) (named : Option ℕ) (triggers : List (ℕ × Trigger V)) (id : ℕ)
      → find_trigger id (note_ended session named triggers)
        ≡ ends session named id (find_trigger id triggers)
  unfolding note_ended
  find-ended session none triggers id = refl
  find-ended session (some i) triggers id = elim (Bool-cases (i == id)) [
    | inl this ↦
        subst
          (λ j.
            find_trigger j (note_ended session (some i) triggers)
            ≡ ends session (some i) j (find_trigger j triggers))
          ((==_iff i id).0 this) (find-ended_same session i triggers)
    | inr other ↦ ground (arith, find-remove i id triggers)
  ]

  module _ (s t : ℕ) (different : (s == t) ≡ false) where
    registers-registers :
        (a b : Option (Trigger V)) (id : ℕ) (before : Option (Trigger V))
        → ((x y : Trigger V) → a ≡ some x → b ≡ some y → (x.id == y.id) ≡ false)
        → registers t b id (registers s a id before) ≡ registers s a id (registers t b id before)
    registers-registers none b id before apart = refl
    registers-registers (some x) none id before apart = refl
    registers-registers (some x) (some y) id before apart = ground (arith, apart x y refl refl)

    ends-registers :
        (a : Option ℕ) (b : Option (Trigger V)) (id : ℕ) (before : Option (Trigger V))
        → registers t b id (ends s a id before) ≡ ends s a id (registers t b id before)
    ends-registers a none id before = refl
    ends-registers a (some y) id before = ground arith

    ends-ends :
        (a b : Option ℕ) (id : ℕ) (before : Option (Trigger V))
        → ends t b id (ends s a id before) ≡ ends s a id (ends t b id before)
    ends-ends a b id none = ground arith
    ends-ends a b id (some x) = ground arith

module _ {V : Type 0} ⦃u : UlidText⦄ ⦃x : External V⦄ (r : ReadsTrigger V) where
  open r use {read_trigger}

  at_entry : LogEntry V → ℕ → Option (Trigger V) → Option (Trigger V)
  at_entry e id before =
      if str_eq e.event_type "edge.action_registered"
      then registers e.session_id (read_trigger e.body) id before
      else if one_of ending_types e.event_type
      then ends e.session_id (parsed (str_field e.body "trigger_id")) id before
      else before

  find-applied :
      (triggers : List (ℕ × Trigger V)) (e : LogEntry V) (id : ℕ)
      → find_trigger id (apply_trigger_entry r triggers e)
        ≡ at_entry e id (find_trigger id triggers)
  unfolding apply_trigger_entry at_entry
  find-applied triggers e id = ground (
    arith,
    find-registered e.session_id (read_trigger e.body) triggers id,
    find-ended e.session_id (parsed (str_field e.body "trigger_id")) triggers id,
  )

  entries_commute :
      (e f : LogEntry V) (id : ℕ) (before : Option (Trigger V))
      → (e.session_id == f.session_id) ≡ false
      → (f.session_id == e.session_id) ≡ false
      → ((x y : Trigger V)
          → read_trigger e.body ≡ some x
          → read_trigger f.body ≡ some y
          → (x.id == y.id) ≡ false)
      → at_entry f id (at_entry e id before) ≡ at_entry e id (at_entry f id before)
  unfolding at_entry
  entries_commute e f id before different other apart = ground (
    arith,
    registers-registers e.session_id f.session_id different (read_trigger e.body)
        (read_trigger f.body) id before apart,
    ends-registers e.session_id f.session_id different (parsed (str_field e.body "trigger_id"))
        (read_trigger f.body) id before,
    ends-registers f.session_id e.session_id other (parsed (str_field f.body "trigger_id"))
        (read_trigger e.body) id before,
    ends-ends e.session_id f.session_id different (parsed (str_field e.body "trigger_id"))
        (parsed (str_field f.body "trigger_id")) id before,
  )

  -- The entries e and f of the logs of two sessions, which do not both define a trigger with one id,
  -- can be applied in either order: for every id the same trigger, or none, is pending after both.
  pub apply_trigger_entry-commutes :
      (triggers : List (ℕ × Trigger V)) (e f : LogEntry V)
      → e.session_id ≢ f.session_id
      → ((x y : Trigger V)
          → read_trigger e.body ≡ some x
          → read_trigger f.body ≡ some y
          → x.id ≢ y.id)
      → (id : ℕ)
      → find_trigger id (apply_trigger_entry r (apply_trigger_entry r triggers e) f)
        ≡ find_trigger id (apply_trigger_entry r (apply_trigger_entry r triggers f) e)
  apply_trigger_entry-commutes triggers e f different apart id =
      find-applied (apply_trigger_entry r triggers e) f id
      ∙ ap (at_entry f id) (find-applied triggers e id)
      ∙ entries_commute e f id (find_trigger id triggers) (unequal _ _ different)
          (unequal _ _ (λ same. different (sym same)))
          (λ a b at_a at_b. unequal _ _ (apart a b at_a at_b))
      ∙ ap (at_entry e id) (sym (find-applied triggers f id))
      ∙ sym (find-applied (apply_trigger_entry r triggers f) e id)
