-- ===== src/Sessions/Moved.antt =====
-- A change of state follows the diagram of states, and the index has the new state after it.
use dotfile.Prelude.{
  ℕ, String, Option, none, some, ok, err, ok_or, ok_or-some, ◌≡◌, ◌≢◌, ◌∙◌, ap, sym, subst, refl,
  inl, inr, on_branches, true, Result, str_eq, str_eq_iff, arith, ◌⊎◌,
}
use dotfile.Entry.{LogEntry}
use dotfile.External.{UlidText, External}
use dotfile.Session.{
  SessionState, created, running, blocked, finished, failed, reopened, TransitionError, transition,
  event_type, display,
}
use dotfile.Session.Lifecycle.{Arrow, transition-iff-Arrow}
use dotfile.Registry.Schema.{SessionRow, AppliedRow, Tables}
use dotfile.Registry.Resolve.{get_record}
use dotfile.Registry.Steps.{apply_entry_cases}
use dotfile.Registry.States.{apply_new-InState}
use dotfile.Registry.Project.Sessions.Moves.{InState}
use dotfile.Calls.{
  bad_state, bad_transition, from_registry, from_registry-ok, append_entry, WriterLaws, continue-ok,
  continue-lift-ok, lift-ok, append_entry-applied,
}
use dotfile.Sessions.{Host, state_named, from_transition}
use dotfile.Sessions.Service.{change_state}

abbrev Names : String → SessionState → Option SessionState → Type 0
Names name s found = found ≡ some s → name ≡ display s

same-display : (r s : SessionState) → some r ≡ some s → display r ≡ display s
same-display r s h = cc

state_named_lem : (name : String) (s : SessionState) → state_named name ≡ some s → name ≡ display s
unfolding state_named display
state_named_lem name s =
    on_branches (Names name s) (str_eq name "created") (λ e q. read e ∙ same-display created s q)
      (λ _.
        on_branches (Names name s) (str_eq name "running")
          (λ e q. read e ∙ same-display running s q)
          (λ _.
            on_branches (Names name s) (str_eq name "blocked")
              (λ e q. read e ∙ same-display blocked s q)
              (λ _.
                on_branches (Names name s) (str_eq name "finished")
                  (λ e q. read e ∙ same-display finished s q)
                  (λ _.
                    on_branches (Names name s) (str_eq name "failed")
                      (λ e q. read e ∙ same-display failed s q)
                      (λ _.
                        on_branches (Names name s) (str_eq name "reopened")
                          (λ e q. read e ∙ same-display reopened s q) (λ _ q. cc))))))
  where
    read : {text : String} → str_eq name text ≡ true → name ≡ text
    read {text} e = (str_eq_iff name text).0 e

state_named-display : (s : SessionState) → state_named (display s) ≡ some s
unfolding state_named display
state_named-display created = refl
state_named-display running = refl
state_named-display blocked = refl
state_named-display finished = refl
state_named-display failed = refl
state_named-display reopened = refl

transition-target : (from to s : SessionState) → transition from to ≡ ok s → s ≡ to
unfolding transition
transition-target from to s h = grind arith

from_transition-ok :
    (r : Result TransitionError SessionState) (s : SessionState)
    → from_transition r ≡ ok s
    → r ≡ ok s
from_transition-ok (err reason) s h = cc
from_transition-ok (ok state) s h = cc

transition-ok :
    (from to s : SessionState) → from_transition (transition from to) ≡ ok s → Arrow from to
transition-ok from to s h =
    let accepted = from_transition-ok (transition from to) s h in
    (transition-iff-Arrow from to).0 (accepted ∙ ap ok (transition-target from to s accepted))

-- nothing leads to the first state
transition-created : (from : SessionState) → transition from created ≡ ok created → ⊥
unfolding transition
transition-created from h = grind arith

Arrow-created : (from to : SessionState) → Arrow from to → to ≢ created
Arrow-created from to arrow h =
    transition-created from ((transition-iff-Arrow from created).1 (subst (Arrow from) h arrow))

refused_transition :
    (from to : SessionState)
    → (transition from to ≡ ok to) ⊎ (transition from to ≡ err (record { from = from; to = to }))
unfolding transition
refused_transition from to = grind arith

module _ {V : Type 0} ⦃u : UlidText⦄ ⦃x : External V⦄ (h : Host V)
    (laws : WriterLaws h.journal) where
  appended-InState :
      (t t' : Tables V) (e : LogEntry V) (session : ℕ) (to : SessionState) (body : V)
      → to ≢ created
      → append_entry h.journal session (event_type to) body t ≡ (ok e, t')
      → InState session (display to) t'
  appended-InState t t' e session to body new done =
      let (tagged, _, made, applied) =
        append_entry-applied h.journal t t' e session (event_type to) body done in
      let (own, kind, _, fresh) = laws.keeps t session (event_type to) tagged e made in
      elim (apply_entry_cases t t' e applied) [
        | inl (_, (row, old)) ↦ absurd (none-some (sym fresh ∙ old))
        | inr (_, accepted) ↦
            subst (λ id. InState id (display to) t') own
              (apply_new-InState t t' e to new kind accepted)
      ]
    where
      none-some : {row : AppliedRow V} → none ≡ some row → ⊥
      none-some q = cc

  -- With a log that writes new entries as they are given, a change of state that succeeds follows an
  -- arrow of the diagram from the state of the session that the input names, and the session is
  -- then in the state that was asked for.
  pub change_state-Arrow :
      (t t' : Tables V) (input : String) (to : SessionState) (caller : Option ℕ)
      (row : SessionRow V)
      → change_state h input to caller t ≡ (ok row, t')
      → (session : SessionRow V) × (from : SessionState) × (get_record t input ≡ ok session)
        × (session.state ≡ display from)
        × Arrow from to
        × InState session.id (display to) t'
        × (get_record t' input ≡ ok row)
  unfolding change_state
  change_state-Arrow t t' input to caller row done =
      let (session, found, h₁) = continue-lift-ok (from_registry (get_record t input)) t _ done in
      let (from, named, h₂) =
        continue-lift-ok (ok_or (state_named session.state) bad_state) t _ h₁ in
      let (s, accepted, h₃) = continue-lift-ok (from_transition (transition from to)) t _ h₂ in
      let (e, t₁, appended, h₄) =
        continue-ok (append_entry h.journal session.id (event_type to) (h.moved_body caller) t) _
          h₃ in
      let arrow = transition-ok from to s accepted in
      let (after, same) = lift-ok (from_registry (get_record t₁ input)) t₁ h₄ in
      (
        session,
        from,
        from_registry-ok (get_record t input) found,
        state_named_lem session.state from (ok_or-some (state_named session.state) bad_state named),
        arrow,
        subst (InState session.id (display to)) same (
            appended-InState t t₁ e session.id to (h.moved_body caller)
              (Arrow-created from to arrow) appended),
        ap (λ z. get_record z input) (sym same) ∙ from_registry-ok (get_record t₁ input) after,
      )

module _ {V : Type 0} ⦃u : UlidText⦄ ⦃x : External V⦄ (h : Host V) where
  -- A change that no arrow of the diagram allows is refused with the two states, and no table changes.
  pub change_state-refused :
      (t : Tables V) (input : String) (from to : SessionState) (caller : Option ℕ)
      (session : SessionRow V)
      → get_record t input ≡ ok session
      → session.state ≡ display from
      → ¬ Arrow from to
      → change_state h input to caller t
        ≡ (err (bad_transition (record { from = from; to = to })), t)
  unfolding change_state
  change_state-refused t input from to caller session found named no_arrow =
      let read = ap state_named named ∙ state_named-display from in
      elim (refused_transition from to) [
        | inl allowed ↦ absurd (no_arrow ((transition-iff-Arrow from to).0 allowed))
        | inr refused ↦ rw (found, read, refused) refl
      ]
