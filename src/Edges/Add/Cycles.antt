-- ===== src/Edges/Add/Cycles.antt =====
-- A dependency is added without a cycle.
use dotfile.Prelude.{
  ℕ, String, Option, none, some, Result, ok, err, ◌≡◌, ◌∙◌, ap, sym, subst, refl, inl, inr, >>=-ok,
  ok_unique, Result-cases, arith,
}
use dotfile.Entry.{LogEntry}
use dotfile.External.{UlidText, External}
use dotfile.Registry.Schema.{Edge, Tables, Error}
use dotfile.Registry.Fields.{required_id}
use dotfile.Registry.Apply.{apply_entry}
use dotfile.Registry.Resolve.{get_record}
use dotfile.Edges.Walk.{Walk}
use dotfile.Edges.Acyclic.{Acyclic, Acyclic-cons}
use dotfile.Edges.Add.{
  AddError, unknown_kind, registry_error, Journal, dependency_type, append_untagged, record_call,
  from_registry, and_then, checked_ids, append_dependency, add_of_type, settle, settled, after_call,
  add_dependency,
}
use dotfile.Edges.Add.Refused.{err-ok, refuse_cycle-path, checked_refusal}
use dotfile.Edges.Add.Applied.{IsDependency, Added, apply_entry-called, apply_entry-Added}

-- what the writer of a log promises: the entry has the session, the type and the body that it was
-- given, and the body of a dependency names its target
pub record JournalLaws {V : Type 0} ⦃u : UlidText⦄ ⦃x : External V⦄ (j : Journal V) : Type 0 where
  pub keeps :
      (t : Tables V) (session : ℕ) (kind : String) (body : V) (e : LogEntry V)
      → j.written t session kind body ≡ ok e
      → (e.session_id ≡ session) × (e.event_type ≡ kind) × (e.body ≡ body)
  pub names_target :
      (e : LogEntry V) (target : ℕ) (caller : Option ℕ)
      → e.body ≡ j.dependency_body target caller
      → required_id e "target" ≡ ok target

module _ {V : Type 0} where
  Acyclic-Added :
      (t t' : Tables V) (source target : ℕ)
      → Added t t' source target
      → ¬ (Walk t.edges target source)
      → Acyclic t.edges
      → Acyclic t'.edges
  Acyclic-Added t t' source target (inl same) apart acyclic = subst Acyclic (sym same) acyclic
  Acyclic-Added t t' source target (inr (new, from, to, grown)) apart acyclic =
      subst Acyclic (sym grown) (
        Acyclic-cons t.edges new
          (λ w.
            apart (
              subst (λ v. Walk t.edges v source) to
                (subst (λ v. Walk t.edges new.target v) from w)))
          acyclic)

from_registry-ok {ℓ} : {A : Type ℓ} (r : Result Error A) {a : A} → from_registry r ≡ ok a → r ≡ ok a
from_registry-ok (err reason) h = cc
from_registry-ok (ok value) h = cc

-- the call ends, with a graph that is still acyclic
abbrev Settles : {V : Type 0} → Option (Result AddError (Edge V) × Tables V) → Type 0
Settles {V} call =
    (answer : Result AddError (Edge V)) × (t : Tables V) × (call ≡ some (answer, t))
    × Acyclic t.edges

dependency_type-IsDependency :
    (kind event_type : String) → dependency_type kind ≡ some event_type → IsDependency event_type
unfolding dependency_type
dependency_type-IsDependency kind event_type h = ground arith

module _ {V : Type 0} ⦃u : UlidText⦄ ⦃x : External V⦄ (j : Journal V) (laws : JournalLaws j) where
  append_untagged_lem :
      (t t' : Tables V) (session : ℕ) (kind : String) (body : V) (e : LogEntry V)
      → append_untagged j t session kind body ≡ ok (e, t')
      → (j.written t session kind body ≡ ok e) × (apply_entry t e ≡ ok t')
  unfolding append_untagged
  append_untagged_lem t t' session kind body e h =
      let (e', wrote, h₁) = >>=-ok (j.written t session kind body) _ h in
      let (t₁, applied, h₂) = >>=-ok (apply_entry t e') _ h₁ in
      let same : (e', t₁) ≡ (e, t') = ok_unique _ refl h₂ in
      (
        wrote ∙ ap ok (ap (λ p. p.0) same),
        ap (apply_entry t) (sym (ap (λ p. p.0) same)) ∙ applied ∙ ap ok (ap (λ p. p.1) same),
      )

  record_call-edges :
      (t t' : Tables V) (caller : Option ℕ) (operation : String) (target : Option String)
      → record_call j t caller operation target ≡ ok t'
      → t'.edges ≡ t.edges
  unfolding record_call
  record_call-edges t t' none operation target h =
      ap (λ (s : Tables V). s.edges) (sym (ok_unique _ refl h))
  record_call-edges t t' (some caller) operation target h =
      let (row, _, h₁) = >>=-ok (get_record t (u.show_ulid caller)) _ h in
      let ((e, t₁), appended, h₂) =
        >>=-ok (append_untagged j t row.id "api.called" (j.call_body caller operation target)) _
          h₁ in
      let (wrote, applied) = append_untagged_lem t t₁ row.id _ _ e appended in
      ap (λ (s : Tables V). s.edges) (sym (ok_unique _ refl h₂))
      ∙ apply_entry-called t t₁ e (laws.keeps t row.id _ _ e wrote).1 applied

  checked_ids-answer :
      (t : Tables V) (source target : String)
      → (c : Result AddError (ℕ × ℕ)) × (checked_ids j t source target ≡ some c)
        × ((from to : ℕ) → c ≡ ok (from, to) → ¬ (Walk t.edges to from))
  unfolding checked_ids
  checked_ids-answer t source target = elim (Result-cases (get_record t source)) [
    | inr (reason, failed) ↦ (err (registry_error reason), rw failed refl, λ from to q w. err-ok q)
    | inl (from, found) ↦ elim (Result-cases (get_record t target)) [
      | inr (reason, failed) ↦
          (err (registry_error reason), rw (found, failed) refl, λ from to q w. err-ok q)
      | inl (to, found') ↦
          let (r, refused, apart) = refuse_cycle-path t.edges from.id to.id in
          let (c, checked, far) = checked_refusal t.edges r from.id to.id apart in
          (
            c,
            rw (found, found')
                (ap (λ o. and_then o (λ _. some (ok (from.id, to.id)))) refused ∙ checked),
            far,
          )
    ]
  ]

  append_dependency-Acyclic :
      (t t' : Tables V) (kind event_type : String) (caller : Option ℕ) (source target : ℕ)
      (edge : Edge V)
      → IsDependency event_type
      → ¬ (Walk t.edges target source)
      → Acyclic t.edges
      → append_dependency j t kind event_type caller (source, target) ≡ ok (edge, t')
      → Acyclic t'.edges
  unfolding append_dependency
  append_dependency-Acyclic t t' kind event_type caller source target edge named apart acyclic h =
      let ((e, t₁), appended, h₁) =
        >>=-ok
          (from_registry (append_untagged j t source event_type (j.dependency_body target caller)))
          _ h in
      let (wrote, applied) = append_untagged_lem t t₁ source _ _ e (from_registry-ok _ appended) in
      let (own, type, body) = laws.keeps t source _ _ e wrote in
      let added : Added t t₁ source target =
        subst (λ s. Added t t₁ s target) own
          (apply_entry-Added t t₁ e target (subst IsDependency (sym type) named)
            (laws.names_target e target caller body) applied) in
      subst (λ (s : Tables V). Acyclic s.edges) (ap (λ p. p.1) (ok_unique _ refl h₁))
        (Acyclic-Added t t₁ source target added apart acyclic)

  settled-Settles :
      (t : Tables V) (r : Result AddError (Edge V × Tables V))
      → Acyclic t.edges
      → ((edge : Edge V) (t' : Tables V) → r ≡ ok (edge, t') → Acyclic t'.edges)
      → Settles (some (settled j t r))
  settled-Settles t (err reason) acyclic keeps = (err reason, t, refl, acyclic)
  settled-Settles t (ok (edge, t')) acyclic keeps = (ok edge, t', refl, keeps edge t' refl)

  add_of_type-Settles :
      (t : Tables V) (source target kind : String) (caller : Option ℕ) (event_type : Option String)
      → ((name : String) → event_type ≡ some name → IsDependency name)
      → Acyclic t.edges
      → Settles (settle j t (add_of_type j t source target kind caller event_type))
  unfolding add_of_type
  add_of_type-Settles t source target kind caller none named acyclic =
      settled-Settles t (err unknown_kind) acyclic (λ edge t' q. absurd (err-ok q))
  add_of_type-Settles t source target kind caller (some name) named acyclic =
      let (c, checked, far) = checked_ids-answer t source target in
      subst
        (λ o.
          Settles
            (settle j t (and_then o (λ ids. some (append_dependency j t kind name caller ids)))))
        (sym checked) (go c far)
    where
      go :
          (c : Result AddError (ℕ × ℕ))
          → ((from to : ℕ) → c ≡ ok (from, to) → ¬ (Walk t.edges to from))
          → Settles (
              settle j t
                (and_then (some c) (λ ids. some (append_dependency j t kind name caller ids))))
      go (err reason) far = settled-Settles t (err reason) acyclic (λ edge t' q. absurd (err-ok q))
      go (ok (from, to)) far =
          settled-Settles t (append_dependency j t kind name caller (from, to)) acyclic
            (λ edge t' q.
              append_dependency-Acyclic t t' kind name caller from to edge (named name refl)
                (far from to refl) acyclic q)

  after_call-Settles :
      (t : Tables V) (source target kind : String) (caller : Option ℕ) (r : Result Error (Tables V))
      → ((t' : Tables V) → r ≡ ok t' → t'.edges ≡ t.edges)
      → Acyclic t.edges
      → Settles (after_call j t source target kind caller r)
  unfolding after_call
  after_call-Settles t source target kind caller (err reason) same acyclic = (_, t, refl, acyclic)
  after_call-Settles t source target kind caller (ok t') same acyclic =
      add_of_type-Settles t' source target kind caller (dependency_type kind)
        (λ name q. dependency_type-IsDependency kind name q)
        (subst Acyclic (sym (same t' refl)) acyclic)

  -- Where the log's writer keeps its promises and the edges of the index have no cycle, a call ends,
  -- with an edge or with an error, and the edges after it have none.
  pub add_dependency-Acyclic :
      (t : Tables V) (source target kind : String) (caller : Option ℕ)
      → Acyclic t.edges
      → (answer : Result AddError (Edge V)) × (t' : Tables V) × (add_dependency j t source target
            kind caller
          ≡ some (answer, t'))
        × Acyclic t'.edges
  unfolding add_dependency
  add_dependency-Acyclic t source target kind caller acyclic =
      after_call-Settles t source target kind caller _
        (λ t' h. record_call-edges t t' caller "session.edge" (some source) h) acyclic
