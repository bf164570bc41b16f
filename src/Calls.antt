-- ===== src/Calls.antt =====
-- A call of the service over the tables (`record_call`, `append_entry`, `get_record` and `next_alias` of
-- ws-daemon/src/sessions.rs): what a failed call has written stays written.
use dotfile.Prelude.{
  some, subst, ℕ, String, Option, Result, ok, err, none, ◌≡◌, refl, ap, sym, ◌∙◌, ok_or, >>=-ok,
  ok_unique,
}
use dotfile.External.{UlidText, External}
use dotfile.Entry.{LogEntry}
use dotfile.Registry.Schema.{SessionRow, Tables, Error}
use dotfile.Registry.Apply.{find_applied, apply_entry}
use dotfile.Registry.Store.{next_alias}
use dotfile.Registry.Resolve.{get_record}
use dotfile.Session.{TransitionError}
use dotfile.Limits.{LimitError}
use dotfile.Limits.Check.{tag_field, tag_body, tag_loop_spawn}
use dotfile.Edges.Add.{Journal, append_untagged, record_call}

-- The errors of sessions.rs that the calls make, a constructor for each text of an invalid request.
-- `unended` is a search that does not end, which the theorems on searches exclude.
pub data ServiceError : Type 0 where
  empty_message not_in_inbox message_waits : ServiceError
  empty_name empty_workspace bad_name below_itself : ServiceError
  bad_content bad_state input_error unended : ServiceError
  name_taken : String → ServiceError
  bad_transition : TransitionError → ServiceError
  limit_error : LimitError → ServiceError
  registry_error : Error → ServiceError

abbrev pub Outcome : Type 0 → Type 0 → Type 0
Outcome V A = Result ServiceError A × Tables V

abbrev pub Call : Type 0 → Type 0 → Type 0
Call V A = Tables V → Outcome V A

-- a search that ended, of limits.rs
abbrev pub ended : {A : Type 0} → Option (Result LimitError A) → Result ServiceError A
ended none = err unended
ended (some (err reason)) = err (limit_error reason)
ended (some (ok a)) = ok a

abbrev pub from_registry : {A : Type 0} → Result Error A → Result ServiceError A
from_registry (err reason) = err (registry_error reason)
from_registry (ok a) = ok a

ended-ok :
    {A : Type 0} (r : Option (Result LimitError A)) {a : A} → ended r ≡ ok a → r ≡ some (ok a)
ended-ok none h = cc
ended-ok (some (err reason)) h = cc
ended-ok (some (ok a)) h = cc

tagged_unique :
    {A : Type 0} {a b : A}
    → ◌≡◌ {A = Option (Result LimitError A)} (some (ok a)) (some (ok b))
    → a ≡ b
tagged_unique h = cc

pub from_registry-ok : {A : Type 0} (r : Result Error A) {a : A} → from_registry r ≡ ok a → r ≡ ok a
from_registry-ok (err reason) h = cc
from_registry-ok (ok a) h = cc

module _ {V A : Type 0} where
  abbrev pub lift : Result ServiceError A → Call V A
  lift r t = (r, t)

  abbrev pub gets : (Tables V → A) → Call V A
  gets f t = (ok (f t), t)

  -- a step of the registry: its tables, or the old ones where it fails
  abbrev pub settled : Tables V → Result Error (A × Tables V) → Outcome V A
  settled t (err reason) = (err (registry_error reason), t)
  settled t (ok (a, t')) = (ok a, t')

module _ {V A B : Type 0} where
  abbrev pub continue : Outcome V A → (A → Call V B) → Outcome V B
  continue (err reason, t) k = (err reason, t)
  continue (ok a, t) k = k a t

  -- where a call succeeded, its first step did, and so did the rest
  pub continue-ok :
      (o : Outcome V A) (k : A → Call V B) {b : B} {t' : Tables V}
      → continue o k ≡ (ok b, t')
      → (a : A) × (t₁ : Tables V) × (o ≡ (ok a, t₁)) × (k a t₁ ≡ (ok b, t'))
  continue-ok (err reason, t) k h = cc
  continue-ok (ok a, t₁) k h = (a, t₁, refl, h)

module _ {V A B : Type 0} where
  -- a step that leaves the tables as they are
  pub continue-lift-ok :
      (r : Result ServiceError A) (t : Tables V) (k : A → Call V B) {b : B} {t' : Tables V}
      → continue (lift r t) k ≡ (ok b, t')
      → (a : A) × (r ≡ ok a) × (k a t ≡ (ok b, t'))
  continue-lift-ok (err reason) t k h = cc
  continue-lift-ok (ok a) t k h = (a, refl, h)

module _ {V A : Type 0} where
  pub lift-ok :
      (r : Result ServiceError A) (t : Tables V) {a : A} {t' : Tables V}
      → lift r t ≡ (ok a, t')
      → (r ≡ ok a) × (t ≡ t')
  lift-ok r t h = (ap (λ o. o.0) h, ap (λ o. o.1) h)

  pub settled-ok :
      (t : Tables V) (r : Result Error (A × Tables V)) {a : A} {t' : Tables V}
      → settled t r ≡ (ok a, t')
      → r ≡ ok (a, t')
  settled-ok t (err reason) h = cc
  settled-ok t (ok (a, t₁)) h = cc

infixl 5 ◌>>=◌ ◌>>◌
abbrev pub ◌>>=◌ : {V A B : Type 0} → Call V A → (A → Call V B) → Call V B
(step >>= k) t = continue (step t) k

abbrev pub ◌>>◌ : {V A B : Type 0} → Call V A → Call V B → Call V B
step >> next = step >>= λ _. next

module _ {V : Type 0} ⦃u : UlidText⦄ ⦃x : External V⦄ (j : Journal V) where
  abbrev pub recorded : Tables V → Result Error (Tables V) → Outcome V (Unit {0})
  recorded t (err reason) = (err (registry_error reason), t)
  recorded t (ok t') = (ok tt, t')

  -- `self.record_call`
  abbrev pub call : Option ℕ → String → Option String → Call V (Unit {0})
  call caller operation target t = recorded t (record_call j t caller operation target)

  pub recorded-ok :
      (t : Tables V) (r : Result Error (Tables V)) {t' : Tables V}
      → recorded t r ≡ (ok tt, t')
      → r ≡ ok t'
  recorded-ok t (err reason) h = cc
  recorded-ok t (ok t₁) h = cc

  -- the entry, once its body has the loop that it counts for
  abbrev pub append_tagged : ℕ → String → V → Call V (LogEntry V)
  append_tagged session kind body t = settled t (append_untagged j t session kind body)

  -- `self.append_entry`
  abbrev pub append_entry : ℕ → String → V → Call V (LogEntry V)
  append_entry session kind body =
      gets (λ t. tag_loop_spawn j.with_scope t j.limits session kind body) >>= λ found.
      lift (ended found) >>= λ tagged. append_tagged session kind tagged

-- `self.get_record`
abbrev pub record_of : {V : Type 0} ⦃u : UlidText⦄ ⦃x : External V⦄ → String → Call V (SessionRow V)
record_of name t = (from_registry (get_record t name), t)

-- `Sessions::next_alias` of import/backend.rs: the registry's alias, and what the counter file makes of it
unfoldable pub allocate_alias : {V : Type 0} → ℕ → (ℕ → Option ℕ) → Call V ℕ
unfolding next_alias
allocate_alias floor reserve_counter =
    gets (λ t. next_alias (record { connection = t; alias_floor = floor })) >>= λ alias.
    lift (from_registry alias) >>= λ alias'. lift (ok_or (reserve_counter alias') input_error)

-- what the log's writer promises: an entry with a new id that is as it was given
pub record WriterLaws {V : Type 0} (j : Journal V) : Type 0 where
  pub keeps :
      (t : Tables V) (session : ℕ) (kind : String) (body : V) (e : LogEntry V)
      → j.written t session kind body ≡ ok e
      → (e.session_id ≡ session)
        × (e.event_type ≡ kind)
        × (e.body ≡ body)
        × (find_applied e.event_id t.applied ≡ none)

-- an entry that was appended is one that the index accepts
pub append_untagged-applied :
    {V : Type 0} ⦃u : UlidText⦄ ⦃x : External V⦄ (j : Journal V) (t t' : Tables V) (e : LogEntry V)
    (session : ℕ) (kind : String) (body : V)
    → append_untagged j t session kind body ≡ ok (e, t')
    → (j.written t session kind body ≡ ok e) × (apply_entry t e ≡ ok t')
unfolding append_untagged
append_untagged-applied j t t' e session kind body h =
    let (e₁, made, h₁) = >>=-ok (j.written t session kind body) _ h in
    let (t₁, applied, last) = >>=-ok (apply_entry t e₁) _ h₁ in
    let same = ok_unique _ refl last in
    (
      made ∙ ap (λ p. ok p.0) same,
      ap (λ p. apply_entry t p.0) (sym same) ∙ applied ∙ ap (λ p. ok p.1) same,
    )

-- an entry that a call appends is written with its tagged body, and the index accepts it
pub append_entry-applied :
    {V : Type 0} ⦃u : UlidText⦄ ⦃x : External V⦄ (j : Journal V) (t t' : Tables V) (e : LogEntry V)
    (session : ℕ) (kind : String) (body : V)
    → append_entry j session kind body t ≡ (ok e, t')
    → (tagged : V) × (tag_loop_spawn j.with_scope t j.limits session kind body ≡ some (ok tagged))
      × (j.written t session kind tagged ≡ ok e)
      × (apply_entry t e ≡ ok t')
append_entry-applied j t t' e session kind body h =
    let (tagged, found, h₁) =
      continue-lift-ok (ended (tag_loop_spawn j.with_scope t j.limits session kind body)) t
        (append_tagged j session kind) h in
    let (made, applied) =
      append_untagged-applied j t t' e session kind tagged (settled-ok t _ h₁) in
    (tagged, ended-ok _ found, made, applied)

-- an entry of a type that no loop counts is written with the body that it is given
pub append_entry-untagged :
    {V : Type 0} ⦃u : UlidText⦄ ⦃x : External V⦄ (j : Journal V) (t t' : Tables V) (e : LogEntry V)
    (session : ℕ) (kind : String) (body : V)
    → tag_field kind ≡ none
    → append_entry j session kind body t ≡ (ok e, t')
    → (j.written t session kind body ≡ ok e) × (apply_entry t e ≡ ok t')
unfolding tag_loop_spawn tag_body
append_entry-untagged j t t' e session kind body plain h =
    let (tagged, found, made, applied) = append_entry-applied j t t' e session kind body h in
    let same : some (ok body) ≡ some (ok tagged) =
      sym (ap (tag_body j.with_scope t j.limits session body) plain) ∙ found in
    let body_kept : tagged ≡ body = tagged_unique (sym same) in
    (subst (λ b. j.written t session kind b ≡ ok e) body_kept made, applied)
