-- ===== src/Edges/Add.antt =====
-- `add_dependency` of edges.rs over the tables of the registry, with `record_call` and the part of
-- `append_entry` of ws-daemon/src/sessions.rs that it uses: the written entry is applied to the index.
pub mod Applied
pub mod Refused
pub mod Cycles
use dotfile.Prelude.{
  ℕ, zero, suc, ◌+◌, String, Bool, true, false, Option, none, some, List, [], ◌∷◌, Result, ok, err,
  ◌>>=◌, ◌>>◌, leb, str_eq, if◌then◌else◌, Chars,
}
use dotfile.Entry.{LogEntry}
use dotfile.External.{UlidText, External}
use dotfile.Registry.Schema.{Edge, SessionRow, Tables, Error}
use dotfile.Registry.Apply.{apply_entry}
use dotfile.Registry.Resolve.{get_record}
use dotfile.Edges.{path}
use dotfile.Limits.{Limits}

pub data AddError : Type 0 where
  unknown_kind : AddError
  dependency_cycle : List ℕ → AddError
  registry_error : Error → AddError

-- `?` on an error of the registry
abbrev pub from_registry {ℓ} : {A : Type ℓ} → Result Error A → Result AddError A
from_registry (err reason) = err (registry_error reason)
from_registry (ok value) = ok value

-- What writes an entry to a session's log, by its event type and body (the append of the session
-- log, whose ids, clock and file are not in the tables), the JSON bodies of the two entries, the
-- configured limits, and a body with `loop_spawn_scope` set.
pub record Journal (V : Type 0) : Type 0 where
  pub written : Tables V → ℕ → String → V → Result Error (LogEntry V)
  pub call_body : ℕ → String → Option String → V
  pub dependency_body : ℕ → Option ℕ → V
  pub limits : Limits
  pub with_scope : V → Chars → V

module _ {V : Type 0} where
  abbrev pub insert_by_id : Edge V → List (Edge V) → List (Edge V)
  insert_by_id e [] = e ∷ []
  insert_by_id e (f ∷ fs) =
      let rest = insert_by_id e fs in if leb e.id f.id then e ∷ f ∷ fs else f ∷ rest

  -- `SELECT … FROM edges ORDER BY id`
  unfoldable pub edges_by_id : List (Edge V) → List (Edge V)
  edges_by_id [] = []
  edges_by_id (e ∷ es) = insert_by_id e (edges_by_id es)

-- `format!("session.{kind}")`, for the kinds that pass the test
unfoldable pub dependency_type : String → Option String
dependency_type kind =
    if str_eq kind "depends_on"
    then some "session.depends_on"
    else if str_eq kind "block_on"
    then some "session.block_on"
    else none

-- a path from the target to the source, with the source put before it, is the cycle. No result
-- stands for a search that does not end.
unfoldable pub refuse_cycle : ℕ → Option (Option (List ℕ)) → Option (Result AddError (Unit {0}))
refuse_cycle source none = none
refuse_cycle source (some none) = some (ok tt)
refuse_cycle source (some (some p)) = some (err (dependency_cycle (source ∷ p)))

abbrev pub and_then {ℓ κ} :
    {A : Type ℓ} {B : Type κ}
    → Option (Result AddError A)
    → (A → Option (Result AddError B))
    → Option (Result AddError B)
and_then none k = none
and_then (some (err reason)) k = some (err reason)
and_then (some (ok value)) k = k value

module _ {V : Type 0} ⦃u : UlidText⦄ ⦃x : External V⦄ (j : Journal V) where
  open u use {show_ulid}

  -- `append_entry` after tag_loop_spawn, which leaves the entries of this module as they are: the
  -- entry, and the index after it
  unfoldable pub append_untagged : Tables V → ℕ → String → V → Result Error (LogEntry V × Tables V)
  unfolding apply_entry
  append_untagged t session kind body = do
    e ← j.written t session kind body
    t' ← apply_entry t e
    ok (e, t')

  -- an attributed call leaves an entry in the caller's log, whatever becomes of the call
  unfoldable pub record_call :
      Tables V → Option ℕ → String → Option String → Result Error (Tables V)
  unfolding get_record append_untagged
  record_call t none operation target = ok t
  record_call t (some caller) operation target = do
    row ← get_record t (show_ulid caller)
    (_, t') ← append_untagged t row.id "api.called" (j.call_body caller operation target)
    ok t'

  -- the two records, and the check
  unfoldable pub checked_ids : Tables V → String → String → Option (Result AddError (ℕ × ℕ))
  unfolding get_record path edges_by_id refuse_cycle
  checked_ids t source target = and_then (some (from_registry (get_record t source))) (λ from.
      and_then (some (from_registry (get_record t target))) (λ to.
        and_then (refuse_cycle from.id (path (edges_by_id t.edges) to.id from.id))
          (λ _. some (ok (from.id, to.id)))))

  unfoldable pub append_dependency :
      Tables V → String → String → Option ℕ → ℕ × ℕ → Result AddError (Edge V × Tables V)
  unfolding append_untagged
  append_dependency t kind event_type caller (source, target) = do
    let body = j.dependency_body target caller
    (e, t') ← from_registry (append_untagged t source event_type body)
    ok (record { id = e.event_id; source = source; target = target; kind = kind; body = body }, t')

  unfoldable pub add_of_type :
      Tables V
      → String
      → String
      → String
      → Option ℕ
      → Option String
      → Option (Result AddError (Edge V × Tables V))
  unfolding checked_ids append_dependency
  add_of_type t source target kind caller none = some (err unknown_kind)
  add_of_type t source target kind caller (some event_type) =
      and_then (checked_ids t source target)
        (λ ids. some (append_dependency t kind event_type caller ids))

  -- an error leaves the tables as they were
  abbrev pub settled :
      Tables V → Result AddError (Edge V × Tables V) → Result AddError (Edge V) × Tables V
  settled t (err reason) = (err reason, t)
  settled t (ok (edge, t')) = (ok edge, t')

  abbrev pub settle :
      Tables V
      → Option (Result AddError (Edge V × Tables V))
      → Option (Result AddError (Edge V) × Tables V)
  settle t none = none
  settle t (some result) = some (settled t result)

  -- what follows the entry of the call itself
  unfoldable pub after_call :
      Tables V
      → String
      → String
      → String
      → Option ℕ
      → Result Error (Tables V)
      → Option (Result AddError (Edge V) × Tables V)
  unfolding add_of_type dependency_type
  after_call t source target kind caller (err reason) = some (err (registry_error reason), t)
  after_call t source target kind caller (ok t') =
      settle t' (add_of_type t' source target kind caller (dependency_type kind))

  -- the answer, and the index after it
  unfoldable pub add_dependency :
      Tables V → String → String → String → Option ℕ → Option (Result AddError (Edge V) × Tables V)
  unfolding record_call after_call
  add_dependency t source target kind caller =
      after_call t source target kind caller (record_call t caller "session.edge" (some source))
