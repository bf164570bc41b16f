-- ===== src/Triggers/Pending.antt =====
-- The triggers that are pending: `apply_trigger_entry`, and the test of `evaluate_trigger` that every
-- source has recorded its event. The map from ids to triggers is an association list.
pub mod Orders
use dotfile.Prelude.{
  ℕ, String, Bool, true, false, not, ◌&&◌, ◌||◌, Option, none, some, List, [], ◌∷◌, Result, ok, err,
  ◌>>=◌, leb, str_eq, one_of, if◌then◌else◌, ◌==◌,
}
use dotfile.Entry.{LogEntry}
use dotfile.External.{UlidText, External}
use dotfile.Registry.Schema.{SessionRow, Error}
use dotfile.Registry.Fields.{str_field}
use dotfile.Registry.Store.{Registry}
use dotfile.Registry.Events.{latest_event, latest_process_exit}
use dotfile.Registry.Resolve.{get_record}

pub record Trigger (V : Type 0) : Type 0 where
  pub id : ℕ
  pub owner : ℕ
  pub sources : List ℕ
  pub event : String
  pub action : String
  pub target : Option ℕ
  pub template : String
  pub agent : Option String
  pub workspace : Option String
  pub cwd : Option String
  pub spawned_session : Option ℕ
  pub event_offsets : List (ℕ × ℕ)
  pub edges : List V

module _ {V : Type 0} where
  abbrev pub find_trigger : ℕ → List (ℕ × Trigger V) → Option (Trigger V)
  find_trigger id [] = none
  find_trigger id ((i, trigger) ∷ rest) = if i == id then some trigger else find_trigger id rest

  abbrev pub remove_trigger : ℕ → List (ℕ × Trigger V) → List (ℕ × Trigger V)
  remove_trigger id [] = []
  remove_trigger id ((i, trigger) ∷ rest) =
      let later = remove_trigger id rest in if i == id then later else (i, trigger) ∷ later

  abbrev pub insert_trigger : Trigger V → List (ℕ × Trigger V) → List (ℕ × Trigger V)
  insert_trigger trigger triggers = (trigger.id, trigger) ∷ remove_trigger trigger.id triggers

  -- a definition that was read, if the log owns it
  unfoldable pub note_registered :
      ℕ → Option (Trigger V) → List (ℕ × Trigger V) → List (ℕ × Trigger V)
  note_registered session none triggers = triggers
  note_registered session (some trigger) triggers =
      if trigger.owner == session then insert_trigger trigger triggers else triggers

  abbrev pub is_owned : ℕ → Option (Trigger V) → Bool
  is_owned session none = false
  is_owned session (some trigger) = trigger.owner == session

  -- the id that an entry names, if the log owns its trigger
  unfoldable pub note_ended : ℕ → Option ℕ → List (ℕ × Trigger V) → List (ℕ × Trigger V)
  note_ended session none triggers = triggers
  note_ended session (some id) triggers =
      if is_owned session (find_trigger id triggers) then remove_trigger id triggers else triggers

abbrev pub parsed : ⦃u : UlidText⦄ → Option String → Option ℕ
parsed none = none
parsed ⦃u⦄ (some text) = u.parse_ulid text

abbrev pub ending_types : List String
ending_types =
    "edge.action_removed" ∷ "edge.action_fired" ∷ "edge.action_failed" ∷ "message.sent" ∷ []

-- what serde_json reads a trigger from
pub record ReadsTrigger (V : Type 0) : Type 0 where
  pub read_trigger : V → Option (Trigger V)

module _ {V : Type 0} ⦃u : UlidText⦄ ⦃x : External V⦄ (r : ReadsTrigger V) where
  unfoldable pub apply_trigger_entry : List (ℕ × Trigger V) → LogEntry V → List (ℕ × Trigger V)
  unfolding note_registered note_ended
  apply_trigger_entry triggers e =
      if str_eq e.event_type "edge.action_registered"
      then note_registered e.session_id (r.read_trigger e.body) triggers
      else if one_of ending_types e.event_type
      then note_ended e.session_id (parsed (str_field e.body "trigger_id")) triggers
      else triggers

abbrev pub offset_of : ℕ → List (ℕ × ℕ) → ℕ
offset_of source [] = 0
offset_of source ((s, seq) ∷ rest) = if s == source then seq else offset_of source rest

abbrev pub is_target : Option ℕ → ℕ → Bool
is_target none source = false
is_target (some target) source = target == source

abbrev pub is_agent : Option String → Bool
is_agent none = false
is_agent (some agent) = true

module _ {V : Type 0} where
  -- the event is there, and an exit is after the offset
  unfoldable pub is_recorded : Trigger V → ℕ → Option (LogEntry V) → Bool
  is_recorded trigger source none = false
  is_recorded trigger source (some e) =
      not (str_eq trigger.event "exit" && leb e.seq (offset_of source trigger.event_offsets))

module _ {V : Type 0} ⦃u : UlidText⦄ ⦃x : External V⦄ where
  open u use {show_ulid}

  -- a send to the source itself waits for the exit of its process
  unfoldable pub needs_process_exit : Registry V → Trigger V → ℕ → Result Error Bool
  unfolding get_record
  needs_process_exit r trigger source =
      if str_eq trigger.event "exit" && is_target trigger.target source
      then (do
        row ← get_record r.connection (show_ulid source)
        ok (is_agent (str_field row.body "agent")))
      else ok false

  unfoldable pub source_event : Registry V → Trigger V → ℕ → Bool → Option (LogEntry V)
  unfolding latest_event latest_process_exit
  source_event r trigger source true = latest_process_exit r source
  source_event r trigger source false = latest_event r source trigger.event

  -- the loop over the sources: whether the trigger is to be fired
  unfoldable pub is_due : Registry V → Trigger V → List ℕ → Result Error Bool
  unfolding needs_process_exit source_event is_recorded
  is_due r trigger [] = ok true
  is_due r trigger (source ∷ sources) = needs_process_exit r trigger source >>= λ process.
      elim (is_recorded trigger source (source_event r trigger source process)) [
        | false ↦ ok false
        | true ↦ is_due r trigger sources
      ]
