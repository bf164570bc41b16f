-- ===== src/Registry/Lists.antt =====
-- The lists of registry/mod.rs that are read in an order: `messages`, `events_of_type` and
-- `session_events_of_type`.
pub mod Ordered
use dotfile.Prelude.{
  ℕ, String, Bool, List, [], ◌∷◌, ◌&&◌, ◌||◌, map, select, ltb, leb, str_eq, if◌then◌else◌, ◌==◌,
}
use dotfile.Entry.{LogEntry}
use dotfile.Registry.Schema.{Message, AppliedRow, Tables}

module _ {A : Type 0} (before : A → A → Bool) where
  unfoldable pub insert_in_order : A → List A → List A
  insert_in_order a [] = a ∷ []
  insert_in_order a (b ∷ bs) =
      let rest = insert_in_order a bs in if before a b then a ∷ b ∷ bs else b ∷ rest

  -- `ORDER BY`
  unfoldable pub in_order : List A → List A
  unfolding insert_in_order
  in_order [] = []
  in_order (a ∷ rest) = insert_in_order a (in_order rest)

module _ {V : Type 0} where
  abbrev pub by_id : Message V → Message V → Bool
  by_id m n = leb m.id n.id

  abbrev pub by_seq : AppliedRow V → AppliedRow V → Bool
  by_seq r s = leb r.seq s.seq

  abbrev pub by_session_seq : AppliedRow V → AppliedRow V → Bool
  by_session_seq r s =
      ltb r.session_id s.session_id || (r.session_id == s.session_id && leb r.seq s.seq)

  unfoldable pub messages : Tables V → List (Message V)
  unfolding in_order
  messages t = in_order by_id t.messages

  abbrev pub has_type : String → AppliedRow V → Bool
  has_type event_type row = str_eq row.entry.event_type event_type

  unfoldable pub rows_of_type : Tables V → String → List (AppliedRow V)
  unfolding in_order
  rows_of_type t event_type = in_order by_session_seq (select (has_type event_type) t.applied)

  unfoldable pub events_of_type : Tables V → String → List (LogEntry V)
  unfolding rows_of_type
  events_of_type t event_type = map (λ row. row.entry) (rows_of_type t event_type)

  abbrev pub is_session_type : ℕ → String → AppliedRow V → Bool
  is_session_type session event_type row = has_type event_type row && row.session_id == session

  unfoldable pub session_rows_of_type : Tables V → ℕ → String → List (AppliedRow V)
  unfolding in_order
  session_rows_of_type t session event_type =
      in_order by_seq (select (is_session_type session event_type) t.applied)

  unfoldable pub session_events_of_type : Tables V → ℕ → String → List (LogEntry V)
  unfolding session_rows_of_type
  session_events_of_type t session event_type =
      map (λ row. row.entry) (session_rows_of_type t session event_type)
