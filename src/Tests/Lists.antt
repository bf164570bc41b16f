-- ===== src/Tests/Lists.antt =====
-- Messages and events that were not written in their order.
use dotfile.Prelude.{ℕ, ◌*◌, ◌+◌, [], ◌∷◌, none, ◌≡◌, refl, map}
use dotfile.Tests.Json.{Json, object, no_fields, json_external, entry}
use dotfile.Registry.Schema.{Message, AppliedRow, Tables}
use dotfile.Registry.Apply.{empty_tables}
use dotfile.Registry.Lists.{messages}

abbrev message : ℕ → Message Json
message id = record {
  id = id;
  sender = none;
  recipient = 7;
  body = none;
  sent_at_ms = none;
  delivered_at_ms = none;
  read_at_ms = none;
}

abbrev done : ℕ → ℕ → AppliedRow Json
done session seq = record {
  event_id = 10 * session + seq;
  session_id = session;
  seq = seq;
  entry = entry (10 * session + seq) session seq "a" "done" (object no_fields);
}

abbrev tables : Tables Json
tables = record empty_tables {
  messages = message 3 ∷ message 1 ∷ message 2 ∷ [];
  applied = done 8 1 ∷ done 7 4 ∷ done 8 3 ∷ done 7 2 ∷ [];
}

in_ids : map (λ (m : Message Json). m.id) (messages tables) ≡ 1 ∷ 2 ∷ 3 ∷ []
unfolding messages
in_ids = refl
