-- ===== src/Tests/Bus.antt =====
-- Messages from session 8 to session 7: the first and the third of the pair.
use dotfile.Prelude.{
  ℕ, suc, ◌+◌, true, false, not, ◌&&◌, List, [], ◌∷◌, Option, none, some, ok, ◌≡◌, refl, ap,
  split_once, any, select, length, arith,
}
use dotfile.Tests.Json.{
  Json, text, number, object, field, no_fields, json_external, strokes, number_at,
}
use dotfile.Tests.Writer.{journal, writer_laws}
use dotfile.Tests.Edges.{more_strokes, filled, count-strokes}
use dotfile.Tests.Edges.{tables as sessions_only}
use dotfile.Limits.Check.{tag_loop_spawn}
use dotfile.Registry.Schema.{Message, Tables}
use dotfile.Registry.Fields.{required_id, parse_id}
use dotfile.Registry.Apply.{max_seq, apply_new, finish_done, dispatch, record_applied}
use dotfile.Registry.Project.Messages.{project_message}
use dotfile.Edges.Add.{record_call}
use dotfile.Prelude.{◌<◌, ◌⊎◌, true}
use dotfile.Bus.{
  next_pair_seq, Content, InboxMessage, ReadsContent, Row, inbox_rows, inbox_messages,
}
use dotfile.Bus.Numbered.{is_shown, is_unread, has_run, Once}
use dotfile.Bus.Numbered.Next.{is_used, next_pair_seq-bound}
use dotfile.Bus.Numbered.Shown.{inbox_messages-has_run}
use dotfile.Bus.Service.{Bus, is_pending, ack_messages}
use dotfile.Bus.Service.Acked.{BusLaws, ack_messages-without}

abbrev content_from : Option ℕ → Option ℕ → Option Content
content_from (some from) (some n) =
    some (record { from_session = from; to_session = 7; pair_seq = n; body = "hi" })
content_from _ _ = none

abbrev reader : ReadsContent Json
reader = record { read_content = λ v. content_from (number_at v "from") (number_at v "pair_seq") }

abbrev body : Content → Json
body c =
    object (field "from" (number c.from_session) (field "pair_seq" (number c.pair_seq) no_fields))

abbrev message : ℕ → ℕ → Message Json
message id n = record {
  id = id;
  sender = some 8;
  recipient = 7;
  body = some (body (record { from_session = 8; to_session = 7; pair_seq = n; body = "hi" }));
  sent_at_ms = some 5;
  delivered_at_ms = none;
  read_at_ms = none;
}

abbrev tables : Tables Json
tables = record sessions_only { messages = message 23 3 ∷ message 21 1 ∷ [] }

abbrev row : ℕ → ℕ → Row
row id n = (
  record {
    event_id = id;
    content = record { from_session = 8; to_session = 7; pair_seq = n; body = "hi" };
    from_alias = some 2;
  },
  false,
)

abbrev rows : List Row
rows = row 21 1 ∷ row 23 3 ∷ []

rows-Once : Once rows
unfolding Once
rows-Once sender n = ground arith

inbox_messages-has_run_example :
    (shown : List InboxMessage) × (inbox_messages reader tables 7 ≡ some shown)
    × ((sender d : ℕ)
        → any (is_shown sender (1 + d)) shown
          ≡ (any (is_unread sender (1 + d)) rows && has_run sender 1 d rows))
unfolding inbox_rows
inbox_messages-has_run_example = inbox_messages-has_run reader tables 7 rows refl rows-Once

held : inbox_messages reader tables 7 ≡ some ((row 21 1).0 ∷ [])
unfolding inbox_messages
held = refl

abbrev bus : Bus Json
bus = record {
  journal = journal;
  contents = reader;
  content_body = λ c trigger. body c;
  message_id_body = λ id. object (field "message_id" (text (strokes (suc id))) no_fields);
  human_body = λ alias. object no_fields;
  device_id = 9;
  alias_floor = 1;
  new_id = 99;
  reserve_counter = some;
  delivery_guard = some true;
  reopen = λ to from t. t;
}

after : ack_messages bus 7 [] tables ≡ (ok 1, (ack_messages bus 7 [] tables).1)
unfolding ack_messages tag_loop_spawn record_call apply_new max_seq finish_done dispatch split_once
    record_applied project_message
after = refl

laws : BusLaws bus
unfolding required_id parse_id
laws = record {
  writer = writer_laws;
  names_message = λ e id h. rw (h, filled (strokes id), count-strokes id) (ap ok (omega arith));
}

ack_messages-without_example :
    (shown : List InboxMessage) × (inbox_messages reader tables 7 ≡ some shown)
    × (1 ≡ length (select (is_pending []) shown))
    × (inbox_messages reader (ack_messages bus 7 [] tables).1 7
        ≡ some (select (λ m. not (is_pending [] m)) shown))
ack_messages-without_example =
    ack_messages-without bus laws tables (ack_messages bus 7 [] tables).1 7 [] 1 after

next_pair_seq-bound_example :
    ((n : ℕ) → any (is_used 8 7 n) tables.messages ≡ true → n < next_pair_seq tables 8 7)
    × ((next_pair_seq tables 8 7 ≡ 1)
        ⊎ ((n : ℕ) × (next_pair_seq tables 8 7 ≡ n + 1)
            × (any (is_used 8 7 n) tables.messages ≡ true)))
next_pair_seq-bound_example = next_pair_seq-bound tables 8 7

fourth : next_pair_seq tables 8 7 ≡ 4
unfolding next_pair_seq
fourth = refl
