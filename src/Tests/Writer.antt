-- ===== src/Tests/Writer.antt =====
-- A log's writer whose entries have new ids.
use dotfile.Prelude.{
  ℕ, ◌+◌, String, Bool, true, false, Option, none, some, Result, ok, err, ◌≡◌, ◌∙◌, refl, ap, sym,
  ok_unique, length,
}
use dotfile.Entry.{LogEntry}
use dotfile.Tests.Json.{Json, object, no_fields, json_external, entry}
use dotfile.Tests.Edges.{more_strokes}
use dotfile.Registry.Schema.{AppliedRow, Tables, Error, sqlite}
use dotfile.Registry.Apply.{max_seq, find_applied}
use dotfile.Edges.Add.{Journal}
use dotfile.Calls.{WriterLaws}
use dotfile.Prelude.{ap, sym, ◌∙◌, ok_unique}

abbrev entry_if_new : ℕ → Tables Json → ℕ → String → Json → Bool → Result Error (LogEntry Json)
entry_if_new id t session kind body false =
    ok (entry id session (max_seq session t.applied + 1) "new" kind body)
entry_if_new id t session kind body true = err sqlite

abbrev is_there : {A : Type 0} → Option A → Bool
is_there none = false
is_there (some a) = true

abbrev pub journal : Journal Json
journal = record {
  written = λ t session kind body.
      let id = 50 + length t.applied in
      entry_if_new id t session kind body (is_there (find_applied id t.applied));
  call_body = λ caller operation target. object no_fields;
  dependency_body = λ target caller. object no_fields;
  limits = record { max_children = 2; max_depth = 3; max_spawns = 3 };
  with_scope = λ body scope. body;
}

written :
    (there : Option (AppliedRow Json)) (id : ℕ) (t : Tables Json) (session : ℕ) (kind : String)
    (body : Json) (e : LogEntry Json)
    → entry_if_new id t session kind body (is_there there) ≡ ok e
    → (e.session_id ≡ session)
      × (e.event_type ≡ kind)
      × (e.body ≡ body)
      × (e.event_id ≡ id)
      × (there ≡ none)
written none id t session kind body e h =
    let same : entry id session (max_seq session t.applied + 1) "new" kind body ≡ e =
      ok_unique _ refl h in
    (
      ap (λ (r : LogEntry Json). r.session_id) (sym same),
      ap (λ (r : LogEntry Json). r.event_type) (sym same),
      ap (λ (r : LogEntry Json). r.body) (sym same),
      ap (λ (r : LogEntry Json). r.event_id) (sym same),
      refl,
    )
written (some row) id t session kind body e h = cc

pub writer_laws : WriterLaws journal
writer_laws = record {
  keeps = λ t session kind body e h.
      let id = 50 + length t.applied in
      let (session_kept, type_kept, body_kept, id_kept, new) =
        written (find_applied id t.applied) id t session kind body e h in
      (session_kept, type_kept, body_kept, ap (λ i. find_applied i t.applied) id_kept ∙ new);
}
