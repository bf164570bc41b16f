-- ===== src/Tests/Edges.antt =====
-- Dependencies among a few sessions, and the names of sessions.
use dotfile.Prelude.{
  ℕ, zero, suc, ◌+◌, ◌-◌, String, List, [], ◌∷◌, Result, ok, err, none, some, ◌≡◌, refl, true,
  false, ap, ◌∙◌, sym, ok_unique, str_eq_iff, str_eq, is_empty, Bool-cases, inl, inr, arith, ◌==◌,
  codes, same,
}
use dotfile.Entry.{LogEntry}
use dotfile.External.{UlidText}
use dotfile.Tests.Json.{
  Json, text, object, field, no_fields, json_external, entry, strokes, count_strokes,
}
use dotfile.Registry.Schema.{Edge, Tables, SessionRow}
use dotfile.Registry.Fields.{required_id, parse_id}
use dotfile.Registry.Apply.{empty_tables, max_seq}
use dotfile.Registry.Resolve.{resolve, get_record, uppercase}
use dotfile.Registry.Resolve.Names.{UlidLaws, resolve-get_record, resolve-show_ulid}
use dotfile.Registry.Invariant.{Inv}
use dotfile.Edges.{path}
use dotfile.Edges.Walk.{Walk, here, along}
use dotfile.Edges.Answers.{IsAnswer, path-IsAnswer}
use dotfile.Edges.Acyclic.{Acyclic, Acyclic-nil, Acyclic-cons}
use dotfile.Edges.Add.{Journal, AddError, dependency_cycle, add_dependency}
use dotfile.Edges.Add.Cycles.{JournalLaws, add_dependency-Acyclic}

abbrev pub edge : ℕ → ℕ → ℕ → Edge Json
edge id a b = record { id = id; source = a; target = b; kind = "block_on"; body = object no_fields }

abbrev graph : List (Edge Json)
graph = edge 1 1 2 ∷ edge 2 2 3 ∷ edge 3 1 3 ∷ edge 4 3 4 ∷ edge 5 4 1 ∷ []

way : path graph 1 4 ≡ some (some (1 ∷ 3 ∷ 4 ∷ []))
unfolding path
way = refl

no_way : path graph 1 7 ≡ some none
unfolding path
no_way = refl

path-IsAnswer_example : IsAnswer graph 1 4 (path graph 1 4)
path-IsAnswer_example = path-IsAnswer graph 1 4

-- an id is written as one stroke more
instance abbrev pub more_strokes : UlidText
more_strokes = record {
  parse_ulid = λ s. some (count_strokes s - 1);
  show_ulid = λ n. strokes (suc n);
}

pub count-strokes : (n : ℕ) → count_strokes (strokes n) ≡ n
count-strokes zero = refl
count-strokes (suc n) = ap suc (count-strokes n)

abbrev journal : Journal Json
journal = record {
  written =
      λ t session kind body. ok (entry 50 session (max_seq session t.applied + 1) "new" kind body);
  call_body = λ caller operation target. object no_fields;
  dependency_body =
      λ target caller. object (field "target" (text (strokes (suc target))) no_fields);
  limits = record { max_children = 2; max_depth = 3; max_spawns = 3 };
  with_scope = λ body scope. body;
}

pub filled : (s : String) → is_empty (String.◌∷◌ "I" s) ≡ false
filled s = elim (Bool-cases (str_eq (String.◌∷◌ "I" s) "")) [
  | inr other ↦ other
  | inl same ↦ absurd (apart ((str_eq_iff (String.◌∷◌ "I" s) "").0 same))
]
  where
    apart : String.◌∷◌ "I" s ≡ "" → ⊥
    apart h = cc

journal_laws : JournalLaws journal
unfolding required_id parse_id
journal_laws = record {
  keeps = λ t session kind body e h.
      let same : entry 50 session (max_seq session t.applied + 1) "new" kind body ≡ e =
        ok_unique _ refl h in
      (
        ap (λ (r : LogEntry Json). r.session_id) (sym same),
        ap (λ (r : LogEntry Json). r.event_type) (sym same),
        ap (λ (r : LogEntry Json). r.body) (sym same),
      );
  names_target = λ e target caller h.
      rw (h, filled (strokes target), count-strokes target) (ap ok (omega arith));
}

-- sessions 7, which depends on 8, and 8, under their aliases
abbrev pub row : ℕ → SessionRow Json
row id = record {
  id = id;
  name = some "I";
  state = "running";
  workspace_id = none;
  cwd = none;
  repos = [];
  device_id = 9;
  created_at_ms = 1;
  updated_at_ms = 1;
  body = object no_fields;
}

abbrev pub tables : Tables Json
tables = record empty_tables {
  sessions = row 7 ∷ row 8 ∷ [];
  aliases = (record { alias = 1; session_id = 7 }) ∷ (record { alias = 2; session_id = 8 }) ∷ [];
  edges = edge 4 7 8 ∷ [];
}

stay : {a b : ℕ} → Walk {V = Json} [] a b → a ≡ b
stay here = refl
stay (along e w) = absurd (false_edge e)
  where
    false_edge : false ≡ true → ⊥
    false_edge h = cc

pub tables-Acyclic : Acyclic tables.edges
tables-Acyclic = Acyclic-cons [] (edge 4 7 8) (λ w. apart (stay w)) (Acyclic-nil Json)
  where
    apart : ◌≡◌ {A = ℕ} 8 7 → ⊥
    apart h = absurd (omega (arith, h))

add_dependency-Acyclic_example :
    (answer : Result AddError (Edge Json)) × (t : Tables Json) × (add_dependency journal tables "#2"
        "#1" "block_on"
        (some 7)
      ≡ some (answer, t))
    × Acyclic t.edges
add_dependency-Acyclic_example =
    add_dependency-Acyclic journal journal_laws tables "#2" "#1" "block_on" (some 7) tables-Acyclic

refused :
    (add_dependency journal tables "#2" "#1" "block_on" none)
    ≡ some (err (dependency_cycle (8 ∷ 7 ∷ 8 ∷ [])), tables)
unfolding add_dependency
refused = refl

same-strokes : (a b : ℕ) → same (codes (strokes a)) (codes (strokes b)) ≡ (a == b)
same-strokes zero zero = refl
same-strokes zero (suc b) = ground arith
same-strokes (suc a) zero = ground arith
same-strokes (suc a) (suc b) = ground (arith, same-strokes a b)

capital_strokes : (n : ℕ) → uppercase (codes (strokes n)) ≡ codes (strokes n)
capital_strokes zero = refl
capital_strokes (suc n) = ap (λ cs. b'I' ∷ cs) (capital_strokes n)

laws : UlidLaws more_strokes
laws = record {
  plain = λ id. (b'I', codes (strokes id), refl, refl);
  capitals = λ id. capital_strokes (suc id);
  distinct = λ a b. same-strokes (suc a) (suc b) ∙ ground arith;
}

tables-Inv : Inv tables
tables-Inv = record {
  session_once = λ id. ground arith;
  one_alias = λ id. refl;
  alias_once = λ a. ground arith;
  alias_positive = refl;
  workspace_once = λ id. omega arith;
  message_once = λ id. omega arith;
  kinds = (refl, tt);
}

named : resolve tables "#2" ≡ ok 8
unfolding resolve
named = refl

resolve-get_record_example :
    (found : SessionRow Json) × (found.id ≡ 8) × (get_record tables "#2" ≡ ok found)
resolve-get_record_example = resolve-get_record tables tables-Inv "#2" 8 named

resolve-show_ulid_example : resolve tables "IIIIIIIII" ≡ ok 8
resolve-show_ulid_example = resolve-show_ulid laws tables tables-Inv (row 8) refl
