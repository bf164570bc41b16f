-- ===== src/Tests/Json.antt =====
-- A small type of JSON values and ULID texts, which meet the interfaces of `External`.
use dotfile.Prelude.{
  ℕ, ◌+◌, zero, suc, String, Bool, true, false, Option, none, some, List, [], ◌∷◌, ◌||◌, str_eq,
  if◌then◌else◌,
}
use dotfile.Entry.{LogEntry}
use dotfile.External.{ℤ, pos, UlidText, External}

mutual
  pub data Json : Type 0 where
    nothing : Json
    text : String → Json
    number : ℕ → Json
    array : Items → Json
    object : Fields → Json

  pub data Items : Type 0 where
    no_items : Items
    item : Json → Items → Items

  pub data Fields : Type 0 where
    no_fields : Fields
    field : String → Json → Fields → Fields

abbrev look : Fields → String → Option Json
look no_fields k = none
look (field j v fs) k = if str_eq j k then some v else look fs k

abbrev get : Json → String → Option Json
get (object fs) k = look fs k
get _ k = none

abbrev as_str : Json → Option String
as_str (text s) = some s
as_str _ = none

abbrev as_i64 : Json → Option ℤ
as_i64 (number n) = some (pos n)
as_i64 _ = none

abbrev as_u64 : Json → Option ℕ
as_u64 (number n) = some n
as_u64 _ = none

abbrev to_list : Items → List Json
to_list no_items = []
to_list (item v vs) = v ∷ to_list vs

abbrev as_array : Json → Option (List Json)
as_array (array vs) = some (to_list vs)
as_array _ = none

abbrev is_null : Json → Bool
is_null nothing = true
is_null _ = false

abbrev of_str : Option String → Json
of_str none = nothing
of_str (some s) = text s

abbrev put_all : Fields → Fields → Fields
put_all no_fields old = old
put_all (field k v fs) old = field k v (put_all fs old)

abbrev extend : Json → Json → Option Json
extend (object old) (object new) = some (object (put_all new old))
extend _ _ = none

abbrev is_priority : Option String → Bool
is_priority none = false
is_priority (some s) = str_eq s "background" || str_eq s "utility" || str_eq s "normal"

abbrev json_set : Json → String → Json → Json
json_set (object fs) k v = object (field k v fs)
json_set old k v = old

abbrev text_at : Json → String → Option String
text_at v k = elim (get v k) [ none ↦ none | some w ↦ as_str w ]

abbrev pub number_at : Json → String → Option ℕ
number_at v k = elim (get v k) [ none ↦ none | some w ↦ as_u64 w ]

instance abbrev pub json_external : External Json
json_external = record {
  null = nothing;
  is_null = is_null;
  get = get;
  as_str = as_str;
  as_i64 = as_i64;
  as_u64 = as_u64;
  as_array = as_array;
  of_str = of_str;
  extend = extend;
  reads_priority = λ v. is_priority (as_str v);
  serialize = λ e. some e.prev_hash;
  json_set = json_set;
  extract_text = text_at;
  extract_integer = number_at;
}

-- a ULID is written as so many strokes
abbrev pub strokes : ℕ → String
strokes zero = ""
strokes (suc n) = String.◌∷◌ "I" (strokes n)

abbrev pub count_strokes : String → ℕ
count_strokes String.[] = 0
count_strokes (String.◌∷◌ c s) = suc (count_strokes s)

instance abbrev pub stroke_ulids : UlidText
stroke_ulids = record { parse_ulid = λ s. some (count_strokes s); show_ulid = strokes }

-- an entry with its number in its session's log
abbrev pub entry : ℕ → ℕ → ℕ → String → String → Json → LogEntry Json
entry id session seq hash kind body = record {
  event_id = id;
  session_id = session;
  epoch = 0;
  seq = seq;
  prev_hash = hash;
  ts_ms = 100 + id;
  event_type = kind;
  body = body;
  device_id = 9;
  sig = "";
}
