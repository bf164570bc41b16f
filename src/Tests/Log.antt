-- ===== src/Tests/Log.antt =====
-- A log of two entries, over an encoding of three bytes and a newline.
use dotfile.Prelude.{
  ℕ, ◌+◌, ◌-◌, String, Bool, true, false, Option, none, some, err, ◌↔◌, List, [], ◌∷◌, ok, ◌≡◌,
  refl, ◌&&◌, str_eq, str_eq_iff, if◌then◌else◌, ◌==◌, arith, ◌++◌, ◌≢◌, ◌⊎◌, inl, inr, Bool-cases,
  Option-cases, sym, ap,
}
use dotfile.Entry.{LogEntry, LogRead}
use dotfile.External.{pos}
use dotfile.Log.Lines.{NoNewline, newline}
use dotfile.Log.Writer.Heads.{CodecLaws, Trusted}
use dotfile.Log.Writer.Safety.{Extends}
use dotfile.Log.Read.Chain.{Chain, read_file-Chain}
use dotfile.Log.Read.Tail.{read_after-read_file}
use dotfile.Log.Values.Exact.{Occurs, IsExact, validate_numbers-iff-IsExact}
use dotfile.Log.Read.{read_after, read_file, read_lines, push_line, fault_of}
use dotfile.Log.Lines.{split_lines}
use dotfile.Log.Values.{entry_hash, validate_numbers, big_integer}
use dotfile.Log.Writer.{
  FileTimes, LogFile, LogWriter, Outcome, append, append_locked, write_if_ready, write_prepared,
  prepare, previous_head, read_head, encode_entry, finish_append, head_of_read, head_after,
  new_entry, write_line, write_at, set_len, file_stamp, last_epoch,
}
use dotfile.Log.Writer.Append.{append-entry, append-Extends}
use dotfile.Log.Values.{Value, null, number, array, value, no_values, Codec}

abbrev is_null : Value ℕ → Bool
is_null null = true
is_null _ = false

abbrev decode : ℕ → ℕ → String → LogEntry (Value ℕ)
decode id seq prev = record {
  event_id = id;
  session_id = 7;
  epoch = 0;
  seq = seq;
  prev_hash = prev;
  ts_ms = 5;
  event_type = "t";
  body = null;
  device_id = 1;
  sig = "";
}

abbrev fixed : LogEntry (Value ℕ) → Bool
fixed e =
    e.session_id == 7
    && e.epoch == 0
    && e.ts_ms == 5
    && str_eq e.event_type "t"
    && is_null e.body
    && e.device_id == 1
    && str_eq e.sig ""

abbrev hash_byte : String → Option ℕ
hash_byte s = if str_eq s "" then some 11 else if str_eq s "h" then some 12 else none

abbrev from_slice : List ℕ → Option (Value ℕ)
from_slice (a ∷ b ∷ c ∷ _ ∷ []) =
    some (array (value (number a) (value (number b) (value (number c) no_values))))
from_slice _ = none

abbrev deserialize : Value ℕ → Option (LogEntry (Value ℕ))
deserialize (array (value (number a) (value (number b) (value (number c) no_values)))) =
    some (decode (a - 11) (b - 11) (if c == 11 then "" else "h"))
deserialize _ = none

abbrev to_vec : LogEntry (Value ℕ) → Option (List ℕ)
to_vec e =
    if fixed e
    then elim (hash_byte e.prev_hash) [
      | none ↦ none
      | some b ↦ some ((e.event_id + 11) ∷ (e.seq + 11) ∷ b ∷ [])
    ]
    else none

instance abbrev bytes : Codec ℕ
bytes = record {
  as_u64 = λ n. some n;
  as_i64 = λ n. some (pos n);
  from_slice = from_slice;
  deserialize = deserialize;
  to_value = λ e. some e.body;
  to_vec = to_vec;
  digest = λ v. some "h";
}

is_null-null : (v : Value ℕ) → is_null v ≡ true → v ≡ null
is_null-null null h = refl
is_null-null _ h = cc

fixed-decode : (e : LogEntry (Value ℕ)) → fixed e ≡ true → e ≡ decode e.event_id e.seq e.prev_hash
fixed-decode e h =
    let session : e.session_id ≡ 7 = ground arith in
    let epoch : e.epoch ≡ 0 = ground arith in
    let time : e.ts_ms ≡ 5 = ground arith in
    let kind : e.event_type ≡ "t" = (str_eq_iff e.event_type "t").0 (ground arith) in
    let body : e.body ≡ null = is_null-null e.body (ground arith) in
    let device : e.device_id ≡ 1 = ground arith in
    let sig : e.sig ≡ "" = (str_eq_iff e.sig "").0 (ground arith) in cc

hash_byte-cases :
    (s : String) (b : ℕ) → hash_byte s ≡ some b → ((b ≡ 11) × (s ≡ "")) ⊎ ((b ≡ 12) × (s ≡ "h"))
hash_byte-cases s b h = elim (Bool-cases (str_eq s "")) [
  | inl empty ↦ inl (ground arith, (str_eq_iff s "").0 empty)
  | inr other ↦ elim (Bool-cases (str_eq s "h")) [
    | inl first ↦ inr (ground arith, (str_eq_iff s "h").0 first)
    | inr wrong ↦ absurd (ground arith)
  ]
]

to_vec-text :
    (e : LogEntry (Value ℕ)) (text : List ℕ)
    → to_vec e ≡ some text
    → (b : ℕ) × (fixed e ≡ true)
      × (hash_byte e.prev_hash ≡ some b)
      × (text ≡ (e.event_id + 11) ∷ (e.seq + 11) ∷ b ∷ [])
to_vec-text e text h = elim (Bool-cases (fixed e)) [
  | inr wrong ↦ absurd (ground arith)
  | inl right ↦ elim (Option-cases (hash_byte e.prev_hash)) [
    | inl wrong ↦ absurd (ground arith)
    | inr (b, found) ↦ (b, right, found, ground arith)
  ]
]

bytes-one_line : (e : LogEntry (Value ℕ)) (text : List ℕ) → to_vec e ≡ some text → NoNewline text
bytes-one_line e text h =
    let (b, _, found, made) = to_vec-text e text h in
    let byte : b ≢ newline = ground (arith, hash_byte-cases e.prev_hash b found) in
    rw made (omega arith, (omega arith, (byte, tt)))

some_unique : {A : Type 0} {a b : A} (o : Option A) → o ≡ some a → o ≡ some b → a ≡ b
some_unique o p q = cc

bytes-reads_back :
    (e : LogEntry (Value ℕ)) (text : List ℕ) (v : Value ℕ)
    → to_vec e ≡ some text
    → from_slice (text ++ newline ∷ []) ≡ some v
    → deserialize v ≡ some e
bytes-reads_back e text v h q =
    let (b, right, found, made) = to_vec-text e text h in
    let prev : (if b == 11 then "" else "h") ≡ e.prev_hash =
      elim (hash_byte-cases e.prev_hash b found) [
        | inl (byte, empty) ↦ rw (byte, empty) refl
        | inr (byte, first) ↦ rw (byte, first) refl
      ] in
    let id : e.event_id + 11 - 11 ≡ e.event_id = omega arith in
    let seq : e.seq + 11 - 11 ≡ e.seq = omega arith in
    let read : v
        ≡ array (
            value (number (e.event_id + 11))
              (value (number (e.seq + 11)) (value (number b) no_values))) =
      some_unique (from_slice (text ++ newline ∷ [])) q
        (ap (λ t. from_slice (t ++ newline ∷ [])) made) in
    rw read (rw (id, seq, prev) (ap some (sym (fixed-decode e right))))

bytes-laws : CodecLaws bytes
bytes-laws = record { one_line = bytes-one_line; reads_back = bytes-reads_back }

abbrev some_times : FileTimes
some_times = record { modified = pos 3; changed = (pos 3, pos 0) }

-- an append of the entry with this id
abbrev wrote : ℕ → Option ℕ → Outcome
wrote id written = record {
  opened = true;
  unlocked = true;
  event_id = id;
  now = some 5;
  written = written;
  synced = true;
  times = some_times;
}

abbrev empty_file : LogFile
empty_file = record { bytes = []; device = 1; inode = 2; times = some_times }

abbrev writer : LogWriter
writer = record { session_id = 7; device_id = 1; head = none }

-- the first entry, whole, and a second one of which two bytes are written
abbrev one_entry : LogFile
one_entry = record empty_file { bytes = 12 ∷ 12 ∷ 11 ∷ 10 ∷ [] }

abbrev torn : LogFile
torn = record empty_file { bytes = 12 ∷ 12 ∷ 11 ∷ 10 ∷ 13 ∷ 13 ∷ [] }

log_machine : Unit {0}
unfolding append append_locked write_if_ready write_prepared prepare previous_head read_head
    read_file read_lines split_lines push_line encode_entry entry_hash validate_numbers
    finish_append head_of_read head_after new_entry write_line write_at set_len file_stamp fault_of
    last_epoch
log_machine = tt

abbrev no_body : Value ℕ
no_body = null

abbrev two_entries : LogFile
two_entries = record empty_file { bytes = 12 ∷ 12 ∷ 11 ∷ 10 ∷ 13 ∷ 13 ∷ 12 ∷ 10 ∷ [] }

abbrev writer_after : LogWriter
writer_after = record writer {
  head = some (record {
    stamp = record { device = 1; inode = 2; size = 8; modified = pos 3; changed = (pos 3, pos 0) };
    seq = 2;
    epoch = 0;
    valid_bytes = 8;
    hash = "h";
  });
}

second-append :
    append writer torn none "t" no_body (wrote 2 none)
    ≡ (two_entries, (writer_after, ok (decode 2 2 "h")))
unfolding log_machine
second-append = refl

abbrev one_read : LogRead (Value ℕ)
one_read = record {
  entries = decode 1 1 "" ∷ [];
  truncated_line = none;
  valid_bytes = 4;
  head_hash = "h";
}

one_readable : read_file 7 one_entry.bytes ≡ ok one_read
unfolding log_machine
one_readable = refl

untrusting : (f : LogFile) → Trusted bytes writer f
untrusting f h present same = absurd (cc)

append-entry_example :
    (r r' : LogRead (Value ℕ)) × (read_file 7 torn.bytes ≡ ok r)
    × (read_file 7 two_entries.bytes ≡ ok r')
    × (r'.entries ≡ r.entries ++ decode 2 2 "h" ∷ [])
    × (r'.truncated_line ≡ none)
    × Trusted bytes writer_after two_entries
append-entry_example =
    append-entry bytes-laws writer torn (untrusting torn) none "t" no_body (wrote 2 none)
      two_entries writer_after (decode 2 2 "h") second-append

append-Extends_example :
    (r' : LogRead (Value ℕ)) × (read_file 7
        (append writer one_entry none "t" no_body (wrote 2 (some 2))).0.bytes
      ≡ ok r')
    × Extends one_read r'
    × Trusted bytes
        (append writer one_entry none "t" no_body (wrote 2 (some 2))).1.0
        (append writer one_entry none "t" no_body (wrote 2 (some 2))).0
append-Extends_example =
    append-Extends bytes-laws writer one_entry (untrusting one_entry) none "t" no_body
      (wrote 2 (some 2)) one_read one_readable

-- a write that stops after two bytes leaves them
torn-append : (append writer one_entry none "t" no_body (wrote 2 (some 2))).0 ≡ torn
unfolding log_machine
torn-append = refl

abbrev numbers : Value ℕ
numbers = array (value (number 3) (value (number 9007199254740993) no_values))

validate_numbers-iff-IsExact_example :
    (validate_numbers numbers ≡ ok tt) ↔ ((n : ℕ) → Occurs n numbers → IsExact n)
validate_numbers-iff-IsExact_example = validate_numbers-iff-IsExact numbers

numbers_refused : validate_numbers numbers ≡ err big_integer
unfolding validate_numbers
numbers_refused = refl

abbrev two_read : LogRead (Value ℕ)
two_read = record {
  entries = decode 1 1 "" ∷ decode 2 2 "h" ∷ [];
  truncated_line = none;
  valid_bytes = 8;
  head_hash = "h";
}

two_readable : read_file 7 two_entries.bytes ≡ ok two_read
unfolding log_machine
two_readable = refl

read_file-Chain_example :
    (epoch : ℕ) × Chain bytes 7 (decode 1 1 "" ∷ decode 2 2 "h" ∷ []) "h" epoch
read_file-Chain_example = read_file-Chain 7 two_entries.bytes two_read two_readable

read_after-read_file_example :
    read_after (some two_entries.bytes) 0
    ≡ ok (record { entries = two_read.entries; offset = 8; restarted = false })
read_after-read_file_example = read_after-read_file 7 two_entries.bytes two_read two_readable
