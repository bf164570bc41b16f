-- ===== src/Log/Read.antt =====
-- `read_file` and `SessionLog::read_after` of ws-core/src/log.rs.
pub mod Prefix
pub mod Chain
pub mod Tail
use dotfile.Prelude.{
  ℕ, zero, suc, ◌+◌, String, Bool, not, Option, none, some, List, [], ◌∷◌, ◌++◌, Result, ok, err,
  ok_or, ◌>>=◌, str_eq, ltb, length, drop, if◌then◌else◌, ◌==◌,
}
use dotfile.Entry.{LogEntry, LogRead}
use dotfile.Log.Values.{Value, Codec, Fault, IoError, invalid_data, bad_json, wrong_session}
use dotfile.Log.Values.{bad_seq, bad_prev_hash, epoch_decreased, bad_hash, entry_hash}
use dotfile.Log.Lines.{split_lines, ends_with_newline}

abbrev pub refuse : Option Fault → Result IoError (Unit {0})
refuse none = ok tt
refuse (some fault) = err (invalid_data fault)

-- an error of `entry_hash` becomes a fault of the line
abbrev pub as_fault {ℓ} : {A : Type ℓ} → Fault → Result IoError A → Result IoError A
as_fault fault (ok a) = ok a
as_fault fault (err _) = err (invalid_data fault)

-- what the loop of `read_file` carries: the result so far, and the last entry's epoch
pub record Reading (N : Type 0) : Type 0 where
  pub entries : List (LogEntry (Value N))
  pub valid_bytes : ℕ
  pub head_hash : String
  pub epoch : ℕ

module _ {N : Type 0} where
  abbrev pub nothing_read : Reading N
  nothing_read = record { entries = []; valid_bytes = 0; head_hash = ""; epoch = 0 }

  -- why an entry cannot stand after the entries read so far
  unfoldable pub fault_of : ℕ → Reading N → LogEntry (Value N) → Option Fault
  fault_of session s e =
      if not (e.session_id == session)
      then some wrong_session
      else if not (e.seq == length s.entries + 1)
      then some bad_seq
      else if not (str_eq e.prev_hash s.head_hash)
      then some bad_prev_hash
      else if ltb e.epoch s.epoch
      then some epoch_decreased
      else none

module _ {N : Type 0} ⦃c : Codec N⦄ where
  open c use {from_slice, deserialize}

  -- the body of the loop, for a complete line
  unfoldable pub push_line : ℕ → Reading N → List ℕ → Result IoError (Reading N)
  unfolding fault_of entry_hash
  push_line session s line = do
    value ← ok_or (from_slice line) (invalid_data bad_json)
    entry ← ok_or (deserialize value) (invalid_data bad_json)
    _ ← refuse (fault_of session s entry)
    hash ← as_fault bad_hash (entry_hash value)
    ok (record {
      entries = s.entries ++ entry ∷ [];
      valid_bytes = s.valid_bytes + length line;
      head_hash = hash;
      epoch = entry.epoch;
    })

  -- the loop over the lines; an incomplete line ends it, and its number is returned
  unfoldable pub read_lines : ℕ → Reading N → List (List ℕ) → Result IoError (Reading N × Option ℕ)
  read_lines session s [] = ok (s, none)
  read_lines session s (line ∷ lines) =
      if ends_with_newline line
      then (do s' ← push_line session s line; read_lines session s' lines)
      else ok (s, some (length s.entries + 1))

  abbrev pub to_read : Reading N × Option ℕ → LogRead (Value N)
  to_read (s, truncated) = record {
    entries = s.entries;
    truncated_line = truncated;
    valid_bytes = s.valid_bytes;
    head_hash = s.head_hash;
  }

  unfoldable pub read_file : ℕ → List ℕ → Result IoError (LogRead (Value N))
  unfolding read_lines split_lines
  read_file session bytes = do
    r ← read_lines session nothing_read (split_lines bytes)
    ok (to_read r)

  -- `SessionLog::read`; `none` is a file that does not exist
  unfoldable pub read : ℕ → Option (List ℕ) → Result IoError (LogRead (Value N))
  unfolding read_file
  read session none =
      ok (record { entries = []; truncated_line = none; valid_bytes = 0; head_hash = "" })
  read session (some bytes) = read_file session bytes

-- `LogTail`
pub record LogTail (N : Type 0) : Type 0 where
  pub entries : List (LogEntry (Value N))
  pub offset : ℕ  -- u64
  pub restarted : Bool

module _ {N : Type 0} ⦃c : Codec N⦄ where
  open c use {from_slice, deserialize}

  abbrev pub deserialize_parsed : Option (Value N) → Option (LogEntry (Value N))
  deserialize_parsed none = none
  deserialize_parsed (some value) = deserialize value

  -- `serde_json::from_slice` of an entry
  abbrev pub parse_entry : List ℕ → Option (LogEntry (Value N))
  parse_entry line = deserialize_parsed (from_slice line)

  unfoldable pub tail_lines : LogTail N → List (List ℕ) → Result IoError (LogTail N)
  tail_lines tail [] = ok tail
  tail_lines tail (line ∷ lines) =
      if ends_with_newline line
      then (do
        entry ← ok_or (parse_entry line) (invalid_data bad_json)
        tail_lines
            (record tail {
              entries = tail.entries ++ entry ∷ [];
              offset = tail.offset + length line;
            })
            lines)
      else ok tail

  unfoldable pub read_after : Option (List ℕ) → ℕ → Result IoError (LogTail N)
  unfolding tail_lines split_lines
  read_after none offset = ok (record { entries = []; offset = 0; restarted = ltb 0 offset })
  read_after (some bytes) offset =
      let restarted = ltb (length bytes) offset in
      let start = if restarted then 0 else offset in
      tail_lines (record { entries = []; offset = start; restarted = restarted })
        (split_lines (drop start bytes))
