-- ===== src/Log/Writer.antt =====
-- `LogWriter` of ws-core/src/log.rs: a writer keeps the head of the log that it last verified, and
-- reads the file again when the file's stamp is another.
pub mod Appended
pub mod Heads
pub mod Append
pub mod Safety
use dotfile.Prelude.{
  ℕ, zero, suc, ◌+◌, String, Bool, not, Option, none, some, List, [], ◌∷◌, ◌++◌, Result, ok, err,
  ok_or, guard, ◌>>=◌, ◌>>◌, ltb, length, take, drop, if◌then◌else◌, ◌==◌, ◌&&◌, true, false,
}
use dotfile.Entry.{LogEntry, LogRead}
use dotfile.External.{ℤ, pos, negsuc}
use dotfile.Log.Values.{Value, Codec, IoError, epoch_older, other, failed, validate_numbers}
use dotfile.Log.Values.{entry_hash}
use dotfile.Log.Lines.{newline}
use dotfile.Log.Read.{read_file}

-- the times of a file's last change, as `modified` and (`ctime`, `ctime_nsec`) give them
pub record FileTimes : Type 0 where
  pub modified : ℤ
  pub changed : ℤ × ℤ

pub record FileStamp : Type 0 where
  pub device : ℕ  -- u64
  pub inode : ℕ  -- u64
  pub size : ℕ  -- u64
  pub modified : ℤ
  pub changed : ℤ × ℤ

pub record WriterHead : Type 0 where
  pub stamp : FileStamp
  pub seq : ℕ  -- u64
  pub epoch : ℕ  -- u64
  pub valid_bytes : ℕ  -- u64
  pub hash : String

-- the log file on disk
pub record LogFile : Type 0 where
  pub bytes : List ℕ
  pub device : ℕ
  pub inode : ℕ
  pub times : FileTimes

-- What the system does in one append: whether the file opens and is locked and unlocked, the new
-- id and the clock in milliseconds (`none` where it does not fit), how many bytes are written
-- before an error (`none` where all are), whether the file syncs, and its new times.
pub record Outcome : Type 0 where
  pub opened : Bool
  pub unlocked : Bool
  pub event_id : ℕ
  pub now : Option ℕ
  pub written : Option ℕ
  pub synced : Bool
  pub times : FileTimes

abbrev pub same_int : ℤ → ℤ → Bool
same_int (pos m) (pos n) = m == n
same_int (pos m) (negsuc n) = false
same_int (negsuc m) (pos n) = false
same_int (negsuc m) (negsuc n) = m == n

abbrev pub same_stamp : FileStamp → FileStamp → Bool
same_stamp a b =
    a.device == b.device
    && a.inode == b.inode
    && a.size == b.size
    && same_int a.modified b.modified
    && same_int a.changed.0 b.changed.0
    && same_int a.changed.1 b.changed.1

unfoldable pub file_stamp : LogFile → FileStamp
file_stamp f = record {
  device = f.device;
  inode = f.inode;
  size = length f.bytes;
  modified = f.times.modified;
  changed = f.times.changed;
}

-- `File::set_len`: a longer file is filled with zeros
unfoldable pub set_len : ℕ → List ℕ → List ℕ
set_len zero bs = []
set_len (suc n) [] = 0 ∷ set_len n []
set_len (suc n) (b ∷ bs) = b ∷ set_len n bs

-- `seek` to an offset and `write_all`
unfoldable pub write_at : ℕ → List ℕ → List ℕ → List ℕ
unfolding set_len
write_at offset new old = set_len offset old ++ new ++ drop (offset + length new) old

module _ {V : Type 0} where
  -- `entries.last().map_or(0, |entry| entry.epoch)`
  unfoldable pub last_epoch : List (LogEntry V) → ℕ
  last_epoch [] = 0
  last_epoch (e ∷ []) = e.epoch
  last_epoch (e ∷ e' ∷ es) = last_epoch (e' ∷ es)

  unfoldable pub head_of_read : LogFile → LogRead V → WriterHead
  unfolding last_epoch file_stamp
  head_of_read f r = record {
    stamp = file_stamp f;
    seq = length r.entries;
    epoch = last_epoch r.entries;
    valid_bytes = r.valid_bytes;
    hash = r.head_hash;
  }

unfoldable pub read_head : {N : Type 0} → Codec N → ℕ → LogFile → Result IoError WriterHead
unfolding read_file head_of_read
read_head c session f = do r ← read_file ⦃c = c⦄ session f.bytes; ok (head_of_read f r)

-- the retained head, or that of the file read again
unfoldable pub previous_head :
    {N : Type 0} → Codec N → ℕ → Option WriterHead → LogFile → Result IoError WriterHead
unfolding read_head file_stamp
previous_head c session none f = read_head c session f
previous_head c session (some h) f =
    let again = read_head c session f in if same_stamp h.stamp (file_stamp f) then ok h else again

-- `SessionLog` (less its path) and the retained head
pub record LogWriter : Type 0 where
  pub session_id : ℕ
  pub device_id : ℕ
  pub head : Option WriterHead

-- the bytes of the new line, and its hash
pub record NewLine : Type 0 where
  pub bytes : List ℕ
  pub hash : String

-- what `append_locked` has worked out when it first changes the file
pub record Prepared (N : Type 0) : Type 0 where
  pub previous : WriterHead
  pub entry : LogEntry (Value N)
  pub line : NewLine

-- `epoch.unwrap_or(previous.epoch)`
abbrev pub unwrap_or : Option ℕ → ℕ → ℕ
unwrap_or none n = n
unwrap_or (some m) n = m

-- `map_err(io::Error::other)`
abbrev pub as_other {ℓ} : {A : Type ℓ} → Result IoError A → Result IoError A
as_other (ok a) = ok a
as_other (err _) = err other

-- the bytes that reach the file
abbrev pub written_part : Option ℕ → List ℕ → List ℕ
written_part none bytes = bytes
written_part (some n) bytes = take n bytes

abbrev pub is_none : Option ℕ → Bool
is_none none = true
is_none (some _) = false

unfoldable pub write_line : LogFile → WriterHead → NewLine → Outcome → LogFile
unfolding set_len write_at
write_line f previous line o =
    let kept =
      if previous.stamp.size == previous.valid_bytes
      then f.bytes
      else set_len previous.valid_bytes f.bytes in
    record f {
      bytes = write_at previous.valid_bytes (written_part o.written line.bytes) kept;
      times = o.times;
    }

module _ {N : Type 0} ⦃c : Codec N⦄ where
  open c use {from_slice, to_value, to_vec}

  unfoldable pub encode_entry : LogEntry (Value N) → Result IoError NewLine
  unfolding validate_numbers entry_hash
  encode_entry e = do
    value ← ok_or (to_value e) other
    validate_numbers value
    text ← ok_or (to_vec e) other
    stored ← ok_or (from_slice (text ++ newline ∷ [])) other
    hash ← as_other (entry_hash stored)
    ok (record { bytes = text ++ newline ∷ []; hash = hash })

  unfoldable pub new_entry :
      LogWriter → WriterHead → ℕ → String → Value N → Outcome → ℕ → LogEntry (Value N)
  new_entry w previous epoch event_type body o now = record {
    event_id = o.event_id;
    session_id = w.session_id;
    epoch = epoch;
    seq = previous.seq + 1;
    prev_hash = previous.hash;
    ts_ms = now;
    event_type = event_type;
    body = body;
    device_id = w.device_id;
    sig = "";
  }

  unfoldable pub prepare :
      LogWriter → LogFile → Option ℕ → String → Value N → Outcome → Result IoError (Prepared N)
  unfolding previous_head encode_entry new_entry
  prepare w f asked event_type body o = do
    previous ← previous_head c w.session_id w.head f
    let epoch = unwrap_or asked previous.epoch
    guard (not (ltb epoch previous.epoch)) epoch_older
    now ← ok_or o.now other
    let entry = new_entry w previous epoch event_type body o now
    line ← encode_entry entry
    ok (record { previous = previous; entry = entry; line = line })

  unfoldable pub head_after : LogFile → Prepared N → WriterHead
  unfolding file_stamp
  head_after f p = record {
    stamp = file_stamp f;
    seq = p.entry.seq;
    epoch = p.entry.epoch;
    valid_bytes = p.previous.valid_bytes + length p.line.bytes;
    hash = p.line.hash;
  }

  unfoldable pub write_prepared :
      LogFile → Prepared N → Outcome → LogFile × Result IoError (LogEntry (Value N) × WriterHead)
  unfolding write_line head_after
  write_prepared f p o =
      let f' = write_line f p.previous p.line o in
      (f', if is_none o.written && o.synced then ok (p.entry, head_after f' p) else err failed)

  -- nothing is written where the preparation fails
  unfoldable pub write_if_ready :
      LogFile
      → Outcome
      → Result IoError (Prepared N)
      → LogFile × Result IoError (LogEntry (Value N) × WriterHead)
  unfolding write_prepared
  write_if_ready f o (err error) = (f, err error)
  write_if_ready f o (ok p) = write_prepared f p o

  unfoldable pub append_locked :
      LogWriter
      → LogFile
      → Option ℕ
      → String
      → Value N
      → Outcome
      → LogFile × Result IoError (LogEntry (Value N) × WriterHead)
  unfolding prepare write_if_ready
  append_locked w f asked event_type body o =
      write_if_ready f o (prepare w f asked event_type body o)

  -- the writer after the file is unlocked: its head is the new one, or none after an error
  unfoldable pub finish_append :
      LogWriter
      → Bool
      → Result IoError (LogEntry (Value N) × WriterHead)
      → LogWriter × Result IoError (LogEntry (Value N))
  finish_append w unlocked (err error) = (record w { head = none }, err error)
  finish_append w false (ok _) = (record w { head = none }, err failed)
  finish_append w true (ok (entry, head)) = (record w { head = some head }, ok entry)

  -- `LogWriter::append`: the file, the writer and the result
  unfoldable pub append :
      LogWriter
      → LogFile
      → Option ℕ
      → String
      → Value N
      → Outcome
      → LogFile × (LogWriter × Result IoError (LogEntry (Value N)))
  unfolding append_locked finish_append
  append w f asked event_type body o =
      let (f', result) = append_locked w f asked event_type body o in
      if o.opened then (f', finish_append w o.unlocked result) else (f, (w, err failed))
