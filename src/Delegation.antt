-- ===== src/Delegation.antt =====
-- security/tf_daemon/delegation_client.c: the partitions that the daemon keeps for the secure world, and the
-- instructions on them.
pub mod Instructions
pub mod Handles
pub mod Untouched
pub mod Isolation
pub mod Termination
pub mod Tests
use camerahal.Common.{
  ℕ, zero, suc, ◌+◌, ◌-◌, ◌*◌, ◌/◌, ◌%◌, ◌^◌, Bool, true, false, not, Option, none, some, List, [],
  ◌∷◌, ltb, ◌==◌, if◌then◌else◌,
}

-- The S_RESULT codes, and errno.
pub data ServiceResult : Type 0 where
  s_success bad_parameters no_more_handles item_not_found item_exists no_space out_of_memory
        unreachable bad_state :
      ServiceResult

pub data Errno : Type 0 where
  einval emfile enoent eexist enospc enomem ebadf eacces other_errno : Errno

abbrev pub errno2serror : Errno → ServiceResult
errno2serror einval = bad_parameters
errno2serror emfile = no_more_handles
errno2serror enoent = item_not_found
errno2serror eexist = item_exists
errno2serror enospc = no_space
errno2serror enomem = out_of_memory
errno2serror ebadf = unreachable
errno2serror eacces = unreachable
errno2serror other_errno = unreachable

-- The outcome of a read: the sector, or the bytes that were read up to the end of the file or an error.
pub data ReadResult : Type 0 where
  read_sector : List ℕ → ReadResult
  end_of_file : List ℕ → ReadResult
  read_fails : List ℕ → Errno → ReadResult

-- The files of the system, by the number of the partition. A call gives `none` when it succeeds. `end_of` is
-- what ftell gives at the end of the file.
pub record Storage (F : Type 0) : Type 0 where
  pub create : F → ℕ → F × Option Errno
  pub open_file : F → ℕ → F × Option Errno
  pub close : F → ℕ → F
  pub unlink : F → ℕ → F × Option Errno
  pub seek : F → ℕ → ℕ → F × Option Errno
  pub seek_end : F → ℕ → F × Option Errno
  pub end_of : F → ℕ → ℕ
  pub read : F → ℕ → ℕ → F × ReadResult
  pub write : F → ℕ → List ℕ → F × Option Errno
  pub put : F → ℕ → F × Option Errno
  pub truncate : F → ℕ → ℕ → F × Option Errno
  pub flush : F → ℕ → F × Option Errno
  pub sync : F → ℕ → F × Option Errno

-- The state: the files, which of g_pPartitionFiles are not NULL, the workspace, nError, and the
-- administrative data.
pub record Session (F : Type 0) : Type 0 where
  pub files : F
  pub opened : ℕ → Bool
  pub workspace : ℕ → ℕ
  pub error : ServiceResult
  pub error_states : ℕ → ServiceResult
  pub open_sizes : ℕ → ℕ
  pub sync_executed : ℕ

abbrev pub is_success : ServiceResult → Bool
is_success s_success = true
is_success bad_parameters = false
is_success no_more_handles = false
is_success item_not_found = false
is_success item_exists = false
is_success no_space = false
is_success out_of_memory = false
is_success unreachable = false
is_success bad_state = false

abbrev pub result_of : Option Errno → ServiceResult
result_of none = s_success
result_of (some e) = errno2serror e

abbrev pub succeeds : Option Errno → Bool
succeeds none = true
succeeds (some e) = false

abbrev pub put_at : {A : Type 0} → (ℕ → A) → ℕ → A → ℕ → A
put_at f p v q = if p == q then v else f q

-- The bytes of a sector in the workspace.
abbrev pub bytes_at : (ℕ → ℕ) → ℕ → ℕ → List ℕ
bytes_at w offset zero = []
bytes_at w offset (suc n) = w offset ∷ bytes_at w (offset + 1) n

abbrev pub copied : (ℕ → ℕ) → ℕ → List ℕ → ℕ → ℕ
copied w offset [] = w
copied w offset (b ∷ bs) = copied (put_at w offset b) (offset + 1) bs

module _ {F : Type 0} (os : Storage F) (sector_size : ℕ) where
  unfoldable pub partition_destroy : Session F → ℕ → Session F
  partition_destroy s p =
      let (files, r) = os.unlink s.files p in
      if s.opened p
      then record s { error = bad_state }
      else record s { files = files; error = result_of r }

  unfoldable pub partition_create : Session F → ℕ → Session F
  partition_create s p =
      let (files, r) = os.create s.files p in
      if s.opened p
      then record s { error = bad_state }
      else record s { files = files; opened = put_at s.opened p (succeeds r); error = result_of r }

  -- The size goes to the administrative data when the partition is opened.
  unfoldable pub partition_open : Session F → ℕ → Session F
  partition_open s p =
      let (files, r) = os.open_file s.files p in
      let at_end = (os.seek_end files p).0 in
      let size = os.end_of at_end p / sector_size in
      if s.opened p
      then record s { error = bad_state }
      else if succeeds r
      then record s {
        files = at_end;
        opened = put_at s.opened p true;
        error = s_success;
        open_sizes = put_at s.open_sizes p size;
      }
      else record s { files = files; error = result_of r }

  unfoldable pub partition_close : Session F → ℕ → Session F
  partition_close s p =
      if s.opened p
      then record s {
        files = os.close s.files p;
        opened = put_at s.opened p false;
        error = s_success;
      }
      else record s { error = bad_state }

  unfoldable pub after_read : Session F → ℕ → F × ReadResult → Session F
  after_read s offset (files, read_sector bytes) = record s {
    files = files;
    workspace = copied s.workspace offset bytes;
    error = s_success;
  }
  after_read s offset (files, end_of_file bytes) = record s {
    files = files;
    workspace = copied s.workspace offset bytes;
    error = item_not_found;
  }
  after_read s offset (files, read_fails bytes e) = record s {
    files = files;
    workspace = copied s.workspace offset bytes;
    error = errno2serror e;
  }

  -- The place of a sector is a 32-bit number.
  unfoldable pub partition_read : Session F → ℕ → ℕ → ℕ → Session F
  unfolding after_read
  partition_read s p sector offset =
      let (files, r) = os.seek s.files p (sector * sector_size % 2 ^ 32) in
      let done = after_read s offset (os.read files p sector_size) in
      if not (s.opened p)
      then record s { error = bad_state }
      else if succeeds r
      then done
      else record s { files = files; error = result_of r }

  unfoldable pub partition_write : Session F → ℕ → ℕ → ℕ → Session F
  partition_write s p sector offset =
      let (files, r) = os.seek s.files p (sector * sector_size % 2 ^ 32) in
      let (files', r') = os.write files p (bytes_at s.workspace offset sector_size) in
      if not (s.opened p)
      then record s { error = bad_state }
      else if succeeds r
      then record s { files = files'; error = result_of r' }
      else record s { files = files; error = result_of r }

  -- The loop that makes a partition larger.
  unfoldable pub enlarge : ℕ → F → ℕ → F × Option Errno
  enlarge zero files p = (files, none)
  enlarge (suc bytes) files p =
      let (files', r) = os.put files p in
      let rest = enlarge bytes files' p in if succeeds r then rest else (files', r)

  unfoldable pub partition_set_size : Session F → ℕ → ℕ → Session F
  unfolding enlarge
  partition_set_size s p count =
      let (files, r) = os.seek_end s.files p in
      let current = os.end_of files p / sector_size in
      let larger = enlarge ((count - current) * sector_size % 2 ^ 32) files p in
      let smaller = os.truncate files p (count * sector_size % 2 ^ 32) in
      if not (s.opened p)
      then record s { error = bad_state }
      else if not (succeeds r)
      then record s { files = files; error = result_of r }
      else if ltb current count
      then record s { files = larger.0; error = result_of larger.1 }
      else if ltb count current
      then record s { files = smaller.0; error = result_of smaller.1 }
      else record s { files = files; error = s_success }

  unfoldable pub partition_sync : Session F → ℕ → Session F
  partition_sync s p =
      let (files, r) = os.flush s.files p in
      let (files', r') = os.sync files p in
      if not (s.opened p)
      then record s { error = bad_state }
      else if succeeds r
      then record s {
        files = files';
        error = result_of r';
        sync_executed = if succeeds r' then s.sync_executed + 1 else s.sync_executed;
      }
      else record s { files = files; error = result_of r }
