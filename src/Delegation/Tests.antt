-- ===== src/Delegation/Tests.antt =====
-- Runs of the daemon on batches of instructions, and the theorems at concrete batches.
use camerahal.Common.{
  ℕ, ◌+◌, ◌≡◌, refl, not, ◌&&◌, Bool, true, false, Option, none, some, [], ◌∷◌, arith,
}
use camerahal.Delegation.{
  s_success, bad_state, item_not_found, enoent, end_of_file, Storage, Session, put_at,
  partition_destroy, partition_create, partition_open, partition_close, partition_read,
  partition_write, partition_set_size, partition_sync,
}
use camerahal.Delegation.Instructions.{
  independent, execute, specific, instruction, run_instructions, run_batch,
}
use camerahal.Delegation.Untouched.{Untouched}
use camerahal.Delegation.Isolation.{run_instructions-Untouched}
use camerahal.Delegation.Handles.{Protocol}
use camerahal.Delegation.Handles.Running.{run_instructions-Matches}
use camerahal.Delegation.Termination.{run_instructions-Returns}

-- A storage that counts the bytes that are put, without any file at the beginning.
abbrev no_files : Storage ℕ
no_files = record {
  create = λ f p. (f, none);
  open_file = λ f p. (f, some enoent);
  close = λ f p. f;
  unlink = λ f p. (f, some enoent);
  seek = λ f p at. (f, none);
  seek_end = λ f p. (f, none);
  end_of = λ f p. f;
  read = λ f p size. (f, end_of_file []);
  write = λ f p bytes. (f, none);
  put = λ f p. (f + 1, none);
  truncate = λ f p size. (f, none);
  flush = λ f p. (f, none);
  sync = λ f p. (f, none);
}

abbrev started : Session ℕ
started = record {
  files = 0;
  opened = λ p. false;
  workspace = λ a. 0;
  error = s_success;
  error_states = λ p. s_success;
  open_sizes = λ p. 0;
  sync_executed = 0;
}

-- Partition 1 could not be opened.
abbrev not_opened : Session ℕ
not_opened = record started { error_states = put_at started.error_states 1 item_not_found }

unfoldable daemon : Unit {0}
unfolding independent execute specific instruction run_instructions run_batch partition_destroy
    partition_create partition_open partition_close partition_read partition_write
    partition_set_size partition_sync
daemon = tt

-- Partition 2 is created, enlarged to three sectors of four bytes, and synchronised.
enlarged :
    run_batch no_files 4 30 started (0x21 ∷ 0x25 ∷ 3 ∷ 0x26 ∷ []) 16
    ≡ some (
        some (record started {
          files = 12;
          opened = put_at started.opened 2 true;
          error_states =
              put_at (put_at (put_at started.error_states 2 s_success) 2 s_success) 2 s_success;
          sync_executed = 1;
        }))
unfolding daemon
enlarged = refl

-- Behind an error the parameters of an instruction are taken for instructions: reading sector 240 of a
-- partition that could not be opened shuts the daemon down.
shut_down_by_sector : run_batch no_files 4 30 started (0x12 ∷ 0x13 ∷ 0xf0 ∷ 0 ∷ []) 16 ≡ some none
unfolding daemon
shut_down_by_sector = refl

closed_batch : run_instructions no_files 4 30 not_opened (0x17 ∷ []) 4 ≡ some (some not_opened)
unfolding daemon
closed_batch = refl

run_instructions-Untouched_example : Untouched 1 not_opened not_opened
run_instructions-Untouched_example =
    run_instructions-Untouched no_files 4 1 30 not_opened not_opened (0x17 ∷ []) 4 refl closed_batch

run_instructions-Returns_example :
    (r : Option (Session ℕ)) × (run_instructions no_files 4 17 started
        (0x12 ∷ 0x13 ∷ 0xf0 ∷ 0 ∷ [])
        16
      ≡ some r)
run_instructions-Returns_example =
    run_instructions-Returns no_files 4 17 started (0x12 ∷ 0x13 ∷ 0xf0 ∷ 0 ∷ []) 16 (omega arith)

-- Files that say whether they were used as they should be.
abbrev Watched : Type 0
Watched = (ℕ → Bool) × Bool

abbrev used : Watched → ℕ → Watched
used f p = (f.0, f.1 && f.0 p)

abbrev unused : Watched → ℕ → Watched
unused f p = (f.0, f.1 && not (f.0 p))

abbrev watched : Storage Watched
watched = record {
  create = λ f p. ((put_at f.0 p true, f.1 && not (f.0 p)), none);
  open_file = λ f p. ((put_at f.0 p true, f.1 && not (f.0 p)), none);
  close = λ f p. (put_at f.0 p false, f.1 && f.0 p);
  unlink = λ f p. (unused f p, none);
  seek = λ f p at. (used f p, none);
  seek_end = λ f p. (used f p, none);
  end_of = λ f p. 0;
  read = λ f p size. (used f p, end_of_file []);
  write = λ f p bytes. (used f p, none);
  put = λ f p. (used f p, none);
  truncate = λ f p size. (used f p, none);
  flush = λ f p. (used f p, none);
  sync = λ f p. (used f p, none);
}

abbrev Watches : Watched → (ℕ → Bool) → Type 0
Watches f o = ((p : ℕ) → f.0 p ≡ o p) × (f.1 ≡ true)

used-Watches :
    (f : Watched) (o : ℕ → Bool) (p : ℕ) → Watches f o → o p ≡ true → Watches (used f p) o
used-Watches f o p m e = let k = m.0 p in let w = m.1 in (m.0, ground arith)

unused-Watches :
    (f : Watched) (o : ℕ → Bool) (p : ℕ) → Watches f o → o p ≡ false → Watches (unused f p) o
unused-Watches f o p m e = let k = m.0 p in let w = m.1 in (m.0, ground arith)

set-Watches :
    (f : Watched) (o : ℕ → Bool) (p : ℕ) (b : Bool)
    → Watches f o
    → f.1 ≡ true
    → Watches (put_at f.0 p b, f.1) (put_at o p b)
set-Watches f o p b m e = ((λ q. let k = m.0 q in ground arith), e)

watched-Protocol : Protocol watched Watches
watched-Protocol = record {
  creates =
      λ f o p m e. let k = unused-Watches f o p m e in set-Watches (unused f p) o p true k k.1;
  opens =
      λ f o p m e g. let k = unused-Watches f o p m e in set-Watches (unused f p) o p true k k.1;
  opens_not = λ f o p m e g. absurd (let h : true ≡ false = g in cc);
  unlinks = λ f o p m e. unused-Watches f o p m e;
  closes = λ f o p m e. let k = used-Watches f o p m e in set-Watches (used f p) o p false k k.1;
  seeks = λ f o p at m e. used-Watches f o p m e;
  seeks_end = λ f o p m e. used-Watches f o p m e;
  reads = λ f o p size m e. used-Watches f o p m e;
  writes = λ f o p bytes m e. used-Watches f o p m e;
  puts = λ f o p m e. used-Watches f o p m e;
  truncates = λ f o p size m e. used-Watches f o p m e;
  flushes = λ f o p m e. used-Watches f o p m e;
  syncs = λ f o p m e. used-Watches f o p m e;
}

abbrev watched_start : Session Watched
watched_start = record {
  files = ((λ p. false), true);
  opened = λ p. false;
  workspace = λ a. 0;
  error = s_success;
  error_states = λ p. s_success;
  open_sizes = λ p. 0;
  sync_executed = 0;
}

-- Partition 2 is created and synchronised, a second creation is refused.
abbrev watched_end : Session Watched
watched_end = record watched_start {
  files = (put_at (λ p. false) 2 true, true);
  opened = put_at (λ p. false) 2 true;
  error = bad_state;
  error_states = put_at (put_at (put_at (λ p. s_success) 2 s_success) 2 s_success) 2 bad_state;
  sync_executed = 1;
}

watched_run :
    run_instructions watched 4 30 watched_start (0x21 ∷ 0x26 ∷ 0x21 ∷ []) 12
    ≡ some (some watched_end)
unfolding daemon
watched_run = refl

run_instructions-Matches_example : Watches watched_end.files watched_end.opened
run_instructions-Matches_example =
    run_instructions-Matches watched 4 Watches watched-Protocol 30 watched_start watched_end
      (0x21 ∷ 0x26 ∷ 0x21 ∷ []) 12 ((λ p. refl), refl) watched_run
