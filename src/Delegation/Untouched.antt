-- ===== src/Delegation/Untouched.antt =====
-- security/tf_daemon/delegation_client.c: an instruction on a partition leaves the other ones as they are.
use camerahal.Common.{ℕ, ◌*◌, ◌%◌, ◌^◌, ◌≡◌, refl, false, List, ◌==◌, arith}
use camerahal.Delegation.{
  Storage, Session, ReadResult, read_sector, end_of_file, read_fails, after_read, partition_destroy,
  partition_create, partition_open, partition_close, partition_read, partition_write,
  partition_set_size, partition_sync,
}
use camerahal.Delegation.Instructions.{word_at, execute}

-- The partition is open or closed as before, with the same size in the administrative data.
pub record Untouched {F : Type 0} (q : ℕ) (s s' : Session F) : Type 0 where
  pub opened : s'.opened q ≡ s.opened q
  pub size : s'.open_sizes q ≡ s.open_sizes q
  pub state : s'.error_states q ≡ s.error_states q

module _ {F : Type 0} (os : Storage F) (sector_size : ℕ) (q : ℕ) where
  create-Untouched :
      (s : Session F) (p : ℕ)
      → (p == q) ≡ false
      → Untouched q s (partition_create os sector_size s p)
  unfolding partition_create
  create-Untouched s p apart = record {
    opened = ground arith;
    size = ground arith;
    state = ground arith;
  }

  open-Untouched :
      (s : Session F) (p : ℕ) → (p == q) ≡ false → Untouched q s (partition_open os sector_size s p)
  unfolding partition_open
  open-Untouched s p apart = record {
    opened = ground arith;
    size = ground arith;
    state = ground arith;
  }

  close-Untouched :
      (s : Session F) (p : ℕ)
      → (p == q) ≡ false
      → Untouched q s (partition_close os sector_size s p)
  unfolding partition_close
  close-Untouched s p apart = record {
    opened = ground arith;
    size = ground arith;
    state = ground arith;
  }

  after_read-Untouched :
      (s : Session F) (offset : ℕ) (files : F) (r : ReadResult)
      → Untouched q s (after_read os sector_size s offset (files, r))
  unfolding after_read
  after_read-Untouched s offset files (read_sector bytes) = record {
    opened = refl;
    size = refl;
    state = refl;
  }
  after_read-Untouched s offset files (end_of_file bytes) = record {
    opened = refl;
    size = refl;
    state = refl;
  }
  after_read-Untouched s offset files (read_fails bytes e) = record {
    opened = refl;
    size = refl;
    state = refl;
  }

  read-Untouched :
      (s : Session F) (p sector offset : ℕ)
      → Untouched q s (partition_read os sector_size s p sector offset)
  unfolding partition_read
  read-Untouched s p sector offset =
      let files = (os.seek s.files p (sector * sector_size % 2 ^ 32)).0 in
      let u =
        after_read-Untouched s offset (os.read files p sector_size).0
          (os.read files p sector_size).1 in
      let a = u.opened in
      let b = u.size in
      let c = u.state in record { opened = ground arith; size = ground arith; state = ground arith }

  write-Untouched :
      (s : Session F) (p sector offset : ℕ)
      → Untouched q s (partition_write os sector_size s p sector offset)
  unfolding partition_write
  write-Untouched s p sector offset = record {
    opened = ground arith;
    size = ground arith;
    state = ground arith;
  }

  set_size-Untouched :
      (s : Session F) (p count : ℕ) → Untouched q s (partition_set_size os sector_size s p count)
  unfolding partition_set_size
  set_size-Untouched s p count = record {
    opened = ground arith;
    size = ground arith;
    state = ground arith;
  }

  sync-Untouched : (s : Session F) (p : ℕ) → Untouched q s (partition_sync os sector_size s p)
  unfolding partition_sync
  sync-Untouched s p = record { opened = ground arith; size = ground arith; state = ground arith }

  destroy-Untouched : (s : Session F) (p : ℕ) → Untouched q s (partition_destroy os sector_size s p)
  unfolding partition_destroy
  destroy-Untouched s p = record {
    opened = ground arith;
    size = ground arith;
    state = ground arith;
  }

  pub execute-Untouched :
      (s : Session F) (p operation : ℕ) (ws : List ℕ)
      → (p == q) ≡ false
      → Untouched q s (execute os sector_size s p operation ws)
  unfolding execute
  execute-Untouched s p operation ws apart =
      let u0 = create-Untouched s p apart in
      let u1 = open-Untouched s p apart in
      let u2 = read-Untouched s p (word_at ws 0) (word_at ws 1) in
      let u3 = write-Untouched s p (word_at ws 0) (word_at ws 1) in
      let u4 = set_size-Untouched s p (word_at ws 0) in
      let u5 = sync-Untouched s p in
      let u6 = close-Untouched s p apart in
      let u7 = destroy-Untouched s p in
      record {
        opened = ground (
          arith, u0.opened, u1.opened, u2.opened, u3.opened, u4.opened, u5.opened, u6.opened,
          u7.opened,
        );
        size =
            ground (arith, u0.size, u1.size, u2.size, u3.size, u4.size, u5.size, u6.size, u7.size);
        state =
            ground (
              arith, u0.state, u1.state, u2.state, u3.state, u4.state, u5.state, u6.state, u7.state,
            );
      }
