-- ===== src/Delegation/Handles.antt =====
-- security/tf_daemon/delegation_client.c: the daemon uses files as their interface wants it.
pub mod Running
use camerahal.Common.{
  ℕ, zero, suc, ◌+◌, ◌-◌, ◌*◌, ◌/◌, ◌%◌, ◌^◌, ◌≡◌, refl, sym, ap, subst, ◌∙◌, inl, inr, Bool, true,
  false, not, Bool-cases, Option, none, some, List, [], ◌∷◌, ltb, ◌==◌, if◌then◌else◌, drop, arith,
}
use camerahal.Delegation.{
  ServiceResult, Storage, Session, ReadResult, read_sector, end_of_file, read_fails, is_success,
  succeeds, put_at, bytes_at, after_read, enlarge, partition_destroy, partition_create,
  partition_open, partition_close, partition_read, partition_write, partition_set_size,
  partition_sync,
}
use camerahal.Delegation.Instructions.{
  Next, ended, exits, goes_on, word_at, independent, parameters_of, execute, with_error_state,
  specific, instruction, continue, run_instructions, shutdown, notify,
}

-- The interface of the files: `Matches` says which files are open. A file that is closed may be created,
-- opened or removed; only one that is open may be used or closed.
pub record Protocol {F : Type 0} (os : Storage F) (Matches : F → (ℕ → Bool) → Type 0) : Type 0 where
  pub creates :
      (f : F) (o : ℕ → Bool) (p : ℕ)
      → Matches f o
      → o p ≡ false
      → Matches (os.create f p).0 (put_at o p (succeeds (os.create f p).1))
  pub opens :
      (f : F) (o : ℕ → Bool) (p : ℕ)
      → Matches f o
      → o p ≡ false
      → succeeds (os.open_file f p).1 ≡ true
      → Matches (os.open_file f p).0 (put_at o p true)
  pub opens_not :
      (f : F) (o : ℕ → Bool) (p : ℕ)
      → Matches f o
      → o p ≡ false
      → succeeds (os.open_file f p).1 ≡ false
      → Matches (os.open_file f p).0 o
  pub unlinks :
      (f : F) (o : ℕ → Bool) (p : ℕ) → Matches f o → o p ≡ false → Matches (os.unlink f p).0 o
  pub closes :
      (f : F) (o : ℕ → Bool) (p : ℕ)
      → Matches f o
      → o p ≡ true
      → Matches (os.close f p) (put_at o p false)
  pub seeks :
      (f : F) (o : ℕ → Bool) (p at : ℕ) → Matches f o → o p ≡ true → Matches (os.seek f p at).0 o
  pub seeks_end :
      (f : F) (o : ℕ → Bool) (p : ℕ) → Matches f o → o p ≡ true → Matches (os.seek_end f p).0 o
  pub reads :
      (f : F) (o : ℕ → Bool) (p size : ℕ)
      → Matches f o
      → o p ≡ true
      → Matches (os.read f p size).0 o
  pub writes :
      (f : F) (o : ℕ → Bool) (p : ℕ) (bytes : List ℕ)
      → Matches f o
      → o p ≡ true
      → Matches (os.write f p bytes).0 o
  pub puts : (f : F) (o : ℕ → Bool) (p : ℕ) → Matches f o → o p ≡ true → Matches (os.put f p).0 o
  pub truncates :
      (f : F) (o : ℕ → Bool) (p size : ℕ)
      → Matches f o
      → o p ≡ true
      → Matches (os.truncate f p size).0 o
  pub flushes :
      (f : F) (o : ℕ → Bool) (p : ℕ) → Matches f o → o p ≡ true → Matches (os.flush f p).0 o
  pub syncs : (f : F) (o : ℕ → Bool) (p : ℕ) → Matches f o → o p ≡ true → Matches (os.sync f p).0 o

module _ {F : Type 0} (os : Storage F) (sector_size : ℕ) (Matches : F → (ℕ → Bool) → Type 0)
    (laws : Protocol os Matches) where
  unfoldable pub Fits : Session F → Type 0
  Fits s = Matches s.files s.opened

  pub create-Fits : (s : Session F) (p : ℕ) → Fits s → Fits (partition_create os sector_size s p)
  unfolding Fits partition_create
  create-Fits s p m = elim (Bool-cases (s.opened p)) [
    | inl e ↦ rw e m
    | inr e ↦ let k = laws.creates s.files s.opened p m e in rw e k
  ]

  pub open-Fits : (s : Session F) (p : ℕ) → Fits s → Fits (partition_open os sector_size s p)
  unfolding Fits partition_open
  open-Fits s p m = elim (Bool-cases (s.opened p)) [
    | inl e ↦ rw e m
    | inr e ↦ elim (Bool-cases (succeeds (os.open_file s.files p).1)) [
      | inl f ↦
          let k = laws.opens s.files s.opened p m e f in
          let here : put_at s.opened p true p ≡ true = ground arith in
          let k' = laws.seeks_end (os.open_file s.files p).0 (put_at s.opened p true) p k here in
          rw (e, f) k'
      | inr f ↦ let k = laws.opens_not s.files s.opened p m e f in rw (e, f) k
    ]
  ]

  pub close-Fits : (s : Session F) (p : ℕ) → Fits s → Fits (partition_close os sector_size s p)
  unfolding Fits partition_close
  close-Fits s p m = elim (Bool-cases (s.opened p)) [
    | inl e ↦ let k = laws.closes s.files s.opened p m e in rw e k
    | inr e ↦ rw e m
  ]

  pub destroy-Fits : (s : Session F) (p : ℕ) → Fits s → Fits (partition_destroy os sector_size s p)
  unfolding Fits partition_destroy
  destroy-Fits s p m = elim (Bool-cases (s.opened p)) [
    | inl e ↦ rw e m
    | inr e ↦ let k = laws.unlinks s.files s.opened p m e in rw e k
  ]

  after_read-Fits :
      (s : Session F) (offset : ℕ) (files : F) (r : ReadResult)
      → Matches files s.opened
      → Fits (after_read os sector_size s offset (files, r))
  unfolding Fits after_read
  after_read-Fits s offset files (read_sector bytes) m = m
  after_read-Fits s offset files (end_of_file bytes) m = m
  after_read-Fits s offset files (read_fails bytes e) m = m

  pub read-Fits :
      (s : Session F) (p sector offset : ℕ)
      → Fits s
      → Fits (partition_read os sector_size s p sector offset)
  unfolding Fits partition_read
  read-Fits s p sector offset m = elim (Bool-cases (s.opened p)) [
    | inr e ↦ rw e m
    | inl e ↦
        let at = sector * sector_size % 2 ^ 32 in
        let k = laws.seeks s.files s.opened p at m e in
        let files = (os.seek s.files p at).0 in
        let k' = laws.reads files s.opened p sector_size k e in
        elim (Bool-cases (succeeds (os.seek s.files p at).1)) [
          | inl f ↦ rw (e, f) (after_read-Fits s offset _ (os.read files p sector_size).1 k')
          | inr f ↦ rw (e, f) k
        ]
  ]

  pub write-Fits :
      (s : Session F) (p sector offset : ℕ)
      → Fits s
      → Fits (partition_write os sector_size s p sector offset)
  unfolding Fits partition_write
  write-Fits s p sector offset m = elim (Bool-cases (s.opened p)) [
    | inr e ↦ rw e m
    | inl e ↦
        let at = sector * sector_size % 2 ^ 32 in
        let k = laws.seeks s.files s.opened p at m e in
        let files = (os.seek s.files p at).0 in
        let k' = laws.writes files s.opened p (bytes_at s.workspace offset sector_size) k e in
        elim (Bool-cases (succeeds (os.seek s.files p at).1)) [
          | inl f ↦ rw (e, f) k'
          | inr f ↦ rw (e, f) k
        ]
  ]

  pub sync-Fits : (s : Session F) (p : ℕ) → Fits s → Fits (partition_sync os sector_size s p)
  unfolding Fits partition_sync
  sync-Fits s p m = elim (Bool-cases (s.opened p)) [
    | inr e ↦ rw e m
    | inl e ↦
        let k = laws.flushes s.files s.opened p m e in
        let k' = laws.syncs (os.flush s.files p).0 s.opened p k e in
        elim (Bool-cases (succeeds (os.flush s.files p).1)) [
          | inl f ↦ rw (e, f) k'
          | inr f ↦ rw (e, f) k
        ]
  ]
