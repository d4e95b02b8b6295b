-- ===== src/Manifest/Context.antt =====
-- security/tf_daemon/lib_manifest2.h and .c: the state of the reader, and what it reads.
use camerahal.Common.{ℕ, ◌-◌, Bool, true, false, ◌||◌, Option, none, some, List, ◌==◌, length}

pub data ManifestType : Type 0 where
  compiled source source_with_sections : ManifestType

abbrev pub is_compiled : ManifestType → Bool
is_compiled compiled = true
is_compiled _ = false

abbrev pub has_sections : ManifestType → Bool
has_sections source_with_sections = true
has_sections _ = false

-- LIB_MANIFEST2_CONTEXT. The content holds `nManifestLength` bytes.
pub record Context : Type 0 where
  pub content : List ℕ
  pub type : ManifestType
  pub offset : ℕ
  pub line : ℕ
  pub section_start : ℕ

-- The bytes between a pointer and the length beside it; no value for a section header.
pub record Item : Type 0 where
  pub name : List ℕ
  pub value : Option (List ℕ)

-- Whether a pointer to a value is NULL.
abbrev pub is_null : Option (List ℕ) → Bool
is_null none = true
is_null (some _) = false

unfoldable pub init_context : List ℕ → ManifestType → Context
init_context content type = record {
  content = content;
  type = type;
  offset = 0;
  line = 1;
  section_start = 0;
}

abbrev pub cr : ℕ
cr = 0x0D

abbrev pub lf : ℕ
lf = 0x0A

abbrev pub tab : ℕ
tab = 0x09

abbrev pub is_blank : ℕ → Bool
is_blank c = c == b' ' || c == tab

abbrev pub is_eol : ℕ → Bool
is_eol c = c == lf || c == cr

-- The offset of `pCurrent`, when `rest` is what remains.
abbrev pub offset_of : Context → List ℕ → ℕ
offset_of ctx rest = length ctx.content - length rest
