-- ===== src/Manifest.antt =====
-- security/tf_daemon/lib_manifest2.c: the reader of manifests and configuration files.
pub mod Scanner
pub mod Chars
pub mod Utf8
pub mod Context
pub mod Loops
pub mod Reader
pub mod Items
pub mod Tests
pub mod Witnesses
