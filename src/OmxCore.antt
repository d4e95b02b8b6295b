-- ===== src/OmxCore.antt =====
-- domx/omx_core/src/OMX_Core.c: the core that loads OpenMAX components and lists their roles.
pub mod Errors
pub mod Registry
pub mod Handles
pub mod Tunnel
pub mod Tests
