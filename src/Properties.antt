-- ===== src/Properties.antt =====
-- security/tf_daemon/smc_properties_parser.c and smc_properties.c: the configuration of the daemon.
pub mod Strcmp
pub mod Memory
pub mod Threaded
pub mod Yacc
pub mod Lookup
pub mod Check
pub mod Tests
