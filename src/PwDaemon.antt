-- ===== src/PwDaemon.antt =====
-- The password daemon, core/modules/run-virt/pw_daemon.c: it keeps a user's password encrypted
-- under a random key, hands the keys to the user's own processes over a unix socket, and the
-- encrypted password to whoever presents the first key over UDP.
pub mod Keys
pub mod Serve
pub mod Udp
pub mod Daemon
pub mod Main
