-- ===== src/Cmd.antt =====
-- cmd/bscp: the commands `watch`, `get` and `pull`, without their flags and their printing.
pub mod Watch
pub mod Get
