-- ===== src/Fluxctl.antt =====
-- fluxctl: the commands by which an operator defines services and the rules that select their
-- containers.
pub mod Selectors
pub mod Commands
pub mod Query
