-- ===== src/G04.antt =====
-- G04.h and G04.cpp: the variables, the configuration and the commands of the shell.
pub mod State
pub mod Conf
pub mod Commands
pub mod Completion
pub mod Shell
pub mod Session
