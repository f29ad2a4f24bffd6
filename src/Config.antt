-- ===== src/Config.antt =====
-- src/evcollect/config.cc and config.h: the configuration, its lexer and its parser.
pub mod PropertyList
pub mod Lexer
pub mod Parser
pub mod Load
