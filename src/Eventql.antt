-- ===== src/Eventql.antt =====
-- plugins/eventql/eventql_plugin.cc: the output plugin that uploads events by HTTP. Its queue lies between
-- the service's thread and the upload thread.
pub mod Target
pub mod Threads
pub mod Interface
