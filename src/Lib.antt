-- ===== src/Lib.antt =====
-- Verification of evcollect, a daemon that collects events from source plugins at an interval and
-- hands them to output plugins.
--
-- The program reads a configuration (src/evcollect/config.cc), loads plugins
-- (src/evcollect/plugin.cc), and runs a service (src/evcollect/service.cc) that polls the sources
-- of each event and delivers what they give to the targets. src/evcollect/logfile.cc is a source
-- built in; plugins/eventql is an output plugin with a bounded queue and a thread that uploads.
--
--   Prelude    Boolean tests, lists on native numbers, text as bytes, a while loop on fuel
--   Events     the records of src/evcollect/evcollect.h and ProcessConfig of src/evcollect/config.h
--   Logfile    src/evcollect/logfile.cc: Input (readNextByte, readLine), Lines and Reading (what
--              readLines does), Checkpoint (the checkpoint file, getNextLine), Event (getNextEvent,
--              setRegex and the plugin)
--   Plugin     src/evcollect/plugin.cc: the interfaces SourcePlugin and OutputPlugin as records of
--              operations on a world, Map (PluginMap), Dynamic (plugins behind C functions)
--   Service    src/evcollect/service.cc: Process (processEvent, deliverEvent), Queue, Setup (addEvent,
--              addTarget, loadPlugin, the destructor; Balance: what is attached), Run (run, one
--              round at a time, and Refines: as a schedule without a queue)
--   Tailing    the service and the log file together: what a file holds arrives at a target
--   Eventql    plugins/eventql/eventql_plugin.cc: Target (emitEvent, uploadEvent, pluginAttach),
--              Threads (the queue between enqueueEvent, the upload thread and stopUploadThread),
--              Interface (the functions that the plugin registers, over all its targets)
--   Hostname   plugins/hostname/hostname_plugin.cc: the event that names the host
--   Daemon     src/evcollect/evcollectd.cc: Flags (the flags, the set-up of logging), Setup (of the
--              service; Configured and Released: to its end), PidFile, Main (main, from the
--              command line to the exit status)
--   Config     src/evcollect/config.cc: PropertyList (lookups), Lexer (ConfigLexer, one function
--              per method, nextToken is next_token), Parser (ConfigParser, methods in a monad
--              on the lexer and the configuration), Load (loadConfig)
--   Util       src/evcollect/util: ReturnCode, StringUtil, Chars (on single bytes), Json, Base64,
--              Sha1 (SHA1Hash), FlagParser (its methods; Argv: parseArgv),
--              Logging (the logger and its targets), Time (the clocks and UnixTime)
--
-- Text is a list of bytes (std::string). Loops run on fuel or on the unread input: the lexer takes
-- one unit for each unread character, and the parser one for each token that may follow; the
-- theorems on termination show that this is enough. processEvent has fuel for its rounds, as a
-- plugin may have an event always; a theorem takes the plugins to come to an end where it needs
-- that, and for a log file it is shown. The service runs for a list of turns, each with what
-- select answers to the time it is given, and what the clocks read. Reads of files, of the clock
-- and of the network are arguments.
--
-- Not modelled: what is written with floating point numbers (formatNumberMetric, daysFromNow), the
-- hash function of sha1.cc and the test harness in testing.cc, which are copies of other projects,
-- terminal colours, and the build.
pub mod Config
pub mod Daemon
pub mod Eventql
pub mod Events
pub mod Hostname
pub mod Logfile
pub mod Plugin
mod Prelude
pub mod Service
pub mod Tailing
pub mod Util
