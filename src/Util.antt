-- ===== src/Util.antt =====
-- src/evcollect/util: the helpers that every component uses.
pub mod ReturnCode
pub mod StringUtil
pub mod Chars
pub mod Base64
pub mod Json
pub mod Sha1
pub mod FlagParser
pub mod Logging
pub mod Time
