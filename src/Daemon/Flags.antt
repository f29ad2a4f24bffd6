-- ===== src/Daemon/Flags.antt =====
-- The command line flags of `main` in src/evcollect/evcollectd.cc, and what it sets up from them for logging.
use evcollect.Prelude.{
  ℕ, false, not, ◌&&◌, Option, none, some, [], ◌∷◌, ◌++◌, Bytes, codes, if◌then◌else◌,
}
use evcollect.Util.FlagParser.{
  FlagParser, FlagType, t_switch, t_string, Literal, new_flag_parser, define_flag, is_set,
  get_string,
}
use evcollect.Util.Logging.{
  Logger, info, new_logger, str_to_log_level, set_minimum_log_level, log_to_stderr, log_to_syslog,
}
use evcollect.Util.StringUtil.{format}

module _ (defined_at : Bytes → ℕ) where
  abbrev flag_of : Bytes → FlagType → Option Bytes → Option Bytes → FlagParser → FlagParser
  flag_of name flag_type shortopt default_value =
      define_flag (record { address = defined_at name; text = name }) flag_type false shortopt
        default_value

  -- The flags, in the order of the source. The text of a flag stands at an address.
  unfoldable pub daemon_flags : FlagParser
  unfolding define_flag new_flag_parser
  daemon_flags = flag_of (codes "nolog_to_stderr") t_switch none none (
      flag_of (codes "log_to_syslog") t_switch none none (
        flag_of (codes "pidfile") t_string none none (
          flag_of (codes "daemonize") t_switch none none (
            flag_of (codes "loglevel") t_string none (some (codes "INFO")) (
              flag_of (codes "plugin_path") t_string (some (codes "P"))
                (some (codes "/usr/local/lib/evcollect/plugins"))
                (flag_of (codes "plugin") t_string (some (codes "p")) none (
                  flag_of (codes "config") t_string (some (codes "c")) none (
                    flag_of (codes "spool_dir") t_string (some (codes "s")) none (
                      flag_of (codes "version") t_switch (some (codes "V")) none (
                        flag_of (codes "help") t_switch (some (codes "?")) none
                          new_flag_parser))))))))))

-- A text of the source where a flag is read stands at an address too.
abbrev pub read_at : (Bytes → ℕ) → Bytes → Literal
read_at used_at name = record { address = used_at name; text = name }

pub help_header : Bytes → Bytes
help_header version =
    format (codes "evcollectd $0\nCopyright (c) 2016, DeepCortex GmbH. All rights reserved.\n\n")
      (version ∷ [])

pub usage : Bytes
usage =
    codes "Usage: $ evcollectd [OPTIONS]\n\n"
    ++ (codes "   -s, --spool_dir <dir>     Where to store temporary files\n"
        ++ (codes "   -c, --config <file>       Load config from file\n"
            ++ (codes "   -p, --plugin <path>       Load a plugin (.so)\n"
                ++ (codes "   -P, --plugin_path <dir>   Set the plugin search path\n"
                    ++ (codes "   --daemonize               Daemonize the server\n"
                        ++ (codes "   --pidfile <file>          Write a PID file\n"
                            ++ (codes
                                  "   --loglevel <level>        Minimum log level (default: INFO)\n"
                                ++ (codes "   --[no]log_to_syslog       Do[n't] log to syslog\n"
                                    ++ (codes "   --[no]log_to_stderr       Do[n't] log to stderr\n"
                                        ++ (codes
                                              "   -?, --help                Display this help text and exit\n"
                                            ++ (codes
                                                  "   -v, --version             Display the version of this binary and exit\n"
                                                ++ (codes
                                                      "                                                       \n"
                                                    ++ (codes
                                                          "Examples:                                              \n"
                                                        ++ codes
                                                            "   $ evcollectd --daemonize --config /etc/evcollect.conf\n")))))))))))))

-- What the logging functions use of the system.
pub record LogSystem (W : Type 0) : Type 0 where
  pub now : W → Bytes
  pub cerr : Bytes → W → W
  pub openlog : Bytes → W → W
  pub syslog : Bytes → W → W

module _ {W : Type 0} (sys : LogSystem W) (used_at : Bytes → ℕ) where
  abbrev at_least : Option Bytes → Logger W → Option (Logger W)
  at_least name l = elim name [
    | none ↦ none
    | some text ↦ elim (str_to_log_level text) [
      | none ↦ none
      | some level ↦ some (set_minimum_log_level level l)
    ]
  ]

  abbrev stderr_first : FlagParser → Logger W → Option (Logger W)
  stderr_first flags l =
      if not (is_set (read_at used_at (codes "nolog_to_stderr")) flags)
        && not (is_set (read_at used_at (codes "daemonize")) flags)
      then log_to_stderr sys.now sys.cerr (codes "evcollectd") info l
      else some l

  abbrev syslog_second : FlagParser → Logger W → W → Option (Logger W) × W
  syslog_second flags l w =
      if is_set (read_at used_at (codes "log_to_syslog")) flags
      then log_to_syslog sys.openlog sys.syslog (codes "evcollectd") info l w
      else (some l, w)

  -- The logger and the world after `main` set up logging; no logger where an assertion fails.
  unfoldable pub setup_logging : FlagParser → W → Option (Logger W) × W
  unfolding is_set get_string new_logger str_to_log_level log_to_stderr log_to_syslog
  setup_logging flags w = elim (stderr_first flags new_logger) [
    | none ↦ (none, w)
    | some l ↦
        let (o, w') = syslog_second flags l w in
        (
          elim o [
            | none ↦ none
            | some l' ↦ at_least (get_string (read_at used_at (codes "loglevel")) flags) l'
          ],
          w',
        )
  ]
