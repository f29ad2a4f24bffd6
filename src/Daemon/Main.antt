-- ===== src/Daemon/Main.antt =====
-- `main` of src/evcollect/evcollectd.cc, from the command line to the exit status.
pub mod Refused
mod Tests
use evcollect.Prelude.{
  ℕ, Bool, true, false, ◌&&◌, ◌||◌, Option, none, some, List, [], ◌∷◌, ◌++◌, Bytes, codes, str_eq,
  if◌then◌else◌,
}
use evcollect.Events.{ProcessConfig}
use evcollect.Config.Load.{load_config}
use evcollect.Util.ReturnCode.{ReturnCode, success, error, is_success}
use evcollect.Util.FlagParser.{FlagParser, is_set, get_string, get_strings}
use evcollect.Util.FlagParser.Argv.{parse_argc_argv}
use evcollect.Util.Logging.{Logger, fatal, info, new_logger, log_message}
use evcollect.Service.{Service}
use evcollect.Service.Setup.{destroy_service}
use evcollect.Service.Run.{Turn, Step, stopped, went_on, out_of_fuel, run}
use evcollect.Daemon.Flags.{LogSystem, daemon_flags, read_at, help_header, usage, setup_logging}
use evcollect.Daemon.PidFile.{FileSystem, write_pidfile, release_pidfile}
use evcollect.Daemon.Setup.{ServiceSystem, Progress, setup_service}

-- Everything that `main` calls and that is not of this program. `daemon_ok` is `daemon(3)`.
pub record System (W : Type 0) : Type 0 where
  pub log_system : LogSystem W
  pub file_system : FileSystem W
  pub service_system : ServiceSystem W
  pub handle_signals : W → W
  pub ignore_signals : W → W
  pub curl_global_init : W → W
  pub curl_global_cleanup : W → W
  pub daemon_ok : W → W × Bool
  pub version : Bytes

-- `exited`: the exit status, with the world. `aborted`: an assertion failed. `running`: the turns are over and
-- the service still runs, or a plugin has more events than the fuel allows.
pub data Exit (W : Type 0) : Type 0 where
  exited : ℕ → W → Exit W
  aborted : W → Exit W
  running : Exit W

module _ {W : Type 0} (sys : System W) where
  -- `daemonize`.
  pub daemonize : W → W × ReturnCode
  daemonize w =
      let (w', ok) = sys.daemon_ok w in
      (w', if ok then success else error (codes "INIT_FAIL") (codes "daemon() failed"))

  -- From the end of the service on.
  shut_down : Logger W → Bytes → Option ℕ → ReturnCode → Service W → W → Exit W
  unfolding destroy_service release_pidfile
  shut_down logger pidfile_path pidfile_fd rc s w =
      let w1 =
        if is_success rc
        then w
        else log_message fatal (codes "error: $0") (rc.message ∷ []) logger w in
      let w2 = sys.ignore_signals (log_message info (codes "Exiting...") [] logger w1) in
      let w3 = release_pidfile sys.file_system pidfile_path pidfile_fd (destroy_service s w2) in
      exited (if is_success rc then 0 else 1) (sys.curl_global_cleanup w3)

  abbrev after_run : Logger W → Bytes → Option ℕ → Step W → Exit W
  after_run logger pidfile_path pidfile_fd r = elim r [
    | stopped s w ↦ shut_down logger pidfile_path pidfile_fd success s w
    | went_on s w ↦ running
    | out_of_fuel ↦ running
  ]

  -- The service is set up: `daemonize`, the pid file, the loop, and the end.
  serve : ℕ → List Turn → Logger W → Bool → Bytes → Progress W → Exit W
  unfolding daemonize write_pidfile run shut_down
  serve fuel turns logger daemon pidfile_path ((s, w), rc) =
      let (w1, rc1) = if is_success rc && daemon then daemonize w else (w, rc) in
      let (w2, (rc2, fd)) = write_pidfile sys.file_system pidfile_path rc1 w1 in
      if is_success rc2
      then after_run logger pidfile_path fd
          (run fuel turns s (log_message info (codes "Starting...") [] logger w2))
      else shut_down logger pidfile_path fd rc2 s w2

  module _ (used_at : Bytes → ℕ) (fuel : ℕ) (turns : List Turn) (flags : FlagParser)
      (logger : Logger W) where
    abbrev string_flag : Bytes → W → (Bytes → Exit W) → Exit W
    string_flag name w next = elim (get_string (read_at used_at name) flags) [
      | none ↦ aborted w
      | some value ↦ next value
    ]

    abbrev fails : Bytes → List Bytes → W → Exit W
    fails message args w = exited 1 (log_message fatal message args logger w)

    -- From a configuration that has been read.
    configured : ProcessConfig → W → Exit W
    unfolding get_string get_strings is_set setup_service serve
    configured conf w =
        let with_spool_dir : Bytes → Exit W = λ spool_dir. (elim spool_dir [
          | [] ↦ fails (codes "error: --spool_dir is required") [] w
          | c ∷ cs ↦ elim (get_strings (read_at used_at (codes "plugin")) flags) [
            | none ↦ aborted w
            | some plugins ↦ string_flag (codes "pidfile") w λ pidfile_path.
                serve fuel turns logger (is_set (read_at used_at (codes "daemonize")) flags)
                  pidfile_path
                  (setup_service sys.service_system
                    (record conf {
                      spool_dir = c ∷ cs;
                      load_plugins = conf.load_plugins ++ plugins;
                    })
                    w)
          ]
        ]) in
        if is_set (read_at used_at (codes "spool_dir")) flags
        then string_flag (codes "spool_dir") w with_spool_dir
        else with_spool_dir conf.spool_dir

    -- From the parsed flags and the logger on.
    started : W → Exit W
    unfolding get_string is_set load_config configured
    started w0 =
        let version = is_set (read_at used_at (codes "version")) flags in
        let help = is_set (read_at used_at (codes "help")) flags in
        let w1 = if help || version then sys.log_system.cerr (help_header sys.version) w0 else w0 in
        if version
        then exited 0 w1
        else if help
        then exited 0 (sys.log_system.cerr usage w1)
        else let w2 = sys.curl_global_init w1 in
          string_flag (codes "plugin_path") w2 λ plugin_path.
            string_flag (codes "config") w2 λ config_path. (elim config_path [
              | [] ↦ fails (codes "error: --config is required") [] w2
              | c ∷ cs ↦
                  let (conf, rc) = load_config (c ∷ cs) (record {
                    event_bindings = [];
                    target_bindings = [];
                    spool_dir = [];
                    plugin_dir = plugin_path;
                    load_plugins = [];
                  }) in
                  if is_success rc
                  then configured conf w2
                  else fails (codes "invalid config: $0") (rc.message ∷ []) w2
            ])

  abbrev logging : (Bytes → ℕ) → ℕ → List Turn → FlagParser → Option (Logger W) × W → Exit W
  logging used_at fuel turns flags (none, w) = aborted w
  logging used_at fuel turns flags (some logger, w) = started used_at fuel turns flags logger w

  -- `main`. The texts that define the flags stand where `defined_at` says, those that read them where `used_at`
  -- says.
  pub main : (Bytes → ℕ) → (Bytes → ℕ) → ℕ → List Turn → List Bytes → W → Exit W
  unfolding daemon_flags parse_argc_argv setup_logging started
  main defined_at used_at fuel turns argv w0 =
      let w = sys.handle_signals w0 in
      let (flags, rc) = parse_argc_argv argv (daemon_flags defined_at) in
      if is_success rc
      then logging used_at fuel turns flags (setup_logging sys.log_system used_at flags w)
      else exited 1 (log_message fatal rc.message [] new_logger w)
