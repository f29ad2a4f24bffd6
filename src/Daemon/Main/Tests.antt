-- ===== src/Daemon/Main/Tests.antt =====
-- The daemon on a system that keeps what is written to stderr.
use evcollect.Prelude.{
  ℕ, ◌≡◌, ◌+◌, ◌*◌, refl, true, false, Option, none, some, List, [], ◌∷◌, ◌++◌, Bytes, codes, c_str,
  str_eq,
}
use evcollect.Util.ReturnCode.{success}
use evcollect.Util.Chars.{is_shell_safe}
use evcollect.Plugin.{SourcePlugin}
use evcollect.Daemon.Main.{System, Exit, exited, main}

abbrev address : Bytes → ℕ
address [] = 0
address (c ∷ cs) = c + 256 * address cs

abbrev logfile : SourcePlugin (List Bytes)
logfile = record {
  init = λ spool w. (w, success);
  free = λ w. w;
  attach = λ config w. (w, (success, 0));
  detach = λ userdata w. w;
  get_next_event = λ userdata out w. (w, (success, codes "e"));
  has_pending_event = λ userdata w. (w, false);
}

-- No plugin is there.
abbrev bare : System (List Bytes)
bare = record {
  log_system = record {
    now = λ w. codes "now";
    cerr = λ text w. w ++ text ∷ [];
    openlog = λ name w. w;
    syslog = λ text w. w;
  };
  file_system = record {
    open_file = λ path w. (w, some 3);
    strerror = λ w. [];
    lock = λ fd w. (w, true);
    truncate = λ fd w. (w, true);
    getpid = λ w. 1;
    write_all = λ fd text w. (w, true);
    unlink = λ path w. w;
    unlock = λ fd w. w;
    close = λ fd w. w;
  };
  service_system = record {
    logfile_plugin = logfile;
    stat_ok = λ path. false;
    plugin_name_of = λ path. none;
    load_library = λ name path pm w. ((pm, w), success);
    tick_read = λ w. 0;
  };
  handle_signals = λ w. w;
  ignore_signals = λ w. w;
  curl_global_init = λ w. w;
  curl_global_cleanup = λ w. w;
  daemon_ok = λ w. (w, true);
  version = codes "v";
}

abbrev status : Exit (List Bytes) → Option ℕ
status (exited n w) = some n
status _ = none

version_asked :
    status (main bare address address 1 [] (codes "evcollectd" ∷ codes "-V" ∷ []) []) ≡ some 0
unfolding main c_str str_eq
version_asked = refl

-- Without `--config` the status is 1, and so it is where a plugin of the configuration is not found.
no_config : status (main bare address address 1 [] (codes "evcollectd" ∷ []) []) ≡ some 1
unfolding main c_str str_eq
no_config = refl

no_plugin :
    status (
      main bare address address 1 []
        (codes "evcollectd" ∷ codes "-c" ∷ codes "a" ∷ codes "-s" ∷ codes "/tmp" ∷ [])
        [])
    ≡ some 1
unfolding main c_str str_eq is_shell_safe
no_plugin = refl
