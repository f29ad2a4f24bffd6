-- ===== src/Daemon/Main/Refused.antt =====
-- What `main` does with flags that it refuses.
use evcollect.Prelude.{ℕ, ◌≡◌, refl, ap, ◌∙◌, false, Bytes, List, [], if◌then◌else◌}
use evcollect.Util.ReturnCode.{is_success}
use evcollect.Util.FlagParser.Argv.{parse_argc_argv}
use evcollect.Util.Logging.{fatal, new_logger, log_message, log, log_loop, level_value}
use evcollect.Service.Run.{Turn}
use evcollect.Daemon.Flags.{daemon_flags, setup_logging}
use evcollect.Daemon.Main.{System, exited, logging, main}

nobody : {W : Type 0} (message : Bytes) (w : W) → log_message fatal message [] new_logger w ≡ w
unfolding log_message log log_loop level_value new_logger
nobody message w = refl

module _ {W : Type 0} (sys : System W) (defined_at used_at : Bytes → ℕ) (fuel : ℕ)
    (turns : List Turn) (argv : List Bytes) (w : W) where
  -- Where the command line is refused, the status is 1, and nobody is told: the message goes to a logger that has no
  -- targets yet.
  main-refused :
      is_success (parse_argc_argv argv (daemon_flags defined_at)).1 ≡ false
      → main sys defined_at used_at fuel turns argv w ≡ exited 1 (sys.handle_signals w)
  unfolding main
  main-refused e =
      let r = parse_argc_argv argv (daemon_flags defined_at) in
      ap
        (λ b.
          if b
          then logging sys used_at fuel turns r.0
              (setup_logging sys.log_system used_at r.0 (sys.handle_signals w))
          else exited 1 (log_message fatal r.1.message [] new_logger (sys.handle_signals w)))
        e
      ∙ ap (exited 1) (nobody r.1.message (sys.handle_signals w))
