-- ===== src/Serve/Main/Laws.antt =====
-- How the process ends.
use hyperfleet_sentinel.Base.{
  String, ◌≡◌, ◌≢◌, ◌⊎◌, inl, inr, refl, Option, none, some, List, [], Result, ok, err, ◌+++◌,
}
use hyperfleet_sentinel.Config.{SentinelConfig}
use hyperfleet_sentinel.Config.Loading.{Viper, FlagSet}
use hyperfleet_sentinel.Serve.{Machine}
use hyperfleet_sentinel.Serve.Actions.{Action, Failure, returned, panicked}
use hyperfleet_sentinel.Serve.Command.{serve_command-Returns}
use hyperfleet_sentinel.Serve.Flags.{Command, serve, config_dump, version, flags_of}
use hyperfleet_sentinel.Serve.Laws.{due_afters}
use hyperfleet_sentinel.Serve.Main.{
  Parsed, help, invalid, flags, Cobra, Build, Run, exited, Process, command_line, finish,
  run_command, run_parsed, run_found, flag_value, of_dump, execute, main,
}

-- A run that closes what it opens and does not panic.
abbrev IsClean : Run → Type 0
IsClean r = (due_afters r.actions (some []) ≡ some []) × (r.result ≢ err panicked)

module _ (m : Machine) (viper : Viper) (marshal : SentinelConfig → Result String String)
    (build : Build) (cobra : Cobra) where
  of_dump-IsClean : (r : Result String String) → IsClean (of_dump r)
  of_dump-IsClean (ok text) = (refl, λ h. cc)
  of_dump-IsClean (err e) = (refl, λ h. cc)

  run_command-IsClean :
      (c : Command) (fs : FlagSet) → IsClean (run_command m viper marshal build cobra c fs)
  unfolding run_command
  run_command-IsClean serve fs = serve_command-Returns m viper (flag_value (fs "config")) (some fs)
  run_command-IsClean config_dump fs = of_dump-IsClean _
  run_command-IsClean version fs = (refl, λ h. cc)

  run_parsed-IsClean :
      (c : Command) (p : Parsed) → IsClean (run_parsed m viper marshal build cobra c p)
  run_parsed-IsClean c help = (refl, λ h. cc)
  run_parsed-IsClean c (invalid e) = (refl, λ h. cc)
  run_parsed-IsClean c (flags fs) = run_command-IsClean c fs

  run_found-IsClean :
      (r : Result String (Option (Command × List String)))
      → IsClean (run_found m viper marshal build cobra r)
  run_found-IsClean (err e) = (refl, λ h. cc)
  run_found-IsClean (ok none) = (refl, λ h. cc)
  run_found-IsClean (ok (some (c, args))) = run_parsed-IsClean c (cobra.parse (flags_of c) args)

  abbrev pub Ends : List String → Run → Process → Type 0
  Ends args r p =
      (due_afters p.actions (some []) ≡ some [])
      × (((p.ending ≡ exited 0) × (r.result ≡ ok tt) × (p.error_line ≡ ""))
          ⊎ ((message : String) × (r.result ≡ err (returned message))
              × (p.ending ≡ exited 1)
              × (p.error_line
                  ≡ "Error executing command 'sentinel "
                    +++ command_line args
                    +++ "': "
                    +++ message
                    +++ "\n")))

  finish-Ends :
      (args : List String) (actions : List Action) (printed : String)
      (result : Result Failure (Unit {0}))
      → let r : Run = record { result = result; actions = actions; printed = printed } in
        IsClean r → Ends args r (finish args r)
  finish-Ends args actions printed (ok _) (closed, clean) = (closed, inl (refl, refl, refl))
  finish-Ends args actions printed (err (returned message)) (closed, clean) =
      (closed, inr (message, refl, refl, refl))
  finish-Ends args actions printed (err panicked) (closed, clean) = absurd (clean refl)

  -- Whatever the arguments, the file, the environment and the libraries answer, the process does
  -- not panic on a missing part of the configuration: when the command ends without an error, it
  -- exits with 0 and `main` prints no error line; otherwise it exits with 1, and `main` prints one,
  -- which holds the arguments and the error; and every tracer provider, publisher and context that
  -- was opened has been closed exactly once, the last opened first, and nothing else has been
  -- closed.
  pub main-Ends :
      (args : List String)
      → Ends args (execute m viper marshal build cobra args) (main m viper marshal build cobra args)
  unfolding main execute
  main-Ends args =
      let r = run_found m viper marshal build cobra (cobra.find args) in
      finish-Ends args r.actions r.printed r.result (run_found-IsClean (cobra.find args))
