-- ===== src/Startup/Exit.antt =====
-- What the exit code of the process says.
use cma_ssh.Prelude.{◌≡◌, refl, ◌⊎◌, inl, inr, arith}
use cma_ssh.Prelude.Go.{Result, ok, err, Outcome, done, fail, panic}
use cma_ssh.Prelude.Go.Ends.{Final}
use cma_ssh.Startup.Version.{Info, Variables, get}
use cma_ssh.Startup.{
  Command, help_command, version_command, root_command, version_lines, print_lines, print_version,
  Runtime, operator, exit_with, run_root, run_parsed, execute,
}
use cma_ssh.Startup.Serving.{Serving, operator-Serving}

module _ (r : Runtime) where
  exit_with-Serving :
      (s : r.State) (x : Outcome (Unit {0})) (t : r.State)
      → Final Unit (λ _ u. Serving r s u) (x, t)
      → (exit_with r (x, t)).0 ≡ 0
      → Serving r s t
  exit_with-Serving s (done _) t h e = h
  exit_with-Serving s (fail _) t h e = absurd (omega arith)
  exit_with-Serving s (panic _) t h e = absurd (omega arith)

  -- Help was asked for; or the version was, and was printed after it was gathered; or the process has
  -- served.
  abbrev pub Ended : r.State → r.State → Type 0
  Ended s t =
      (r.parse_args ≡ ok help_command)
      ⊎ (((r.parse_args ≡ ok version_command)
            × ((info : Info) × (v : Variables) × (u : r.State) × (get r.go r.combined_output
                    r.trim_space r.variables s
                  ≡ ((info, v), u))
                × (t ≡ print_lines r (version_lines r info) u)))
          ⊎ Serving r s t)

  run_root-Ended :
      (s : r.State) (x : Result Command)
      → r.parse_args ≡ x
      → (run_root r x s).0 ≡ 0
      → Ended s (run_root r x s).1
  unfolding print_version
  run_root-Ended s (err _) p e = absurd (omega arith)
  run_root-Ended s (ok help_command) p e = inl p
  run_root-Ended s (ok version_command) p e = inr (inl (p, (_, _, _, refl, refl)))
  run_root-Ended s (ok root_command) p e =
      inr (inr (exit_with-Serving s (operator r s).0 (operator r s).1 (operator-Serving r s) e))

  run_parsed-Ended :
      (s : r.State) (x : Result (Unit {0}))
      → (run_parsed r x s).0 ≡ 0
      → Ended s (run_parsed r x s).1
  run_parsed-Ended s (err _) e = absurd (omega arith)
  run_parsed-Ended s (ok _) e = run_root-Ended s r.parse_args refl e

  -- The process exits with the code 0 only if help was asked for, or if the command `version` was run
  -- and printed what `version.Get` gathered, or if it has served: then the four definitions of the
  -- resources were there or were created from their files before the manager was made, every
  -- controller was registered with its watches in order, the listener was opened, and the servers and
  -- the manager ended without an error.
  pub execute-Serving : (s : r.State) → (execute r s).0 ≡ 0 → Ended s (execute r s).1
  unfolding execute
  execute-Serving s e = run_parsed-Ended s _ e
