-- ===== src/Lifecycle/Commands.antt =====
-- deployer/lifecycle.py, `LifecycleController`: the policy of limits and errors by which the
-- operations run their commands (through fabric/services/unit.py, `CommandJob`).
use ovn_fabric.Prelude.{
  ℕ, String, Bool, true, false, not, ◌&&◌, Option, none, some, List, [], ◌∷◌, ltb, if◌then◌else◌,
}
use ovn_fabric.Value.{Value, text}
use ovn_fabric.Lifecycle.Effects.{
  exec, Answer, done, failed, Host, unit_failed, bad_argv, Exec, pure, raise, ◌>>=◌, ◌>>◌, warn,
  perform,
}
use ovn_fabric.Lifecycle.Operations.{Command}

-- What a `LifecycleController` is made with; its `graph` and `ctx.store` are in the run.
pub record Controller : Type 0 where
  pub creating : Bool
  pub dry_run : Bool
  pub command_timeout : ℕ

-- `_timeout`: a command's own limit, else the run's; 0 is none.
unfoldable pub limit : Controller → Option ℕ → Option ℕ
limit c timeout =
    let seconds : ℕ = elim timeout [ none ↦ c.command_timeout | some s ↦ s ] in
    if ltb 0 seconds then some seconds else none

-- A command's tokens, when all of them are texts.
unfoldable pub words : List Value → Option (List String)
words [] = some []
words (text s ∷ vs) = elim (words vs) [ none ↦ none | some ss ↦ some (s ∷ ss) ]
words (_ ∷ vs) = none

module _ (host : Host) (c : Controller) where
  unfoldable pub settle_run : Bool → String → List String → Answer → Exec Bool
  settle_run abort label argv (done _) = pure true
  settle_run abort label argv failed =
      if abort
      then raise (unit_failed label argv)
      else (do warn (unit_failed label argv); pure false)

  unfoldable pub run_words : Bool → String → Option ℕ → Option (List String) → Exec Bool
  unfolding settle_run perform limit
  run_words abort label timeout none = raise (bad_argv label)
  run_words abort label timeout (some argv) = do
    answer ← perform host (exec argv (limit c timeout))
    settle_run abort label argv answer

  -- `run_cmd`: only a command that is not optional aborts, and only on CREATE.
  unfoldable pub run_cmd : String → List Value → Bool → Option ℕ → Exec Bool
  unfolding run_words words
  run_cmd label argv optional timeout =
      run_words (c.creating && not optional) label timeout (words argv)

  settle_capture : Bool → String → List String → Answer → Exec String
  settle_capture abort label argv (done out) = pure out
  settle_capture abort label argv failed = if abort then raise (unit_failed label argv) else pure ""

  capture_words : Bool → String → Option ℕ → Option (List String) → Exec String
  unfolding settle_capture perform limit
  capture_words abort label timeout none = raise (bad_argv label)
  capture_words abort label timeout (some argv) = do
    answer ← perform host (exec argv (limit c timeout))
    settle_capture abort label argv answer

  -- `capture_cmd`: the stripped output, and nothing for a failure that does not abort.
  unfoldable pub capture_cmd : String → List Value → Bool → Option ℕ → Exec String
  unfolding capture_words words
  capture_cmd label argv optional timeout =
      capture_words (c.creating && not optional) label timeout (words argv)

  -- The loop over a primitive's commands.
  unfoldable pub run_all : List Command → Exec Unit
  unfolding run_cmd
  run_all [] = pure tt
  run_all (cmd ∷ cmds) = do run_cmd cmd.label cmd.argv cmd.optional cmd.timeout; run_all cmds
