-- ===== src/Lifecycle/Effects.antt =====
-- What operations do to the host (deployer/lifecycle.py, `JobLike` and the file calls;
-- fabric/services/unit.py, `CommandJob`), as actions that the environment answers, and the
-- state that a controller's run carries through exceptions.
use ovn_fabric.Prelude.{ℕ, String, Bool, Option, List, ◌∷◌, [], ◌++◌, Dict}
use ovn_fabric.Value.{Value}
use ovn_fabric.Lifecycle.RawGraph.{Graph}

-- One request to the operating system.
pub data Action : Type 0 where
  -- a command with its limit in seconds (`runtime.command.run`)
  exec : (argv : List String) (timeout : Option ℕ) → Action
  -- `os.makedirs(path, exist_ok=True)`, `shutil.rmtree`, `os.removedirs`, `os.chmod`
  make_dirs : (path : String) → Action
  remove_tree : (path : String) → Action
  remove_empty_upwards : (path : String) → Action
  chmod : (path mode : String) → Action
  -- `_write_new`, `_unlink`, and `_remove` of primitives_fs.py
  write_new : (path content : String) (mode : Option ℕ) → Action
  unlink : (path : String) → Action
  remove_entry : (path : String) (recursive : Bool) → Action
  -- `Path.exists`, `Path.symlink_to`, `asyncio.sleep` (in milliseconds)
  exists : (path : String) → Action
  symlink : (path target : String) → Action
  sleep : (milliseconds : ℕ) → Action

-- A command that exited 0 with its stripped output, or a call that returned (or held); a
-- command that failed, or a call that raised `OSError` (or did not hold).
pub data Answer : Type 0 where
  done : (output : String) → Answer
  failed : Answer

-- The host: its answer may depend on all that was done before.
abbrev pub Host : Type 0
Host = List Action → Action → Answer

-- What is raised. The texts of the messages are not modelled.
pub data Fault : Type 0 where
  -- `UnitFailed`: a command that had to succeed
  unit_failed : (label : String) (argv : List String) → Fault
  -- `TypeError`: an argv token that is no text
  bad_argv : (label : String) → Fault
  os_error : Action → Fault
  not_running : (container : String) → Fault
  no_value : (label : String) → Fault

pub data Result (A : Type 0) : Type 0 where
  ok : A → Result A
  raised : Fault → Result A

-- `lc.ctx.store`, `lc.graph`, what was done so far, and the faults that `warn` told of.
pub record Run : Type 0 where
  pub store : Dict Value
  pub graph : Graph
  pub trace : List Action
  pub warned : List Fault

abbrev pub Exec : Type 0 → Type 0
Exec A = Run → Result A × Run

module _ {A : Type 0} where
  abbrev pub pure : A → Exec A
  pure a r = (ok a, r)

  abbrev pub raise : Fault → Exec A
  raise e r = (raised e, r)

module _ {A B : Type 0} where
  abbrev pub continue : Result A → (A → Exec B) → Exec B
  continue (ok a) f r = f a r
  continue (raised e) f r = (raised e, r)

  infixl 5 ◌>>=◌ ◌>>◌
  abbrev pub ◌>>=◌ : Exec A → (A → Exec B) → Exec B
  ◌>>=◌ m f r = continue (m r).0 f (m r).1

  abbrev pub ◌>>◌ : Exec A → Exec B → Exec B
  m >> k = m >>= λ _. k

abbrev pub modify : (Run → Run) → Exec Unit
modify f r = (ok tt, f r)

abbrev pub warn : Fault → Exec Unit
warn e = modify (λ r. record r { warned = r.warned ++ e ∷ [] })

unfoldable pub perform : Host → Action → Exec Answer
perform host a r = (ok (host r.trace a), record r { trace = r.trace ++ a ∷ [] })

or_raise : Action → Answer → Exec Unit
or_raise a (done _) = pure tt
or_raise a failed = raise (os_error a)

-- A file-system call that raises when it fails.
unfoldable pub file_call : Host → Action → Exec Unit
unfolding perform or_raise
file_call host a = do answer ← perform host a; or_raise a answer
