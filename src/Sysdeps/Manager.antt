-- ===== src/Sysdeps/Manager.antt =====
-- What the resolver of fabric/services/sysdeps.py asks of its package manager and of the clock, with
-- the retries.
use ovn_fabric.Prelude.{ℕ, suc, zero, ◌-◌, String, Bool, true, Option, none, List, [], ◌∷◌, ◌++◌}
use ovn_fabric.Retry.{Ran, Tried, retry}

-- One question to the package manager (`PackageManager`), to the clock, or to the stamp's file.
pub data Query : Type 0 where
  version : (dep : String) → Query
  install upgrade : (deps : List String) → Query
  refresh clock write_stamp : Query

-- A command's success and output, what `version` found, the time in seconds; or an exception.
pub data Reply : Type 0 where
  ran : (ok : Bool) (output : String) → Reply
  found : Option String → Reply
  time : ℕ → Reply
  broken : (error : String) → Reply

-- The package manager may answer by all that it was asked before.
pub record Manager : Type 0 where
  pub answer : List Query → Query → Reply
  pub permanent : String → Bool

-- `SystemDepState` with what its message is made from: the version; the answer of the install (its
-- tail, or that it succeeded with no effect); the exception that ended the job.
pub data DepState : Type 0 where
  ready : (version : String) → DepState
  not_installed : Ran → DepState
  job_failed : (error : String) → DepState
  timed_out : DepState

pub record DepStatus : Type 0 where
  pub dep : String
  pub state : DepState

-- What the worker keeps: the questions so far, `_last_update` and `_known`.
pub record Shop : Type 0 where
  pub trace : List Query
  pub last_update : ℕ
  pub known : List String

-- A value, or the text of an exception.
pub data Outcome (A : Type 0) : Type 0 where
  value : A → Outcome A
  error : String → Outcome A

abbrev pub Work : Type 0 → Type 0
Work A = Shop → Outcome A × Shop

module _ {A : Type 0} where
  abbrev pub pure : A → Work A
  pure a s = (value a, s)

  abbrev pub raise : String → Work A
  raise e s = (error e, s)

module _ {A B : Type 0} where
  abbrev pub continue : Outcome A → (A → Work B) → Work B
  continue (value a) f s = f a s
  continue (error e) f s = (error e, s)

  infixl 5 ◌>>=◌ ◌>>◌
  abbrev pub ◌>>=◌ : Work A → (A → Work B) → Work B
  ◌>>=◌ m f s = continue (m s).0 f (m s).1

  abbrev pub ◌>>◌ : Work A → Work B → Work B
  m >> k = m >>= λ _. k

unfoldable pub repeat : ℕ → Query → List Query
repeat zero q = []
repeat (suc n) q = q ∷ repeat n q

-- An answer to a command, for the loop of the retries: an exception ends it, as a success does.
ending : Reply → Ran
ending (ran ok out) = (ok, out)
ending (broken e) = (true, e)
ending _ = (true, "")

-- The same answer, once the loop has ended with it.
result : Reply → Tried → Outcome Ran
result (broken e) t = error e
result _ t = value (t.ok, t.output)

module _ (m : Manager) where
  unfoldable pub ask : Query → Work Reply
  ask q s = (value (m.answer s.trace q), record s { trace = s.trace ++ (q ∷ []) })

  unfoldable pub version_of : Reply → Work (Option String)
  version_of (found v) = pure v
  version_of (broken e) = raise e
  version_of _ = pure none

  -- `await self._packages.version(dep)`
  unfoldable pub ask_version : String → Work (Option String)
  unfolding ask version_of
  ask_version dep = do r ← ask (version dep); version_of r

  unfoldable pub time_of : Reply → Work ℕ
  time_of (time t) = pure t
  time_of (broken e) = raise e
  time_of _ = pure 0

  -- `time.time()`, in whole seconds
  unfoldable pub now : Work ℕ
  unfolding ask time_of
  now = do r ← ask clock; time_of r

  -- The answer to the n-th attempt of a command.
  attempt : List Query → Query → ℕ → Reply
  unfolding repeat
  attempt trace q n = m.answer (trace ++ repeat (n - 1) q) q

  -- `await self._retry(label, lambda: ...)` of one command.
  unfoldable pub retried : Query → Work Ran
  unfolding ending result attempt repeat retry
  retried q s =
      let t = retry (λ n. ending (attempt s.trace q n)) m.permanent in
      (result (attempt s.trace q t.attempts) t, record s { trace = s.trace ++ repeat t.attempts q })
