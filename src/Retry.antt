-- ===== src/Retry.antt =====
-- The retries with backoff: fabric/services/sysdeps.py, `_retry` (a package manager's command) and
-- deployer/dependency.py, `_apt_retry` (a job's command).
pub mod Backoff
use ovn_fabric.Prelude.{
  ℕ, zero, suc, ◌+◌, ◌*◌, ◌-◌, min, ltb, String, Bool, true, false, List, [], ◌∷◌, ◌++◌,
  if◌then◌else◌,
}

-- What one run of a command answers: its success and output.
abbrev pub Ran : Type 0
Ran = Bool × String

abbrev pub retries : ℕ
retries = 6

-- The result of a loop: what it returns, the attempts made, the seconds slept in order.
pub record Tried : Type 0 where
  pub ok : Bool
  pub output : String
  pub attempts : ℕ
  pub sleeps : List ℕ

-- `delay = min(delay * 2, 300.0)`, in seconds
abbrev pub doubled : ℕ → ℕ
doubled delay = min (delay * 2) 300

abbrev pub after_sleep : ℕ → Tried → Tried
after_sleep delay t = record t { sleeps = delay ∷ t.sleeps }

-- What the loop returns after one run; `rest` is what it goes on to return.
unfoldable pub tried : (String → Bool) → Ran → ℕ → Tried → Tried
tried permanent (true, out) attempt rest = record {
  ok = true;
  output = out;
  attempts = attempt;
  sleeps = [];
}
tried permanent (false, out) attempt rest =
    if permanent out
    then record { ok = false; output = out; attempts = attempt; sleeps = [] }
    else rest

-- `run n` is what the command answers at attempt `n`; `permanent` is the package manager's.
module _ (run : ℕ → Ran) (permanent : String → Bool) where
  -- The attempts from `attempt` on, the first and `left` more.
  unfoldable pub attempt_from : (left attempt delay : ℕ) → Tried
  attempt_from zero attempt delay =
      let (ok, out) = run attempt in
      let gave_up : Tried = record { ok = false; output = out; attempts = attempt; sleeps = [] } in
      tried permanent (run attempt) attempt gave_up
  attempt_from (suc left) attempt delay =
      let rest = attempt_from left (attempt + 1) (doubled delay) in
      tried permanent (run attempt) attempt (after_sleep delay rest)

  -- `_retry`
  unfoldable pub retry : Tried
  retry = attempt_from (retries - 1) 1 5

-- `_apt_retry`, whose commands have no output that it reads; its answer is `ok`.
unfoldable pub apt_retry : (run : ℕ → Bool) (attempts : ℕ) → Tried
apt_retry run zero = record { ok = false; output = ""; attempts = 0; sleeps = [] }
apt_retry run (suc left) = attempt_from (λ n. (run n, "")) (λ out. false) left 1 5
