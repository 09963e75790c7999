-- ===== src/Sysdeps/Worker.antt =====
-- The worker of the resolver (fabric/services/sysdeps.py): `_install`, `_refresh` and `_update`.
use ovn_fabric.Prelude.{
  ℕ, ◌+◌, ◌*◌, ltb, String, Bool, true, false, ◌&&◌, not, Option, none, some, List, [], ◌∷◌, ◌++◌,
  length, Dict, lookup, insert, contains, if◌then◌else◌, map, sort_names,
}
use ovn_fabric.Retry.{Ran}
use ovn_fabric.Sysdeps.Manager.{
  Manager, install, upgrade, refresh, write_stamp, ready, not_installed, job_failed, DepStatus,
  Outcome, value, error, Work, pure, ◌>>=◌, ◌>>◌, ask, ask_version, now, retried,
}

abbrev pub update_every : ℕ
update_every = 24 * 60 * 60

-- `self._known.add(dep)`
unfoldable pub learn : String → Work Unit
learn dep s =
    (value tt, record s { known = if contains s.known dep then s.known else s.known ++ (dep ∷ []) })

unfoldable pub stamped : ℕ → Work Unit
stamped t s = (value tt, record s { last_update = t })

-- `self._ready(dep, version)`
unfoldable pub made_ready : String → String → Work DepStatus
unfolding learn
made_ready dep v = do learn dep; pure (record { dep = dep; state = ready v })

-- `outputs[dep]`
output_of : Option Ran → Ran
output_of none = (false, "")
output_of (some r) = r

unfoldable pub status_of : String → Dict Ran → Option String → Work DepStatus
unfolding made_ready output_of
status_of dep outputs none =
    pure (record { dep = dep; state = not_installed (output_of (lookup dep outputs)) })
status_of dep outputs (some v) = made_ready dep v

module _ (m : Manager) where
  -- The new time is kept also where its file cannot be written (`OSError` is only logged).
  unfoldable pub set_update : Bool → Work Bool
  unfolding now stamped ask
  set_update false = pure false
  set_update true = do t ← now m; stamped t; ask m write_stamp; pure true

  -- `_update`
  unfoldable pub update : Work Bool
  unfolding set_update
  update = do r ← retried m refresh; set_update (r.0)

  unfoldable pub refresh_if_stale : Work Unit
  unfolding now
  refresh_if_stale s =
      (do t ← now m; if ltb (s.last_update + update_every) t then (do update; pure tt) else pure tt)
        s

  -- Each dependency on its own.
  unfoldable pub one_by_one : List String → Dict Ran → Work (Dict Ran)
  one_by_one [] outputs = pure outputs
  one_by_one (d ∷ ds) outputs = do
    r ← retried m (install (d ∷ []))
    one_by_one ds (insert d r outputs)

  -- `{dep: (ok, out) for dep in deps}`
  unfoldable pub together : List String → Ran → Dict Ran
  together [] r = []
  together (d ∷ ds) r = insert d r (together ds r)

  unfoldable pub outputs_of : List String → Ran → Work (Dict Ran)
  unfolding one_by_one together
  outputs_of deps r =
      if not (r.0) && ltb 1 (length deps)
      then one_by_one deps (together deps r)
      else pure (together deps r)

  -- The check after the install.
  unfoldable pub check : Dict Ran → List String → Work (List DepStatus)
  unfolding status_of
  check outputs [] = pure []
  check outputs (d ∷ ds) = do
    v ← ask_version m d
    status ← status_of d outputs v
    rest ← check outputs ds
    pure (status ∷ rest)

  -- `_install`, up to the statuses that it hands out at its end.
  unfoldable pub install_deps : List String → Work (List DepStatus)
  unfolding refresh_if_stale outputs_of
  install_deps deps = do
    refresh_if_stale
    r ← retried m (install deps)
    outputs ← outputs_of deps r
    check outputs deps

  unfoldable pub upgrade_known : List String → Bool → Work Unit
  upgrade_known known false = pure tt
  upgrade_known known true = do retried m (upgrade known); pure tt

  -- `_refresh`
  unfoldable pub refresh_known : Work Unit
  unfolding upgrade_known update
  refresh_known s = elim s.known [
    | [] ↦ (value tt, s)
    | _ ↦ (do ok ← update; upgrade_known (sort_names s.known) ok) s
  ]

-- The job's end in `_worker`: an exception of an install fails each of its dependencies.
unfoldable pub settled_by : List String → Outcome (List DepStatus) → List DepStatus
settled_by deps (value statuses) = statuses
settled_by deps (error e) = map (λ d. record { dep = d; state = job_failed e }) deps
