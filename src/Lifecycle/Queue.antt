-- ===== src/Lifecycle/Queue.antt =====
-- deployer/lifecycle.py, `LifecycleController.execute`: the queue, forward and strict on CREATE,
-- rewound and best effort on DELETE.
use ovn_fabric.Prelude.{List, [], ◌∷◌, reverse, if◌then◌else◌}
use ovn_fabric.Lifecycle.Effects.{Host, Result, ok, raised, Exec, pure, warn, ◌>>◌}
use ovn_fabric.Lifecycle.Operations.{Operation, resolve_operation}
use ovn_fabric.Lifecycle.Commands.{Controller}
use ovn_fabric.Lifecycle.Steps.{create, delete}

module _ (host : Host) (c : Controller) where
  -- One operation, with its references filled in from the store as it is now.
  unfoldable pub create_step : Operation → Exec Unit
  create_step op r = create host c (resolve_operation r.store op) r

  unfoldable pub caught : Result Unit → Exec Unit
  caught (ok _) = pure tt
  caught (raised e) = warn e

  unfoldable pub delete_step : Operation → Exec Unit
  unfolding caught
  delete_step op r =
      let attempt = delete host c (resolve_operation r.store op) r in caught attempt.0 attempt.1

  -- CREATE ends at the first failure; DELETE notes each failure and goes on.
  unfoldable pub create_all : List Operation → Exec Unit
  create_all [] = pure tt
  create_all (op ∷ ops) = do create_step op; create_all ops

  unfoldable pub delete_all : List Operation → Exec Unit
  delete_all [] = pure tt
  delete_all (op ∷ ops) = do delete_step op; delete_all ops

  -- `execute` over the queue (a dry run only prints the plan).
  unfoldable pub execute : List Operation → Exec Unit
  execute queue =
      if c.dry_run
      then pure tt
      else if c.creating
      then create_all queue
      else delete_all (reverse queue)
