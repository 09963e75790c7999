-- ===== src/Lifecycle/Order.antt =====
-- What `LifecycleController.execute` guarantees on CREATE and on DELETE
-- (deployer/lifecycle.py): the order of the operations, and what a failure ends.
use mathlib.Core.List.{foldl, reverse-append}
use ovn_fabric.Prelude.{◌≡◌, refl, ap, ◌∙◌, false, List, [], ◌∷◌, ◌++◌, reverse, arith}
use ovn_fabric.Lifecycle.{
  Host, Result, ok, raised, Fault, Run, ◌>>◌, Operation, Controller, create_step, delete_step,
  create_all, delete_all, execute,
}

module _ (host : Host) (c : Controller) where
  pub create_all-append :
      (xs ys : List Operation) (r : Run)
      → create_all host c (xs ++ ys) r ≡ (create_all host c xs >> create_all host c ys) r
  unfolding create_all
  create_all-append [] ys r = refl
  create_all-append (x ∷ xs) ys r =
      ground (arith, create_all-append xs ys (create_step host c x r).1)

  -- The operation that failed, with what ran before it and what was left.
  pub record Failure (ops : List Operation) (r : Run) (e : Fault) (end : Run) : Type 0 where
    pub before : List Operation
    pub op : Operation
    pub after : List Operation
    pub state : Run
    pub split : ops ≡ before ++ (op ∷ after)
    pub ran : create_all host c before r ≡ (ok tt, state)
    pub failed : create_step host c op state ≡ (raised e, end)

  Failure-head :
      (op : Operation) (ops : List Operation) (r : Run) {e : Fault} {end : Run}
      → create_step host c op r ≡ (raised e, end)
      → Failure (op ∷ ops) r e end
  unfolding create_all
  Failure-head op ops r h = record {
    before = [];
    op = op;
    after = ops;
    state = r;
    split = refl;
    ran = refl;
    failed = h;
  }

  Failure-tail :
      (op : Operation) (ops : List Operation) (r mid : Run) {e : Fault} {end : Run}
      → create_step host c op r ≡ (ok tt, mid)
      → Failure ops mid e end
      → Failure (op ∷ ops) r e end
  unfolding create_all
  Failure-tail op ops r mid h f = record {
    before = op ∷ f.before;
    op = f.op;
    after = f.after;
    state = f.state;
    split = ap (λ l. op ∷ l) f.split;
    ran = rw h f.ran;
    failed = f.failed;
  }

  -- A CREATE that raises has run the operations before one of the queue without a failure, that
  -- one raised, in the state that they left, and nothing of the queue ran after it: the run ends
  -- in the state of that failure.
  pub create_all-Failure :
      (ops : List Operation) (r : Run) (e : Fault) (end : Run)
      → create_all host c ops r ≡ (raised e, end)
      → Failure ops r e end
  unfolding create_all
  create_all-Failure [] r e end h = cc
  create_all-Failure (op ∷ ops) r e end h =
      go (create_step host c op r) refl h (λ mid k. create_all-Failure ops mid e end k)
    where
      go :
          (q : Result Unit × Run)
          → create_step host c op r ≡ q
          → ((λ (_ : Run). q) >> create_all host c ops) r ≡ (raised e, end)
          → ((mid : Run) → create_all host c ops mid ≡ (raised e, end) → Failure ops mid e end)
          → Failure (op ∷ ops) r e end
      go (ok tt, mid) p k rest = Failure-tail op ops r mid p (rest mid k)
      go (raised e', mid) p k rest = Failure-head op ops r (p ∙ k)

  delete_step-ok : (op : Operation) (r : Run) → (delete_step host c op r).0 ≡ ok tt
  unfolding delete_step
  delete_step-ok op r = ground arith

  -- DELETE never raises, whatever fails on the way: the run ends well, in the state that all the
  -- operations of the list leave, each tried in the state that the ones before it left.
  pub delete_all-eq-foldl :
      (ops : List Operation) (r : Run)
      → delete_all host c ops r ≡ (ok tt, foldl (λ s op. (delete_step host c op s).1) r ops)
  unfolding delete_all
  delete_all-eq-foldl [] r = refl
  delete_all-eq-foldl (op ∷ ops) r =
      rw (delete_step-ok op r) (delete_all-eq-foldl ops (delete_step host c op r).1)

  delete_all-append :
      (xs ys : List Operation) (r : Run)
      → delete_all host c (xs ++ ys) r ≡ (delete_all host c xs >> delete_all host c ys) r
  unfolding delete_all
  delete_all-append [] ys r = refl
  delete_all-append (x ∷ xs) ys r =
      ground (arith, delete_all-append xs ys (delete_step host c x r).1)

  -- A DELETE that is no dry run takes the queue from its end: of a queue in two parts the later
  -- part is deleted first, and then the earlier one, in the state that this leaves.
  pub execute-append_delete :
      (xs ys : List Operation) (r : Run)
      → c.dry_run ≡ false
      → c.creating ≡ false
      → execute host c (xs ++ ys) r ≡ (execute host c ys >> execute host c xs) r
  unfolding execute
  execute-append_delete xs ys r real deleting =
      simp (real, deleting, reverse-append) (delete_all-append (reverse ys) (reverse xs) r)
