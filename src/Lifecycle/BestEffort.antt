-- ===== src/Lifecycle/BestEffort.antt =====
-- The commands of a `Primitive` (deployer/lifecycle.py): which of them run, with what limit, and
-- what their failures do.
use ovn_fabric.Prelude.{
  ℕ, String, Bool, ◌≡◌, true, false, Option, some, List, [], ◌∷◌, ◌++◌, append_assoc, append-nil,
  arith, ◌>>=◌ as ◌>>=?◌, >>=-eq-some,
}
use ovn_fabric.Value.{Value}
use ovn_fabric.Lifecycle.RawGraph
use ovn_fabric.Lifecycle.{
  Action, exec, Answer, done, failed, Host, ok, Fault, unit_failed, Run, Command, Primitive,
  Controller, limit, words, run_cmd, run_all, delete_primitive,
}

-- The actions of a list of commands whose tokens are all texts.
abbrev pub planned : Controller → List Command → Option (List Action)
planned c [] = some []
planned c (cmd ∷ cmds) = words cmd.argv >>=? λ argv.
    planned c cmds >>=? λ rest. some (exec argv (limit c cmd.timeout) ∷ rest)

-- The run after some actions, with what was warned of by then.
abbrev pub after : Run → List Action → List Fault → Run
after r acts w = record r { trace = r.trace ++ acts; warned = w }

-- The answer of the host to a command, as a truth value and as what is warned of.
abbrev pub succeeded : Answer → Bool
succeeded (done _) = true
succeeded failed = false

abbrev told : List Fault → Fault → Answer → List Fault
told w e (done _) = w
told w e failed = w ++ (e ∷ [])

module _ (host : Host) (c : Controller) (deleting : c.creating ≡ false) where
  run_cmd-delete :
      (label : String) (vs : List Value) (optional : Bool) (timeout : Option ℕ) (argv : List String)
      (r : Run)
      → words vs ≡ some argv
      → run_cmd host c label vs optional timeout r ≡ (
        ok (succeeded (host r.trace (exec argv (limit c timeout)))),
        after r
            (exec argv (limit c timeout) ∷ [])
            (told r.warned (unit_failed label argv) (host r.trace (exec argv (limit c timeout)))),
      )
  unfolding run_cmd
  run_cmd-delete label vs optional timeout argv r h = ground arith

  run_all-delete :
      (cmds : List Command) (acts : List Action) (r : Run)
      → planned c cmds ≡ some acts
      → (w : List Fault) × (run_all host c cmds r ≡ (ok tt, after r acts w))
  unfolding run_all
  run_all-delete [] acts r h = (r.warned, ground (arith, append-nil r.trace))
  run_all-delete (cmd ∷ cmds) acts r h =
      let (argv, typed, h') = >>=-eq-some (words cmd.argv) _ h in
      let (rest, tail, h'') = >>=-eq-some (planned c cmds) _ h' in
      let act = exec argv (limit c cmd.timeout) in
      let told' = told r.warned (unit_failed cmd.label argv) (host r.trace act) in
      let (w, ran) = run_all-delete cmds rest (after r (act ∷ []) told') tail in
      (
        w,
        rw (run_cmd-delete cmd.label cmd.argv cmd.optional cmd.timeout argv r typed, ran)
            (ground (arith, append_assoc r.trace (act ∷ []) rest)),
      )

  -- On DELETE a primitive whose commands hold texts runs every one of its delete commands, in
  -- order and with their limits, and takes its node out of the raw graph, whatever the host
  -- answers; it does not raise, and leaves the store as it was.
  pub delete_primitive_lem :
      (p : Primitive) (acts : List Action) (r : Run)
      → planned c p.delete_cmds ≡ some acts
      → (w : List Fault) × (delete_primitive host c p r ≡ (
        ok tt,
        record r { trace = r.trace ++ acts; warned = w; graph = RawGraph.remove p.key r.graph },
      ))
  unfolding delete_primitive
  delete_primitive_lem p acts r h =
      let (w, ran) = run_all-delete p.delete_cmds acts r h in (w, rw ran)
