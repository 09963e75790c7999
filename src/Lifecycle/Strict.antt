-- ===== src/Lifecycle/Strict.antt =====
-- What a primitive's CREATE (deployer/lifecycle.py) guarantees, when it goes well and when it
-- does not.
use ovn_fabric.Prelude.{
  ℕ, String, ◌≡◌, refl, sym, ap, ◌∙◌, Bool, true, ◌||◌, ◌&&◌, not, Option, none, some, List, [],
  ◌∷◌, ◌++◌, arith, append_assoc, append-nil,
}
use ovn_fabric.Lifecycle.{
  run_words, settle_run, perform, Host, Result, ok, raised, Run, ◌>>◌, Action, exec, Fault, Command,
  Primitive, Controller, limit, words, run_cmd, run_all, create_primitive, upsert, modify,
}
use ovn_fabric.Lifecycle.BestEffort.{planned, succeeded}
use ovn_fabric.Lifecycle.Inversion.{>>=-eq-ok, Keeps, Keeps->>=}

-- The host has answered the commands, run one after the other from the trace `before` on, and each
-- that is not optional with a success.
abbrev pub AllWell : Host → List Action → List Command → List Action → Type 0
AllWell host before (cmd ∷ cmds) (act ∷ acts) =
    ((cmd.optional || succeeded (host before act)) ≡ true)
    × AllWell host (before ++ (act ∷ [])) cmds acts
AllWell host before _ _ = Unit

module _ (host : Host) (c : Controller) where
  run_cmd-Keeps :
      (cmd : Command) → Keeps (run_cmd host c cmd.label cmd.argv cmd.optional cmd.timeout)
  unfolding Keeps run_cmd
  run_cmd-Keeps cmd r = ground arith

  run_all-Keeps : (cmds : List Command) → Keeps (run_all host c cmds)
  unfolding run_all Keeps
  run_all-Keeps [] r = (refl, refl)
  run_all-Keeps (cmd ∷ cmds) r =
      let one : Keeps (run_cmd host c cmd.label cmd.argv cmd.optional cmd.timeout) =
        λ s. run_cmd-Keeps cmd s in
      Keeps->>= (run_cmd host c cmd.label cmd.argv cmd.optional cmd.timeout)
        (λ _. run_all host c cmds) one (λ _. run_all-Keeps cmds) r

module _ (host : Host) (c : Controller) (creating : c.creating ≡ true) where
  run_words-eq-ok :
      (label : String) (optional : Bool) (timeout : Option ℕ) (o : Option (List String))
      (r mid : Run) (b : Bool)
      → run_words host c (c.creating && not optional) label timeout o r ≡ (ok b, mid)
      → (argv : List String) × (o ≡ some argv)
        × ((optional || succeeded (host r.trace (exec argv (limit c timeout)))) ≡ true)
        × (mid.trace ≡ r.trace ++ (exec argv (limit c timeout) ∷ []))
  unfolding run_words settle_run perform
  run_words-eq-ok label optional timeout none r mid b h = cc
  run_words-eq-ok label optional timeout (some argv) r mid b h =
      (argv, refl, ground arith, sym (ap (λ q. q.1.trace) h) ∙ ground arith)

  run_all-eq-ok :
      (cmds : List Command) (r end : Run)
      → run_all host c cmds r ≡ (ok tt, end)
      → (acts : List Action) × (planned c cmds ≡ some acts)
        × (end.trace ≡ r.trace ++ acts)
        × AllWell host r.trace cmds acts
  unfolding run_all run_cmd
  run_all-eq-ok [] r end h = ([], refl, sym (ap (λ q. q.1.trace) h) ∙ sym (append-nil r.trace), tt)
  run_all-eq-ok (cmd ∷ cmds) r end h =
      let (b, mid, ran, h') =
        >>=-eq-ok (run_cmd host c cmd.label cmd.argv cmd.optional cmd.timeout) _ r end h in
      let (argv, typed, well, traced) =
        run_words-eq-ok cmd.label cmd.optional cmd.timeout (words cmd.argv) r mid b ran in
      let (acts, rest, trace, wells) = run_all-eq-ok cmds mid end h' in
      (
        exec argv (limit c cmd.timeout) ∷ acts,
        ground (arith, typed, rest),
        trace ∙ ap (λ l. l ++ acts) traced ∙ append_assoc r.trace _ acts,
        (well, rw traced at wells),
      )

  -- A CREATE of a primitive that goes well has run every one of its commands, in order and with
  -- their limits, and each that is not optional with a success; then its nodes are put into the
  -- raw graph, and the store is as it was.
  pub create_primitive-eq-ok :
      (p : Primitive) (r end : Run)
      → create_primitive host c p r ≡ (ok tt, end)
      → (acts : List Action) × (planned c p.create_cmds ≡ some acts)
        × (end.trace ≡ r.trace ++ acts)
        × AllWell host r.trace p.create_cmds acts
        × (end.graph ≡ upsert p.nodes r.graph)
        × (end.store ≡ r.store)
  unfolding create_primitive Keeps
  create_primitive-eq-ok p r end h =
      let (u, mid, ran, h') = >>=-eq-ok (run_all host c p.create_cmds) _ r end h in
      let (acts, plan, trace, well) = run_all-eq-ok p.create_cmds r mid ran in
      let kept = run_all-Keeps host c p.create_cmds r in
      (
        acts,
        plan,
        sym (ap (λ q. q.1.trace) h') ∙ trace,
        well,
        sym (ap (λ q. q.1.graph) h') ∙ ap (upsert p.nodes) (sym (ap (λ q. q.1.graph) ran) ∙ kept.1),
        sym (ap (λ q. q.1.store) h') ∙ sym (ap (λ q. q.1.store) ran) ∙ kept.0,
      )

module _ (host : Host) (c : Controller) where
  -- A CREATE of a primitive that raises leaves the raw graph and the store as they were.
  pub create_primitive-raised :
      (p : Primitive) (r end : Run) (e : Fault)
      → create_primitive host c p r ≡ (raised e, end)
      → (end.graph ≡ r.graph) × (end.store ≡ r.store)
  unfolding create_primitive Keeps
  create_primitive-raised p r end e h = go (run_all host c p.create_cmds r) refl h
    where
      go :
          (q : Result Unit × Run)
          → run_all host c p.create_cmds r ≡ q
          → ((λ (_ : Run). q) >> modify (λ s. record s { graph = upsert p.nodes s.graph })) r
            ≡ (raised e, end)
          → (end.graph ≡ r.graph) × (end.store ≡ r.store)
      go (ok tt, mid) ran k = cc
      go (raised e', mid) ran k =
          let kept = run_all-Keeps host c p.create_cmds r in
          (
            sym (ap (λ q. q.1.graph) k) ∙ sym (ap (λ q. q.1.graph) ran) ∙ kept.1,
            sym (ap (λ q. q.1.store) k) ∙ sym (ap (λ q. q.1.store) ran) ∙ kept.0,
          )
