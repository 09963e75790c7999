-- ===== src/Kernel/Misplaced.antt =====
-- A docker app that owns the interfaces of a kernel router's side (deployer/ir_common.py), put into
-- units by fabric/plan.py.
use ovn_fabric.Prelude.{
  ℕ, suc, ◌+◌, ◌≤◌, ◌<◌, String, ◌≡◌, refl, ◌∙◌, some, List, [], ◌∷◌, ◌++◌, length, arith,
}
use ovn_fabric.Lifecycle.{Operation}
use ovn_fabric.Primitives.Routing.{Library}
use ovn_fabric.Plan.Calls.{
  PlanFault, Outcome, done, failed, ◌>>=◌, Call, does, opens, Emission, for_each, ◌then_emit◌,
}
use ovn_fabric.Plan.Units.{Plan, run_calls}
use ovn_fabric.Plan.Discipline.{Holds}
use ovn_fabric.Cluster.Kept.{Holds->>=}
use ovn_fabric.Cluster.Nodes.{GroupNode}
use ovn_fabric.Kernel.Nodes.{SideRoute, OwningApp}
use ovn_fabric.Kernel.Filters.{group_rows}
use ovn_fabric.Kernel.Network.{emit_group, side_network}
use ovn_fabric.Kernel.Container.{
  SideContext, emit_owning, opens_unit, doing, app_start, emit_transit, container_name,
}
use ovn_fabric.Plan.Growth.{
  HasUnits, Opens, Opens-any, Opens-then_emit, run_calls-HasUnits, run_calls-append, does_late,
}

emit_group-Opens : (host netns dev : String) (g : GroupNode) → Opens 1 (emit_group host netns dev g)
unfolding emit_group opens
emit_group-Opens host netns dev g n =
    Holds->>= (λ _. Unit) _ (group_rows dev g) _ (anything (group_rows dev g))
      (λ rows _. omega arith)
  where
    anything : {A : Type 0} (o : Outcome A) → Holds (λ _. Unit) o
    anything (done a) = tt
    anything (failed e) = tt

side_network-Opens :
    (lib : Library) (host netns dev : String) (on : ℕ) (g : GroupNode) (gs : List GroupNode)
    (ipaddrs : List String) (routes : List SideRoute)
    → Opens 1 (side_network lib host netns dev on (g ∷ gs) ipaddrs routes)
unfolding side_network for_each
side_network-Opens lib host netns dev on g gs ipaddrs routes =
    Opens-then_emit 0 1 _ _ (Opens-any _)
      (Opens-then_emit 1 0 _ _ (emit_group-Opens host netns dev g) (Opens-any _))

opens_unit-Opens : (kind subject : String) → Opens 1 (opens_unit kind subject)
unfolding opens_unit opens
opens_unit-Opens kind subject n = omega arith

-- What becomes of a declaration that ends with an operation on a unit before the newest.
ends_late :
    (e : Emission) (m : ℕ) (op : Operation) (n : ℕ) (p : Plan)
    → Opens 2 e
    → length p.units ≡ n
    → m ≡ n
    → (x : PlanFault) × (((e then_emit doing m op) n >>= λ calls. run_calls calls p) ≡ failed x)
unfolding ◌then_emit◌ doing
ends_late e m op n p h l same = put (e n) (h n)
  where
    started :
        (k : ℕ) (o : Outcome Plan)
        → HasUnits k o
        → suc m < k
        → (x : PlanFault) × ((o >>= λ q. run_calls (does (some m) op ∷ []) q) ≡ failed x)
    started k (failed x) units more = (x, refl)
    started k (done q) units more = does_late m op q (omega (arith, units, more))

    put :
        (o : Outcome (List Call))
        → Holds (λ cs. 2 ≤ opens cs) o
        → (x : PlanFault) × (((o >>= λ xs. done (xs ++ (does (some m) op ∷ []))) >>= λ calls.
              run_calls calls p)
            ≡ failed x)
    put (failed x) two = (x, refl)
    put (done xs) two =
        let (x, e) =
          started (length p.units + opens xs) (run_calls xs p) (run_calls-HasUnits xs p)
            (omega (arith, l, same, two)) in
        (x, run_calls-append xs (does (some m) op ∷ []) p ∙ e)

-- A docker app whose container owns the interfaces of a side with a security group cannot be put into
-- units: the start of the app is declared on the app's unit, after the group's unit was opened.
-- Whatever the plan before it (of as many units as were opened) and the texts of the app, the
-- declaration fails.
pub emit_owning-fails :
    (lib : Library) (c : SideContext) (app : OwningApp) (pid_var : String) (p : Plan)
    (g : GroupNode) (gs : List GroupNode)
    → c.groups ≡ g ∷ gs
    → (e : PlanFault) × ((emit_owning lib c app pid_var (length p.units) >>= λ calls.
          run_calls calls p)
        ≡ failed e)
unfolding emit_owning
emit_owning-fails lib c app pid_var p g gs h =
    ends_late _ (length p.units) (app_start c app) (length p.units) p
      (Opens-then_emit 1 1 _ _
        (Opens-then_emit 1 0 _ _ (Opens-then_emit 1 0 _ _ (opens_unit-Opens _ _) (Opens-any _))
          (Opens-any (emit_transit lib (length p.units) c (container_name c.router app))))
        (rw h (side_network-Opens lib c.host _ c.dev (length p.units) g gs c.ipaddrs c.routes)))
      refl refl
