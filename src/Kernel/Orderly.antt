-- ===== src/Kernel/Orderly.antt =====
-- The declaration of a kernel router (deployer/ir_common.py) keeps to the discipline of fabric/plan.py.
use ovn_fabric.Prelude.{
  ℕ, String, ◌<>◌, ◌≡◌, refl, true, Option, none, some, List, [], ◌∷◌, All, arith,
}
use mathlib.Core.Path.{subst}
use ovn_fabric.Lifecycle.{Primitive}
use ovn_fabric.Primitives.Netns.{namespace_primitive}
use ovn_fabric.Primitives.Routing.{Library}
use ovn_fabric.Plan.Calls.{Outcome, done, failed, Call, opens, Emission, refuses, for_each, given}
use ovn_fabric.Plan.Units.{new_plan}
use ovn_fabric.Plan.Discipline.{
  IsOrderly, Holds, IsOrderlyEmission, IsPlanned, IsPlanned-eq, nothing-IsOrderly,
  then_emit-IsOrderly, given-IsOrderly, run_calls-IsPlanned,
}
use ovn_fabric.Cluster.Nodes.{GroupRef, GroupNode}
use ovn_fabric.Kernel.Nodes.{
  Side, left, right, SideNode, Owner, OwningApp, KernelNode, KernelApp, dhclient, owning, wired,
  wireguard, zerotier, unsupported,
}
use ovn_fabric.Kernel.Network.{declaring, groups_from}
use ovn_fabric.Kernel.Container.{SideContext, doing, emit_transit, app_start, emit_owning}
use ovn_fabric.Kernel.Apps.{
  own_unit, emit_masq, emit_tunnel, emit_dhclient, emit_app, masq_families,
}
use ovn_fabric.Kernel.Router.{
  device, emit_accept, emit_device, emit_known, emit_on, emit_side, emit_namespaces, emit_router,
  router_plan, sides_of, context, Transit,
}
use ovn_fabric.Kernel.Stays.{
  Begins-Follows, Begins-opens_keyed, Begins-opens_unit, Begins-then_emit, Follows-side_network,
  Stays, Stays-Follows, Stays-declaring, Stays-doing, Stays-emit_container, Stays-for_each,
  Stays-given, Stays-nothing, Stays-side_network, Stays-then_emit,
}

module _ (on : ℕ) where
  Stays-emit_transit :
      (lib : Library) (c : SideContext) (name : String) → Stays on (emit_transit lib on c name)
  unfolding emit_transit
  Stays-emit_transit lib c name =
      Stays-for_each on _ _
        (λ leg. Stays-side_network on lib c.host name leg c.transit_ipaddrs c.transit_routes)

  Stays-emit_masq :
      (host netns iface : String) (families : List String)
      → Stays on (emit_masq on host netns iface families)
  unfolding emit_masq
  Stays-emit_masq host netns iface families =
      Stays-for_each on families _ (λ family. Stays-declaring on _)

emit_owning-IsOrderly :
    (lib : Library) (c : SideContext) (app : OwningApp) (pid_var : String)
    → c.groups ≡ []
    → IsOrderlyEmission (emit_owning lib c app pid_var)
unfolding emit_owning
emit_owning-IsOrderly lib c app pid_var no_groups n =
    Begins-Follows n _ _
      (Begins-then_emit n _ _
        (Begins-then_emit n _ _
          (Begins-then_emit n _ _ (Begins-opens_unit n _ _) (Stays-emit_container n c app pid_var))
          (Stays-emit_transit n lib c _))
        (rw no_groups (Stays-side_network n lib c.host _ c.dev c.ipaddrs c.routes)))
      (Stays-Follows n (doing n (app_start c app)) (Stays-doing n (app_start c app)))

own_unit-IsOrderly :
    (subject : String) (e : ℕ → Emission)
    → ((n : ℕ) → Stays n (e n))
    → IsOrderlyEmission (own_unit subject e)
unfolding own_unit
own_unit-IsOrderly subject e h n =
    Begins-Follows n _ _ (Begins-opens_unit n _ _) (Stays-Follows n (e n) (h n))

-- No container owns the interfaces of a side that has groups.
abbrev pub HasPlan : List GroupNode → KernelApp → Type 0
HasPlan groups (owning app) = groups ≡ []
HasPlan groups _ = Unit

emit_app-IsOrderly :
    (lib : Library) (c : SideContext) (ns : List KernelNode) (app : KernelApp)
    → HasPlan c.groups app
    → IsOrderlyEmission (emit_app lib c ns app)
unfolding emit_app emit_dhclient emit_tunnel refuses
emit_app-IsOrderly lib c ns dhclient h =
    own_unit-IsOrderly _ (emit_dhclient lib c)
      (λ n. Stays-then_emit n _ _ (Stays-doing n _) (Stays-declaring n _))
emit_app-IsOrderly lib c ns (owning app) h = emit_owning-IsOrderly lib c app _ h
emit_app-IsOrderly lib c ns (wired none) h = λ n. tt
emit_app-IsOrderly lib c ns (wired (some ip)) h = λ n. tt
emit_app-IsOrderly lib c ns (wireguard none config groups) h = λ n. tt
emit_app-IsOrderly lib c ns (wireguard (some iface) none groups) h = λ n. tt
emit_app-IsOrderly lib c ns (wireguard (some iface) (some config) groups) h =
    own_unit-IsOrderly _ (emit_tunnel lib c iface config groups ns) (λ n.
      Stays-then_emit n _ _
        (Stays-then_emit n _ _
          (Stays-then_emit n _ _ (Stays-then_emit n _ _ (Stays-doing n _) (Stays-doing n _))
            (Stays-doing n _))
          (Stays-declaring n _))
        (Stays-given n (masq_families groups ns) _ (Stays-emit_masq n c.host c.netns iface)))
emit_app-IsOrderly lib c ns (zerotier none dir groups) h = λ n. tt
emit_app-IsOrderly lib c ns (zerotier (some id) none groups) h = λ n. tt
emit_app-IsOrderly lib c ns (zerotier (some id) (some dir) groups) h =
    given-IsOrderly (masq_families groups ns) _ (λ families n. tt)
emit_app-IsOrderly lib c ns unsupported h = nothing-IsOrderly

apps-IsOrderly :
    (lib : Library) (c : SideContext) (ns : List KernelNode) (apps : List KernelApp)
    → All (HasPlan c.groups) apps
    → IsOrderlyEmission (for_each apps (emit_app lib c ns))
unfolding for_each
apps-IsOrderly lib c ns [] h = nothing-IsOrderly
apps-IsOrderly lib c ns (app ∷ apps) h =
    then_emit-IsOrderly _ _ (emit_app-IsOrderly lib c ns app h.0) (apps-IsOrderly lib c ns apps h.1)

Stays-emit_accept :
    (on : ℕ) (lib : Library) (host netns dev : String) (s : Side)
    → Stays on (emit_accept lib host netns dev on s)
unfolding emit_accept
Stays-emit_accept on lib host netns dev left = Stays-nothing on
Stays-emit_accept on lib host netns dev right = Stays-declaring on _

emit_device-IsOrderly :
    (lib : Library) (ns : List KernelNode) (c : SideContext) (s : SideNode)
    (groups : List GroupNode)
    → IsOrderlyEmission (emit_device lib ns c s groups)
unfolding emit_device
emit_device-IsOrderly lib ns c s groups n =
    Begins-Follows n _ _
      (Begins-then_emit n _ _
        (Begins-then_emit n _ _ (Begins-opens_unit n _ _)
          (Stays-given n _ _ (λ p. Stays-declaring n p)))
        (Stays-emit_accept n lib c.host c.netns c.dev s.side))
      (Follows-side_network n lib c.host c.netns c.dev s.ipaddrs s.routes groups)

-- An app whose container owns the interfaces is on a side without security groups.
abbrev pub IsUngrouped : List GroupRef → KernelApp → Type 0
IsUngrouped refs (owning app) = refs ≡ []
IsUngrouped refs _ = Unit

abbrev pub CanPlan : SideNode → Type 0
CanPlan s = All (IsUngrouped s.security_groups) s.apps

no_groups_from :
    (refs : List GroupRef) (ns : List KernelNode) (groups : List GroupNode)
    → groups_from refs ns ≡ done groups
    → refs ≡ []
    → groups ≡ []
unfolding groups_from
no_groups_from [] ns groups e h = ground (arith, e)
no_groups_from (r ∷ refs) ns groups e h = ground (arith, h)

HasPlan-ungrouped :
    (refs : List GroupRef) (ns : List KernelNode) (groups : List GroupNode)
    → groups_from refs ns ≡ done groups
    → (apps : List KernelApp) → All (IsUngrouped refs) apps
    → All (HasPlan groups) apps
HasPlan-ungrouped refs ns groups e [] h = tt
HasPlan-ungrouped refs ns groups e (app ∷ apps) h =
    (one app h.0, HasPlan-ungrouped refs ns groups e apps h.1)
  where
    one : (app : KernelApp) → IsUngrouped refs app → HasPlan groups app
    one (owning app) j = no_groups_from refs ns groups e j
    one dhclient j = tt
    one (wired ip) j = tt
    one (wireguard iface config gs) j = tt
    one (zerotier id dir gs) j = tt
    one unsupported j = tt

module _ {A : Type 0} (f : A → Emission) where
  given-found :
      (o : Outcome A)
      → ((x : A) → o ≡ done x → IsOrderlyEmission (f x))
      → IsOrderlyEmission (given o f)
  unfolding given refuses
  given-found (done x) h = h x refl
  given-found (failed e) h = λ n. tt

module _ (lib : Library) (ns : List KernelNode) (router host netns : String) (t : Transit) where
  emit_known-IsOrderly :
      (dev : String) (s : SideNode) (groups : List GroupNode)
      → All (HasPlan groups) s.apps
      → IsOrderlyEmission (emit_known lib ns router host netns dev t s groups)
  unfolding emit_known context
  emit_known-IsOrderly dev s groups h =
      then_emit-IsOrderly _ _
        (emit_device-IsOrderly lib ns (context router host netns dev t s groups) s groups)
        (apps-IsOrderly lib (context router host netns dev t s groups) ns s.apps h)

  emit_side-IsOrderly :
      (s : SideNode) → CanPlan s → IsOrderlyEmission (emit_side lib ns router host netns t s)
  unfolding emit_side emit_on
  emit_side-IsOrderly s h = go (device s.side s.ifaces)
    where
      go : (dev : Option String) → IsOrderlyEmission (emit_on lib ns router host netns t s dev)
      go none = nothing-IsOrderly
      go (some dev) = given-found _ (groups_from s.security_groups ns) (λ groups e.
          emit_known-IsOrderly dev s groups
            (HasPlan-ungrouped s.security_groups ns groups e s.apps h))

  sides-IsOrderly :
      (ss : List SideNode)
      → All CanPlan ss
      → IsOrderlyEmission (for_each ss (emit_side lib ns router host netns t))
  unfolding for_each
  sides-IsOrderly [] h = nothing-IsOrderly
  sides-IsOrderly (s ∷ ss) h =
      then_emit-IsOrderly _ _ (emit_side-IsOrderly s h.0) (sides-IsOrderly ss h.1)

emit_namespaces-IsOrderly :
    (o : Owner) (host netns : String) → IsOrderlyEmission (emit_namespaces o host netns)
unfolding emit_namespaces
emit_namespaces-IsOrderly o host netns n =
    Begins-Follows n _ (declaring n namespace)
      (Begins-then_emit n _ _ (Begins-opens_keyed n _ _ _) (Stays-declaring n _))
      (Stays-Follows n (declaring n namespace) (Stays-declaring n namespace))
  where
    namespace : Primitive
    namespace = namespace_primitive (record { host = host; name = some netns; owned = true })

-- When a kernel router can be declared, and no app's container owns the interfaces of a side with
-- security groups, its plan has one unit for each that was opened, or the refusal has another reason
-- than an operation outside any unit or on a unit that is not the newest.
pub router_plan-IsPlanned :
    (lib : Library) (ns : List KernelNode) (o : Owner) (calls : List Call)
    → All CanPlan (sides_of o.name ns)
    → emit_router lib ns o ("ns-" <> o.name) 0 ≡ done calls
    → IsPlanned (opens calls) (router_plan lib ns o)
unfolding router_plan new_plan emit_router
router_plan-IsPlanned lib ns o calls plain e =
    let orderly : Holds (IsOrderly 0) (done calls) = subst (Holds (IsOrderly 0)) e (
      then_emit-IsOrderly _ _ (emit_namespaces-IsOrderly o _ _)
        (sides-IsOrderly lib ns o.name _ _ _ (sides_of o.name ns) plain) 0) in
    rw e (IsPlanned-eq _ (omega arith) (run_calls-IsPlanned calls 0 (new_plan o.name) orderly refl))
