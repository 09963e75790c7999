-- ===== src/Primitives/Objects.antt =====
-- What the primitives of many objects have in common (deployer/primitives_*.py): the raw node that they
-- leave, the commands of their DELETE, and their way through a step of a unit.
use ovn_fabric.Prelude.{String, suc, ap, ◌≡◌, refl, false, some, List, [], ◌∷◌, ◌++◌, length, All}
use ovn_fabric.Lifecycle.{
  Action, exec, Host, ok, Fault, Run, Command, Primitive, Controller, words, limit,
  delete_primitive, remove,
}
use ovn_fabric.Lifecycle.BestEffort.{planned, delete_primitive_lem}
use ovn_fabric.Primitives.Build.{texts, cmd}
use ovn_fabric.Primitives.Ovs.{OvsObject, ovs_primitive}
use ovn_fabric.Primitives.Ovn.{OvnObject, ovn_primitive}
use ovn_fabric.Primitives.Docker.{DockerObject, docker_primitive}
use ovn_fabric.Primitives.Net.{NetObject, net_primitive}

-- Of the objects whose delete commands hold texts alone: the ones of the bridge, of OVN and of
-- Docker, and those of a namespace that `NetObject` has. Not among them are the links, addresses,
-- routes and sysctl files of a namespace, and the objects of the host itself.
pub data HostObject : Type 0 where
  ovs : OvsObject → HostObject
  ovn : OvnObject → HostObject
  docker : DockerObject → HostObject
  net : NetObject → HostObject

unfoldable pub object_primitive : HostObject → Primitive
object_primitive (ovs x) = ovs_primitive x
object_primitive (ovn x) = ovn_primitive x
object_primitive (docker x) = docker_primitive x
object_primitive (net x) = net_primitive x

words-texts : (ss : List String) → words (texts ss) ≡ some ss
unfolding words texts
words-texts [] = refl
words-texts (s ∷ ss) = rw (words-texts ss)

-- Every command of the list holds texts alone.
abbrev pub AreTexts : List Command → Type 0
AreTexts cmds = All (λ c. (ss : List String) × (c.argv ≡ texts ss)) cmds

pub planned-AreTexts :
    (c : Controller) (cmds : List Command)
    → AreTexts cmds
    → (acts : List Action) × (planned c cmds ≡ some acts) × (length acts ≡ length cmds)
planned-AreTexts c [] h = ([], refl, refl)
planned-AreTexts c (k ∷ cmds) h =
    let (ss, e) = h.0 in
    let (acts, p, n) = planned-AreTexts c cmds h.1 in
    (exec ss (limit c k.timeout) ∷ acts, rw (e, words-texts ss, p), ap suc n)

-- All nodes of a primitive have its key for their id.
abbrev pub IsOwn : Primitive → Type 0
IsOwn p = All (λ t. t.id ≡ p.key) p.nodes

-- What the primitive of each of them is: its own nodes, and commands of texts for its DELETE.
pub record IsRegular (p : Primitive) : Type 0 where
  pub own : IsOwn p
  pub deletes : AreTexts p.delete_cmds

IsRegular-ovs : (x : OvsObject) → IsRegular (ovs_primitive x)
unfolding ovs_primitive cmd
IsRegular-ovs (OvsObject.bridge name datapath fail_mode) = record {
  own = (refl, tt);
  deletes = ((_, refl), tt);
}
IsRegular-ovs _ = record { own = (refl, tt); deletes = ((_, refl), tt) }

IsRegular-ovn : (x : OvnObject) → IsRegular (ovn_primitive x)
unfolding ovn_primitive cmd
IsRegular-ovn (OvnObject.ls name) = record { own = (refl, tt); deletes = ((_, refl), tt) }
IsRegular-ovn _ = record { own = (refl, tt); deletes = ((_, refl), tt) }

IsRegular-docker : (x : DockerObject) → IsRegular (docker_primitive x)
unfolding docker_primitive cmd
IsRegular-docker (DockerObject.exec_detached c argv) = record { own = tt; deletes = tt }
IsRegular-docker _ = record { own = (refl, tt); deletes = ((_, refl), tt) }

IsRegular-net : (x : NetObject) → IsRegular (net_primitive x)
unfolding net_primitive cmd
IsRegular-net (NetObject.sysctl host netns key value) = record { own = (refl, tt); deletes = tt }
IsRegular-net _ = record { own = (refl, tt); deletes = ((_, refl), tt) }

pub object-IsRegular : (x : HostObject) → IsRegular (object_primitive x)
unfolding object_primitive
object-IsRegular (ovs x) = IsRegular-ovs x
object-IsRegular (ovn x) = IsRegular-ovn x
object-IsRegular (docker x) = IsRegular-docker x
object-IsRegular (net x) = IsRegular-net x

-- For each object of Open vSwitch, OVN and Docker and each `NetObject`, a DELETE runs the object's
-- delete commands, every one of them and in their order, with their limits of time, and takes its
-- node out of the raw graph; it does not raise, whatever the host answers and whatever the store
-- holds, which it leaves alone. Their commands never wait for a value of the store.
pub delete_object :
    (host : Host) (c : Controller) (x : HostObject) (r : Run)
    → c.creating ≡ false
    → (acts : List Action) × (w : List Fault) × (planned c (object_primitive x).delete_cmds
        ≡ some acts)
      × (length acts ≡ length (object_primitive x).delete_cmds)
      × (delete_primitive host c (object_primitive x) r ≡ (
        ok tt,
        record r {
          trace = r.trace ++ acts;
          warned = w;
          graph = remove (object_primitive x).key r.graph;
        },
      ))
delete_object host c x r deleting =
    let p = object_primitive x in
    let (acts, plans, n) = planned-AreTexts c p.delete_cmds (object-IsRegular x).deletes in
    let (w, ran) = delete_primitive_lem host c deleting p acts r plans in (acts, w, plans, n, ran)
