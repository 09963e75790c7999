-- ===== src/Kernel/Container.antt =====
-- A docker app whose container owns the interfaces of a kernel router's side (deployer/ir_common.py,
-- `_emit_kernel_app_rules` for a docker app without an address, and `_emit_image`).
use ovn_fabric.Prelude.{
  ℕ, String, ◌<>◌, true, false, Option, none, some, List, [], ◌∷◌, ◌++◌, str_eq, if◌then◌else◌,
}
use ovn_fabric.Lifecycle.{Operation, primitive, write_file, directory, chmod_file}
use ovn_fabric.Primitives.Net.{net_primitive, sysctl, link_move}
use ovn_fabric.Primitives.Netns.{namespace_primitive}
use ovn_fabric.Primitives.NetnsLink.{or_else}
use ovn_fabric.Primitives.Docker.{
  Container, docker_primitive, image, pull, container, exec_detached,
}
use ovn_fabric.Primitives.Routing.{Library}
use ovn_fabric.Plan.Calls.{
  done, unit, does, capture_value, netns_symlink, Emission, nothing, for_each, ◌then_emit◌,
}
use ovn_fabric.Cluster.Nodes.{GroupNode}
use ovn_fabric.Kernel.Nodes.{SideRoute, OwningApp}
use ovn_fabric.Kernel.Network.{declaring, side_network}

-- `_SideContext`, and the router
pub record SideContext : Type 0 where
  pub router : String
  pub host : String
  pub netns : String
  pub dev : String
  pub transit_leg : Option String
  pub groups : List GroupNode
  pub ipaddrs : List String
  pub routes : List SideRoute
  pub transit_ipaddrs : List String
  pub transit_routes : List SideRoute

-- An operation on the unit `on`.
unfoldable pub doing : ℕ → Operation → Emission
doing on op n = done (does (some on) op ∷ [])

unfoldable pub opens_unit : String → String → Emission
opens_unit kind subject n = done (unit kind (some subject) ∷ [])

-- `app.name or f"{router}-docker"`, and the image's name
unfoldable pub container_name : String → OwningApp → String
unfolding or_else
container_name router app = or_else app.name (router <> "-docker")

unfoldable pub image_name : String → OwningApp → String
unfolding or_else
image_name router app = or_else app.image ("ovn-fabric-" <> container_name router app)

-- `_emit_image`
unfoldable pub emit_image : ℕ → (host name : String) → Option String → (dir : String) → Emission
unfolding doing
emit_image on host name none dir = doing on (primitive (docker_primitive (pull name)))
emit_image on host name (some dockerfile) dir =
    doing on (directory host dir false)
    then_emit doing on (write_file (dir <> "/Dockerfile") dockerfile none)
    then_emit doing on (primitive (docker_primitive (image name (dir <> "/Dockerfile") dir)))

-- The host's directory of the volume that zerotier keeps its state in.
state_dir : List (String × String) → Option String
state_dir [] = none
state_dir ((host_path, path) ∷ vs) =
    let rest = state_dir vs in if str_eq path "/var/lib/zerotier-one" then some host_path else rest

unfoldable pub emit_identity :
    ℕ → (host : String) → Option (String × String) → Option String → Emission
unfolding doing
emit_identity on host (some (public, secret)) (some dir) =
    doing on (write_file (dir <> "/identity.public") public none)
    then_emit doing on (write_file (dir <> "/identity.secret") secret none)
    then_emit doing on (chmod_file host (dir <> "/identity.public") "644")
    then_emit doing on (chmod_file host (dir <> "/identity.secret") "600")
emit_identity on host _ _ = nothing

unfoldable pub owning_container : String → OwningApp → Container
owning_container router app = record {
  name = container_name router app;
  image = image_name router app;
  command = "sleep" ∷ "infinity" ∷ [];
  privileged = true;
  network = "none";
  environment = [];
  volumes = app.volumes;
  run_flags = app.run;
  remove_existing = true;
}

-- The container's process, and the name of its namespace.
unfoldable pub emit_pid : ℕ → (name pid_var : String) → Emission
emit_pid on name pid_var n = done (
    capture_value (some on) pid_var
      ("/usr/bin/docker" ∷ "inspect" ∷ "-f" ∷ "{{.State.Pid}}" ∷ name ∷ [])
    ∷ netns_symlink (some on) name pid_var
    ∷ [])

-- `if leg:`, of the transit leg
given_leg : Option String → List String
given_leg none = []
given_leg (some leg) = if str_eq leg "" then [] else leg ∷ []

legs : Option String → (dev : String) → List String
unfolding given_leg
legs leg dev = given_leg leg ++ given_leg (some dev)

unfoldable pub emit_transit : Library → ℕ → SideContext → (name : String) → Emission
unfolding given_leg
emit_transit lib on c name =
    for_each (given_leg c.transit_leg)
      (λ leg. side_network lib c.host name leg on [] c.transit_ipaddrs c.transit_routes)

or_sh : List String → List String
or_sh [] = "sh" ∷ []
or_sh command = command

unfoldable pub app_start : SideContext → OwningApp → Operation
unfolding or_sh
app_start c app = primitive (
    docker_primitive
      (exec_detached (container_name c.router app) (or_sh app.command ++ (c.dev ∷ []))))

-- What comes before the addresses of the side: `pid_var` is the name that `local` gives.
unfoldable pub emit_container : ℕ → SideContext → OwningApp → (pid_var : String) → Emission
unfolding doing emit_image emit_identity emit_pid state_dir legs
emit_container on c app pid_var =
    let name = container_name c.router app in
    emit_image on c.host (image_name c.router app) app.build ("/var/lib/ovn-fabric/build/" <> name)
    then_emit for_each app.volumes (λ (host_path, path). doing on (directory c.host host_path true))
    then_emit emit_identity on c.host app.identity (state_dir app.volumes)
    then_emit doing on (primitive (docker_primitive (container (owning_container c.router app))))
    then_emit emit_pid on name pid_var
    then_emit declaring on
        (namespace_primitive (record { host = c.host; name = some name; owned = false }))
    then_emit for_each (legs c.transit_leg c.dev)
        (λ leg. declaring on (net_primitive (link_move c.host c.netns leg name)))
    then_emit declaring on (net_primitive (sysctl c.host name "net.ipv4.ip_forward" "1"))
    then_emit declaring on (net_primitive (sysctl c.host name "net.ipv6.conf.all.forwarding" "1"))

-- The whole app. All operations are on the unit that it opens first.
unfoldable pub emit_owning : Library → SideContext → OwningApp → (pid_var : String) → Emission
unfolding opens_unit emit_container emit_transit doing app_start
emit_owning lib c app pid_var n =
    let name = container_name c.router app in
    (opens_unit "kernel app"
          ("docker (owns the interfaces) (" <> name <> ") on " <> c.dev <> " in " <> c.netns)
        then_emit emit_container n c app pid_var
        then_emit emit_transit lib n c name
        then_emit side_network lib c.host name c.dev n c.groups c.ipaddrs c.routes
        then_emit doing n (app_start c app))
      n
