-- ===== src/Kernel/Apps.antt =====
-- The apps of a kernel router's side (deployer/ir_common.py, `_emit_kernel_app_rules`).
use Prim.Native.Char.{code}
use ovn_fabric.Prelude.{
  ℕ, String, ◌<>◌, false, ◌&&◌, Option, none, some, List, [], ◌∷◌, ◌++◌, str_eq, ◌==◌, join,
  sort_names, if◌then◌else◌,
}
use ovn_fabric.Lifecycle.{write_file, directory, chmod_file}
use ovn_fabric.Sysdeps.Names.{is_alnum, is_digit, dedupe}
use ovn_fabric.Primitives.Net.{NetObject, net_primitive, iptables_rule}
use ovn_fabric.Primitives.Routing.{Library}
use ovn_fabric.Plan.Calls.{
  bad_value, unplannable, Outcome, done, failed, ◌>>=◌, Emission, nothing, refuses, for_each, given,
  ◌then_emit◌,
}
use ovn_fabric.Cluster.Nodes.{Family, ipv4, ipv6, GroupRef, Rule, masq}
use ovn_fabric.Kernel.Nodes.{
  KernelNode, WireguardConfig, KernelApp, dhclient, owning, wired, wireguard, zerotier, unsupported,
}
use ovn_fabric.Kernel.Network.{declaring, group_named}
use ovn_fabric.Kernel.Container.{SideContext, container_name, doing, opens_unit, emit_owning}

-- `local` of the container's name with `-pid`: no other local name of the unit is like it.
safe : String → String
safe String.[] = ""
safe (String.◌∷◌ c s) =
    let rest = safe s in if is_alnum (code c) then String.◌∷◌ c rest else "_" <> rest

strip_left : String → String
strip_left String.[] = ""
strip_left (String.◌∷◌ c s) =
    let rest = strip_left s in if code c == b'_' then rest else String.◌∷◌ c s

strip_right : String → String
strip_right String.[] = ""
strip_right (String.◌∷◌ c s) =
    let rest = strip_right s in if code c == b'_' && str_eq rest "" then "" else String.◌∷◌ c rest

no_digit : String → String
no_digit String.[] = "ovn"
no_digit (String.◌∷◌ c s) = if is_digit (code c) then "_" <> String.◌∷◌ c s else String.◌∷◌ c s

unfoldable pub pid_name : String → String
unfolding safe strip_left strip_right no_digit
pid_name container = no_digit (strip_right (strip_left (safe (container <> "-pid"))))

family_name : Family → String
family_name ipv4 = "ipv4"
family_name ipv6 = "ipv6"

masq_names : List Rule → List String
unfolding family_name
masq_names [] = []
masq_names (masq f ∷ rs) = family_name f ∷ masq_names rs
masq_names (r ∷ rs) = masq_names rs

group_families : List GroupRef → List KernelNode → Outcome (List String)
unfolding masq_names
group_families [] ns = done []
group_families (r ∷ rs) ns =
    let rest = group_families rs ns in
    elim (group_named r.name ns) [
      | none ↦ failed bad_value
      | some g ↦ rest >>= λ fs. done (masq_names g.rules ++ fs)
    ]

-- `_masq_families`
unfoldable pub masq_families : List GroupRef → List KernelNode → Outcome (List String)
unfolding group_families
masq_families rs ns = group_families rs ns >>= λ fs. done (sort_names (dedupe fs))

tool_of : String → String
tool_of family = if str_eq family "ipv4" then "iptables" else "ip6tables"

optional_line : String → Option String → List String
optional_line label none = []
optional_line label (some s) = (label <> s) ∷ []

option_map : (ℕ → String) → Option ℕ → Option String
option_map f none = none
option_map f (some n) = some (f n)

-- `_wg_conf_lines`
wg_conf_lines : Library → WireguardConfig → List String
unfolding optional_line option_map
wg_conf_lines lib c =
    ("[Interface]" ∷ ("PrivateKey = " <> c.private_key) ∷ ("Address = " <> c.address) ∷ [])
    ++ (optional_line "ListenPort = " (option_map lib.general c.listen_port)
        ++ (optional_line "DNS = " c.dns
            ++ (("[Peer]"
                  ∷ ("PublicKey = " <> c.public_key)
                  ∷ ("AllowedIPs = " <> c.allowed_ips)
                  ∷ ("Endpoint = " <> c.endpoint)
                  ∷ [])
                ++ optional_line "PersistentKeepalive = " (option_map lib.general c.keepalive))))

unfoldable pub emit_masq : ℕ → (host netns iface : String) → List String → Emission
unfolding tool_of
emit_masq on host netns iface families = for_each families (λ family. declaring on (
    net_primitive (
      iptables_rule host netns (tool_of family) "nat" "POSTROUTING"
        ("-o" ∷ iface ∷ "-j" ∷ "MASQUERADE" ∷ []))))

unfoldable pub emit_tunnel :
    Library
    → SideContext
    → (iface : String) → WireguardConfig
    → List GroupRef
    → List KernelNode
    → ℕ
    → Emission
unfolding wg_conf_lines
emit_tunnel lib c iface config groups ns on =
    let conf_path = "/etc/wireguard/" <> iface <> ".conf" in
    doing on (directory c.host "/etc/wireguard" false)
    then_emit doing on (write_file conf_path (join "\n" (wg_conf_lines lib config)) none)
    then_emit doing on (chmod_file c.host conf_path "600")
    then_emit declaring on (net_primitive (NetObject.wireguard c.host c.netns iface conf_path))
    then_emit given (masq_families groups ns) (emit_masq on c.host c.netns iface)

-- An app on a unit of its own.
unfoldable pub own_unit : (subject : String) → (ℕ → Emission) → Emission
own_unit subject e n = (opens_unit "kernel app" subject then_emit e n) n

unfoldable pub emit_dhclient : Library → SideContext → ℕ → Emission
emit_dhclient lib c on =
    let lease = "/var/lib/dhcp/dhclient." <> c.router <> ".leases" in
    doing on (directory c.host (lib.dirname lease) false)
    then_emit declaring on (net_primitive (NetObject.dhclient c.host c.netns c.dev lease))

-- `_emit_kernel_app_rules` of one app. `helper` of `PlanEmitter` raises.
unfoldable pub emit_app : Library → SideContext → List KernelNode → KernelApp → Emission
unfolding own_unit emit_dhclient emit_tunnel
emit_app lib c ns dhclient =
    own_unit ("dhcp-client (dhclient) on " <> c.dev <> " in " <> c.netns) (emit_dhclient lib c)
emit_app lib c ns (owning app) = emit_owning lib c app (pid_name (container_name c.router app))
emit_app lib c ns (wired none) = refuses bad_value
emit_app lib c ns (wired (some router_ip)) = refuses (unplannable "_docker_veth_up")
emit_app lib c ns (wireguard (some iface) (some config) groups) =
    own_unit ("wireguard (" <> iface <> ") in " <> c.netns)
      (emit_tunnel lib c iface config groups ns)
emit_app lib c ns (wireguard _ _ groups) = refuses bad_value
emit_app lib c ns (zerotier (some network_id) (some instance_dir) groups) =
    given (masq_families groups ns) (λ families. refuses (unplannable "_zerotier_up"))
emit_app lib c ns (zerotier _ _ groups) = refuses bad_value
emit_app lib c ns unsupported = nothing
