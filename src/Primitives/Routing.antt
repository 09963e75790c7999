-- ===== src/Primitives/Routing.antt =====
-- deployer/primitives_net.py: addresses, routes and sysctl files in a network namespace
-- (`AddrPrimitive`, `RoutePrimitive`, `SysctlFilePrimitive`). What Python's `ipaddress`, `:g` and
-- `shlex.quote` make of their arguments is a parameter.
use ovn_fabric.Prelude.{
  ℕ, String, ◌<>◌, Bool, true, false, Option, none, some, List, [], ◌∷◌, ◌++◌, str, if◌then◌else◌,
  ◌>>=◌,
}
use ovn_fabric.Value.{Value, null, text, num, end, field}
use ovn_fabric.Lifecycle.{Primitive}
use ovn_fabric.Ladops.Net.{netns_exec_argv, add_addr_argv, add_route_argv, delete_route_argv}
use ovn_fabric.Primitives.Build.{cmd}
use ovn_fabric.Primitives.Net.{ns_arg}
use ovn_fabric.Primitives.Netns.{netns_ref, link_ref}

-- `ipaddress.ip_interface(...)`: whether it is of IPv6, the address, the length of the prefix.
pub record Interface : Type 0 where
  pub is_v6 : Bool
  pub ip : String
  pub prefixlen : ℕ

-- The library's functions: `ip_interface` (none for a `ValueError`), `:g`, `shlex.quote` and
-- `posixpath.dirname`.
pub record Library : Type 0 where
  pub ip_interface : String → Option Interface
  pub general : ℕ → String
  pub quote : String → String
  pub dirname : String → String

pub record Addr : Type 0 where
  pub host : String
  pub netns : Option String
  pub link : String
  pub addr : String

pub record Route : Type 0 where
  pub host : String
  pub netns : Option String
  pub dst : String
  pub dev : String
  pub via : Option String
  pub metric : Option ℕ
  pub table : Option ℕ
  pub family : Option ℕ

pub record SysctlFile : Type 0 where
  pub host : String
  pub netns : String
  pub path : String
  pub value : String

unfoldable pub addr_key : Addr → String
addr_key a = "addr:" <> ns_arg a.netns <> "|" <> a.link <> "|" <> a.addr

or_empty : Option String → String
or_empty none = ""
or_empty (some s) = s

option_text : (ℕ → String) → (absent : String) → Option ℕ → String
option_text f absent none = absent
option_text f absent (some n) = f n

option_num : Option ℕ → Value
option_num none = null
option_num (some n) = num n

pair_words : String → (ℕ → String) → Option ℕ → List String
pair_words word f none = []
pair_words word f (some n) = word ∷ f n ∷ []

via_words : String → Option String → List String
via_words dev none = "dev" ∷ dev ∷ []
via_words dev (some via) = "via" ∷ via ∷ []

family_words : Option ℕ → List String
unfolding str
family_words none = []
family_words (some family) = ("-" <> str family) ∷ []

module _ (lib : Library) where
  unfoldable pub addr_primitive : Addr → Option Primitive
  unfolding addr_key
  addr_primitive a = lib.ip_interface a.addr >>= λ interface. some (record {
    key = addr_key a;
    nodes =
        record {
          id = addr_key a;
          kind = "addr";
          fields = field "netnsRef" (text (netns_ref a.netns)) (
              field "linkRef" (text (link_ref a.netns a.link)) (
                field "family" (text (if interface.is_v6 then "ipv6" else "ipv4")) (
                  field "address" (text interface.ip)
                    (field "prefixlen" (num interface.prefixlen) end))));
        }
        ∷ [];
    create_cmds =
        cmd (a.host <> ":addr " <> a.addr <> " (" <> a.link <> ")")
          (netns_exec_argv (add_addr_argv a.addr a.link) a.netns)
        ∷ [];
    delete_cmds =
        cmd (a.host <> ":addr " <> a.addr <> " (delete)")
          (netns_exec_argv ("ip" ∷ "addr" ∷ "del" ∷ a.addr ∷ "dev" ∷ a.link ∷ []) a.netns)
        ∷ [];
  })

  unfoldable pub route_key : Route → String
  unfolding or_empty option_text str
  route_key r =
      "route:"
      <> ns_arg r.netns
      <> "|"
      <> option_text (λ n. "ipv" <> str n) "any" r.family
      <> "|"
      <> option_text str "main" r.table
      <> "|"
      <> r.dst
      <> "|"
      <> r.dev
      <> "|"
      <> or_empty r.via
      <> "|"
      <> option_text lib.general "" r.metric

  plain_argv : Bool → Route → List String
  plain_argv adds r =
      if adds then add_route_argv r.dst r.dev r.via r.metric else delete_route_argv r.dst r.dev

  verb_of : Bool → String
  verb_of adds = if adds then "add" else "del"

  full_argv : Bool → Route → List String
  unfolding family_words via_words pair_words str verb_of
  full_argv adds r =
      ("ip" ∷ [])
      ++ (family_words r.family
          ++ (("route" ∷ verb_of adds ∷ r.dst ∷ [])
              ++ (via_words r.dev r.via
                  ++ (pair_words "metric" lib.general r.metric ++ pair_words "table" str r.table))))

  route_words : Bool → Route → (table family : Option ℕ) → List String
  unfolding plain_argv full_argv
  route_words adds r none none = plain_argv adds r
  route_words adds r _ _ = full_argv adds r

  -- `_argv`
  route_argv : Bool → Route → List String
  unfolding route_words
  route_argv adds r = netns_exec_argv (route_words adds r r.table r.family) r.netns

  unfoldable pub route_primitive : Route → Primitive
  unfolding route_key route_argv or_empty option_num
  route_primitive r = record {
    key = route_key r;
    nodes =
        record {
          id = route_key r;
          kind = "route";
          fields = field "netnsRef" (text (netns_ref r.netns)) (
              field "prefix" (text r.dst) (
                field "dev" (text r.dev) (
                  field "nexthop" (text (or_empty r.via)) (
                    field "metric" (option_num r.metric) (
                      field "table" (option_num r.table)
                        (field "family" (option_num r.family) end))))));
        }
        ∷ [];
    create_cmds = cmd (r.host <> ":route " <> r.dst <> " (create)") (route_argv true r) ∷ [];
    delete_cmds = cmd (r.host <> ":route " <> r.dst <> " (delete)") (route_argv false r) ∷ [];
  }

  unfoldable pub sysctl_file_primitive : SysctlFile → Primitive
  sysctl_file_primitive s = record {
    key = "sysctl.file:" <> s.netns <> "|" <> s.path;
    nodes =
        record {
          id = "sysctl.file:" <> s.netns <> "|" <> s.path;
          kind = "sysctl";
          fields =
              field "netnsRef" (text ("netns:" <> s.netns))
                (field "path" (text s.path) (field "value" (text s.value) end));
        }
        ∷ [];
    create_cmds =
        cmd (s.host <> ":sysctl-file " <> s.path) (
          netns_exec_argv
            ("sh" ∷ "-c" ∷ ("echo " <> lib.quote s.value <> " > " <> lib.quote s.path) ∷ [])
            (some s.netns))
        ∷ [];
    delete_cmds = [];
  }
