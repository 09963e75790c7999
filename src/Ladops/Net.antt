-- ===== src/Ladops/Net.antt =====
-- ladops/netns.py and ladops/linux_net.py: the `ip` command lines.
use ovn_fabric.Prelude.{
  ℕ, String, Option, none, some, List, [], ◌∷◌, ◌++◌, str, str_eq, if◌then◌else◌,
}

unfoldable pub netns_exec_argv : List String → Option String → List String
netns_exec_argv argv none = argv
netns_exec_argv argv (some netns) = "ip" ∷ "netns" ∷ "exec" ∷ netns ∷ argv

unfoldable pub add_netns_argv : String → List String
add_netns_argv name = "ip" ∷ "netns" ∷ "add" ∷ name ∷ []

unfoldable pub delete_netns_argv : String → List String
delete_netns_argv name = "ip" ∷ "netns" ∷ "delete" ∷ name ∷ []

unfoldable pub add_addr_argv : (addr dev : String) → List String
add_addr_argv addr dev = "ip" ∷ "addr" ∷ "add" ∷ addr ∷ "dev" ∷ dev ∷ []

unfoldable pub delete_addr_argv : (addr dev : String) → List String
delete_addr_argv addr dev = "ip" ∷ "addr" ∷ "del" ∷ addr ∷ "dev" ∷ dev ∷ []

-- `via` only for a next hop that is given, not empty, and not the device itself
via : String → Option String → List String
via dev none = []
via dev (some nexthop) =
    if str_eq nexthop "" then [] else if str_eq nexthop dev then [] else "via" ∷ nexthop ∷ []

metric_words : Option ℕ → List String
unfolding str
metric_words none = []
metric_words (some metric) = "metric" ∷ str metric ∷ []

unfoldable pub add_route_argv : (prefix dev : String) → Option String → Option ℕ → List String
unfolding via metric_words
add_route_argv prefix dev nexthop metric =
    ("ip" ∷ "route" ∷ "add" ∷ prefix ∷ "dev" ∷ dev ∷ []) ++ (via dev nexthop ++ metric_words metric)

unfoldable pub delete_route_argv : (prefix dev : String) → List String
delete_route_argv prefix dev = "ip" ∷ "route" ∷ "del" ∷ prefix ∷ "dev" ∷ dev ∷ []

unfoldable pub add_vlan_argv : (parent name : String) → ℕ → List String
unfolding str
add_vlan_argv parent name vlan_id =
    "ip"
    ∷ "link"
    ∷ "add"
    ∷ "link"
    ∷ parent
    ∷ "name"
    ∷ name
    ∷ "type"
    ∷ "vlan"
    ∷ "id"
    ∷ str vlan_id
    ∷ []

unfoldable pub add_dummy_argv : String → List String
add_dummy_argv name = "ip" ∷ "link" ∷ "add" ∷ name ∷ "type" ∷ "dummy" ∷ []

address_words : Option String → List String
address_words none = []
address_words (some mac) = "address" ∷ mac ∷ []

unfoldable pub add_veth_argv : (name peer : String) → Option String → List String
unfolding address_words
add_veth_argv name peer peer_mac =
    ("ip" ∷ "link" ∷ "add" ∷ name ∷ "type" ∷ "veth" ∷ "peer" ∷ "name" ∷ peer ∷ [])
    ++ address_words peer_mac

unfoldable pub set_link_up_argv : String → List String
set_link_up_argv name = "ip" ∷ "link" ∷ "set" ∷ name ∷ "up" ∷ []

unfoldable pub delete_link_argv : String → List String
delete_link_argv name = "ip" ∷ "link" ∷ "delete" ∷ name ∷ []

unfoldable pub add_if_to_netns_argv : (dev netns : String) → List String
add_if_to_netns_argv dev netns = "ip" ∷ "link" ∷ "set" ∷ dev ∷ "netns" ∷ netns ∷ []
