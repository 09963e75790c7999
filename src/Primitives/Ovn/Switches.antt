-- ===== src/Primitives/Ovn/Switches.antt =====
-- deployer/primitives_ovn.py: logical switches, their ports and their access rules.
use ovn_fabric.Prelude.{
  ℕ, String, ◌<>◌, Option, none, some, List, [], ◌∷◌, ◌++◌, join, str_eq, if◌then◌else◌,
}
use ovn_fabric.Value.{text, num, arr, obj, nil, end, field}
use ovn_fabric.Lifecycle.{Command, Primitive}
use ovn_fabric.Ladops.Ovn
use ovn_fabric.Primitives.Build.{cmd, text_list, sort_pairs, dict_of}
use ovn_fabric.Primitives.Ovn.Kinds.{Pairs, ls, lsp, acl, ovn_key}

unfoldable pub ls_primitive : String → Primitive
unfolding ovn_key
ls_primitive name = record {
  key = ovn_key (ls name);
  nodes =
      record {
        id = ovn_key (ls name);
        kind = "ovn.ls";
        fields =
            field "name" (text name)
              (field "portRefs" (arr nil) (field "externalIds" (obj end) end));
      }
      ∷ [];
  create_cmds = cmd ("ls:" <> name <> " (create)") (Ovn.ls_add_argv name) ∷ [];
  delete_cmds = cmd ("ls:" <> name <> " (delete)") (Ovn.ls_del_argv name) ∷ [];
}

-- `if self.type`: a type that is given and not empty
set_type : String → Option String → List Command
set_type name none = []
set_type name (some type) =
    if str_eq type ""
    then []
    else cmd ("lsp:" <> name <> " (type)") ("ovn-nbctl" ∷ "lsp-set-type" ∷ name ∷ type ∷ []) ∷ []

set_addresses : String → List String → List Command
set_addresses name [] = []
set_addresses name addresses =
    cmd ("lsp:" <> name <> " (addresses)")
      ("ovn-nbctl" ∷ "lsp-set-addresses" ∷ name ∷ join "," addresses ∷ [])
    ∷ []

set_options : String → Pairs → List Command
set_options name [] = []
set_options name ((key, value) ∷ rest) =
    cmd ("lsp:" <> name <> " (option " <> key <> ")")
      ("ovn-nbctl" ∷ "lsp-set-options" ∷ name ∷ (key <> "=" <> value) ∷ [])
    ∷ set_options name rest

or_empty : Option String → String
or_empty none = ""
or_empty (some s) = s

unfoldable pub lsp_primitive :
    (switch name : String)
    → Option String
    → (addresses : List String) → (options : Pairs) → Primitive
unfolding set_type set_addresses set_options or_empty ovn_key
lsp_primitive switch name type addresses options = record {
  key = ovn_key (lsp switch name type addresses options);
  nodes =
      record {
        id = ovn_key (lsp switch name type addresses options);
        kind = "ovn.lsp";
        fields = field "switchRef" (text ("ovn.ls:" <> switch)) (
            field "name" (text name) (
              field "type" (text (or_empty type)) (
                field "addresses" (text_list addresses)
                  (field "options" (dict_of options) (field "externalIds" (obj end) end)))));
      }
      ∷ [];
  create_cmds =
      cmd ("lsp:" <> switch <> "/" <> name <> " (create)")
        ("ovn-nbctl" ∷ "lsp-add" ∷ switch ∷ name ∷ [])
      ∷ (set_type name type
          ++ (set_addresses name addresses ++ set_options name (sort_pairs options)));
  delete_cmds = cmd ("lsp:" <> name <> " (delete)") (Ovn.lsp_del_argv name) ∷ [];
}

unfoldable pub acl_primitive : (switch direction : String) → ℕ → (match action : String) → Primitive
unfolding ovn_key
acl_primitive switch direction priority match action = record {
  key = ovn_key (acl switch direction priority match action);
  nodes =
      record {
        id = ovn_key (acl switch direction priority match action);
        kind = "ovn.acl";
        fields = field "switchRef" (text ("ovn.ls:" <> switch)) (
            field "direction" (text direction) (
              field "priority" (num priority) (
                field "match" (text match)
                  (field "action" (text action) (field "externalIds" (obj end) end)))));
      }
      ∷ [];
  create_cmds =
      cmd ("acl:" <> switch <> "/" <> direction <> " (create)")
        (Ovn.acl_add_argv switch direction priority match action)
      ∷ [];
  delete_cmds =
      cmd ("acl:" <> switch <> "/" <> direction <> " (delete)")
        (Ovn.acl_del_argv switch direction (some priority) (some match))
      ∷ [];
}
