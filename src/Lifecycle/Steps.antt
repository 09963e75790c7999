-- ===== src/Lifecycle/Steps.antt =====
-- deployer/lifecycle.py and deployer/primitives_fs.py: `create` and `delete` of each kind of
-- operation.
use ovn_fabric.Prelude.{
  ℕ, zero, suc, String, ◌<>◌, Bool, true, false, ◌&&◌, Option, none, some, [], ◌∷◌, insert,
  all_digits, some_nonzero, with_newline, str, ltb, str_eq, if◌then◌else◌,
}
use ovn_fabric.Value.{Value, null, text, num, obj, end, field}
use ovn_fabric.Lifecycle.RawGraph
use ovn_fabric.Lifecycle.Effects.{
  make_dirs, remove_tree, remove_empty_upwards, chmod, write_new, unlink, remove_entry, exists,
  symlink, sleep, Answer, done, failed, Host, Exec, not_running, no_value, pure, raise, ◌>>=◌, ◌>>◌,
  modify, perform, file_call,
}
use ovn_fabric.Lifecycle.Operations.{
  Primitive, Capture, Operation, primitive, write_file, capture, symlink_netns, directory,
  chmod_file, remove_path, directory_key, chmod_key, path_key, directory_node, chmod_node,
}
use ovn_fabric.Lifecycle.Commands.{Controller, run_cmd, capture_cmd, run_all}

unfoldable pub store_value : Capture → Value → Exec Unit
store_value k v = modify (λ r. record r { store = insert k.name v r.store })

unfoldable pub captured : Capture → String → Value
captured k v = elim k.result_key [ none ↦ text v | some f ↦ obj (field f (text v) end) ]

module _ (host : Host) (c : Controller) where
  -- `Primitive.create` and `Primitive.delete`
  unfoldable pub create_primitive : Primitive → Exec Unit
  unfolding run_all
  create_primitive p = do
    run_all host c p.create_cmds
    modify (λ r. record r { graph = RawGraph.upsert p.nodes r.graph })

  unfoldable pub delete_primitive : Primitive → Exec Unit
  unfolding run_all
  delete_primitive p = do
    run_all host c p.delete_cmds
    modify (λ r. record r { graph = RawGraph.remove p.key r.graph })

  unfoldable pub restart : Capture → Exec Unit
  unfolding run_cmd
  restart k = elim k.restart_unit [
    | none ↦ pure tt
    | some unit ↦ (do
      run_cmd host c k.label (text "systemctl" ∷ text "restart" ∷ text unit ∷ []) true none
      pure tt)
  ]

  -- The attempts of a capture, with `left` more to come after this one.
  unfoldable pub capture_from : Capture → ℕ → Exec Unit
  unfolding capture_cmd store_value captured restart perform
  capture_from k zero = do
    value ← capture_cmd host c k.label k.argv k.optional none
    elim (str_eq value "") [
      | false ↦ store_value k (captured k value)
      | true ↦ if k.optional then store_value k null else raise (no_value k.label)
    ]
  capture_from k (suc left) = do
    value ← capture_cmd host c k.label k.argv true none
    elim (str_eq value "") [
      | false ↦ store_value k (captured k value)
      | true ↦ (do restart k; perform host (sleep 1000); capture_from k left)
    ]

-- The process id that a resolved `pid` names, if it is a positive number.
pid_text : Value → Option String
unfolding all_digits some_nonzero str
pid_text (text s) = if all_digits s && some_nonzero s then some s else none
pid_text (num n) = if ltb 0 n then some (str n) else none
pid_text _ = none

holds : Answer → Bool
holds (done _) = true
holds failed = false

netns_path : String → String
netns_path container = "/var/run/netns/" <> container

module _ (host : Host) (c : Controller) where
  -- `_running`: the process is there, and still there half a second later.
  running : Option String → Exec Bool
  unfolding perform holds
  running none = pure false
  running (some pid) = do
    first ← perform host (exists ("/proc/" <> pid))
    if holds first
        then (do
          perform host (sleep 500)
          again ← perform host (exists ("/proc/" <> pid))
          pure (holds again))
        else pure false

  link : String → Option String → Bool → Exec Unit
  unfolding capture_cmd file_call netns_path
  link container (some pid) true = do
    file_call host (make_dirs "/var/run/netns")
    file_call host (symlink (netns_path container) ("/proc/" <> (pid <> "/ns/net")))
  link container _ _ = do
    capture_cmd host c (container <> " state")
        (text "/usr/bin/docker"
          ∷ text "inspect"
          ∷ text "-f"
          ∷ text "{{.State.Status}} (exit {{.State.ExitCode}})"
          ∷ text container
          ∷ [])
        true none
    raise (not_running container)

  create_symlink : String → Option String → Exec Unit
  unfolding running link
  create_symlink container pid = do up ← running pid; link container pid up

  delete_symlink : String → Exec Unit
  unfolding file_call netns_path
  delete_symlink container = file_call host (unlink (netns_path container))

  create_file : String → String → Option ℕ → Exec Unit
  unfolding file_call with_newline
  create_file path content mode = file_call host (write_new path (with_newline content) mode)

  delete_file : String → Exec Unit
  unfolding file_call
  delete_file path = file_call host (unlink path)

  create_directory : String → Exec Unit
  unfolding file_call
  create_directory path = do
    file_call host (make_dirs path)
    modify (λ r. record r { graph = RawGraph.upsert (directory_node path ∷ []) r.graph })

  -- Neither way of removing a directory raises.
  delete_directory : String → Bool → Exec Unit
  unfolding perform
  delete_directory path owned = do
    perform host (if owned then remove_tree path else remove_empty_upwards path)
    modify (λ r. record r { graph = RawGraph.remove (directory_key path) r.graph })

  create_chmod : String → String → Exec Unit
  unfolding file_call
  create_chmod path mode = do
    file_call host (chmod path mode)
    modify (λ r. record r { graph = RawGraph.upsert (chmod_node path mode ∷ []) r.graph })

  delete_chmod : String → Exec Unit
  delete_chmod path = modify (λ r. record r { graph = RawGraph.remove (chmod_key path) r.graph })

  delete_path : String → Bool → Exec Unit
  unfolding file_call
  delete_path path recursive = do
    file_call host (remove_entry path recursive)
    modify (λ r. record r { graph = RawGraph.remove (path_key path) r.graph })

  -- `create` of each kind of operation.
  unfoldable pub create : Operation → Exec Unit
  unfolding create_primitive capture_from create_symlink create_file create_directory create_chmod
      pid_text
  create (primitive p) = create_primitive host c p
  create (write_file path content mode) = create_file path content mode
  create (capture k) = capture_from host c k k.retries
  create (symlink_netns container pid) = create_symlink container (pid_text pid)
  create (directory h path owned) = create_directory path
  create (chmod_file h path mode) = create_chmod path mode
  create (remove_path h path recursive) = pure tt

  -- `delete` of each kind of operation.
  unfoldable pub delete : Operation → Exec Unit
  unfolding delete_primitive delete_symlink delete_file delete_directory delete_chmod delete_path
  delete (primitive p) = delete_primitive host c p
  delete (write_file path content mode) = delete_file path
  delete (capture k) = pure tt
  delete (symlink_netns container pid) = delete_symlink container
  delete (directory h path owned) = delete_directory path owned
  delete (chmod_file h path mode) = delete_chmod path
  delete (remove_path h path recursive) = delete_path path recursive
