-- ===== src/Primitives/Docker.antt =====
-- deployer/primitives_docker.py: images, containers and detached processes.
use ovn_fabric.Prelude.{
  ℕ, String, ◌<>◌, Bool, true, false, none, some, List, [], ◌∷◌, ◌++◌, if◌then◌else◌,
}
use ovn_fabric.Value.{text, end, field}
use ovn_fabric.Lifecycle.{Command, Primitive}
use ovn_fabric.Primitives.Build.{texts, cmd, text_list, sort_pairs}

abbrev pub Pairs : Type 0
Pairs = List (String × String)

-- `DockerPrimitive`
pub record Container : Type 0 where
  pub name : String
  pub image : String
  pub command : List String
  pub privileged : Bool
  pub network : String
  pub environment : Pairs
  pub volumes : Pairs
  pub run_flags : List String
  pub remove_existing : Bool

pub data DockerObject : Type 0 where
  image : (image dockerfile context : String) → DockerObject
  pull : (image : String) → DockerObject
  container : Container → DockerObject
  exec_detached : (container : String) (argv : List String) → DockerObject

abbrev pub image_timeout : ℕ
image_timeout = 1800

-- `key` of each class
unfoldable pub docker_key : DockerObject → String
docker_key (image name dockerfile context) = "docker.image:" <> name
docker_key (pull name) = "docker.image:" <> name
docker_key (container c) = "docker.container:" <> c.name
docker_key (exec_detached c argv) = "docker.exec:" <> c

slow_cmd : String → List String → Command
slow_cmd label argv = record {
  label = label;
  argv = texts argv;
  optional = false;
  timeout = some image_timeout;
}

remove_image : String → List Command
remove_image name =
    cmd ("image:" <> name <> " (delete)") ("/usr/bin/docker" ∷ "image" ∷ "rm" ∷ name ∷ []) ∷ []

unfoldable pub image_primitive : (image dockerfile context : String) → Primitive
unfolding slow_cmd remove_image docker_key
image_primitive name dockerfile context = record {
  key = docker_key (image name dockerfile context);
  nodes =
      record {
        id = docker_key (image name dockerfile context);
        kind = "docker.image";
        fields = field "image" (text name) (field "dockerfile" (text dockerfile) end);
      }
      ∷ [];
  create_cmds =
      slow_cmd ("image:" <> name <> " (build)")
        ("/usr/bin/docker" ∷ "build" ∷ "-t" ∷ name ∷ "-f" ∷ dockerfile ∷ context ∷ [])
      ∷ [];
  delete_cmds = remove_image name;
}

unfoldable pub pull_primitive : String → Primitive
unfolding slow_cmd remove_image docker_key
pull_primitive name = record {
  key = docker_key (pull name);
  nodes =
      record {
        id = docker_key (pull name);
        kind = "docker.image";
        fields = field "image" (text name) end;
      }
      ∷ [];
  create_cmds =
      slow_cmd ("image:" <> name <> " (pull)") ("/usr/bin/docker" ∷ "pull" ∷ name ∷ []) ∷ [];
  delete_cmds = remove_image name;
}

-- `-e key=value` and `-v host:container` for each pair
flags : String → String → Pairs → List String
flags option sep [] = []
flags option sep ((a, b) ∷ rest) = option ∷ (a <> sep <> b) ∷ flags option sep rest

-- `_run_argv`
unfoldable pub run_argv : Container → List String
unfolding flags
run_argv c =
    ("/usr/bin/docker" ∷ "run" ∷ "-d" ∷ [])
    ++ ((if c.privileged then "--privileged" ∷ [] else [])
        ++ (("--network" ∷ c.network ∷ "--name" ∷ c.name ∷ [])
            ++ (flags "-e" "=" (sort_pairs c.environment)
                ++ (flags "-v" ":" c.volumes ++ (c.run_flags ++ (c.image ∷ c.command))))))

remove_old : Container → List Command
remove_old c =
    if c.remove_existing
    then record {
      label = "docker:" <> c.name <> " (remove old)";
      argv = texts ("/usr/bin/docker" ∷ "rm" ∷ "-f" ∷ c.name ∷ []);
      optional = true;
      timeout = none;
    }
      ∷ []
    else []

unfoldable pub container_primitive : Container → Primitive
unfolding remove_old docker_key
container_primitive c = record {
  key = docker_key (container c);
  nodes =
      record {
        id = docker_key (container c);
        kind = "docker.container";
        fields = field "name" (text c.name) (
            field "image" (text c.image) (
              field "command" (text_list c.command) (
                field "state" (text "running")
                  (field "netnsRef" (text ("netns:" <> c.name)) end))));
      }
      ∷ [];
  create_cmds = remove_old c ++ (cmd ("docker:" <> c.name <> " (run)") (run_argv c) ∷ []);
  delete_cmds =
      cmd ("docker:" <> c.name <> " (delete)") ("/usr/bin/docker" ∷ "rm" ∷ "-f" ∷ c.name ∷ []) ∷ [];
}

unfoldable pub exec_primitive : String → List String → Primitive
unfolding docker_key
exec_primitive c argv = record {
  key = docker_key (exec_detached c argv);
  nodes = [];
  create_cmds = cmd (c <> " app") ("/usr/bin/docker" ∷ "exec" ∷ "-d" ∷ c ∷ argv) ∷ [];
  delete_cmds = [];
}

-- `as_primitive` of each class
unfoldable pub docker_primitive : DockerObject → Primitive
unfolding image_primitive pull_primitive container_primitive exec_primitive
docker_primitive (image name dockerfile context) = image_primitive name dockerfile context
docker_primitive (pull name) = pull_primitive name
docker_primitive (container c) = container_primitive c
docker_primitive (exec_detached c argv) = exec_primitive c argv
