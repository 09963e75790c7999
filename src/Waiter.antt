-- ===== src/Waiter.antt =====
-- deployer/jobtree.py, `DepWaiter`: an action that waits until each of a job's dependencies was
-- seen in an event, and then runs once.
pub mod Once
use ovn_fabric.Prelude.{
  ℕ, suc, String, Bool, true, false, ◌&&◌, not, Option, none, some, List, [], ◌∷◌, ◌++◌, map, any,
  all, filter, str_eq, if◌then◌else◌,
}

-- The `dict` of a dependency: its `kind` and the fields that `_key` reads, and its `repr`.
pub record Dep : Type 0 where
  pub kind : String
  pub name : Option String
  pub image : Option String
  pub pkg : Option String
  pub shown : String

-- `DepKey`: what `_key` makes of one.
pub record DepKey : Type 0 where
  pub tag : String
  pub value : Option String

same_value : Option String → Option String → Bool
same_value none none = true
same_value (some s) (some t) = str_eq s t
same_value _ _ = false

unfoldable pub same_key : DepKey → DepKey → Bool
unfolding same_value
same_key a b = str_eq a.tag b.tag && same_value a.value b.value

abbrev pub labelled : String → Option String → DepKey
labelled tag value = record { tag = tag; value = value }

-- `package or name`, of texts
unfoldable pub or_text : Option String → Option String → Option String
or_text none t = t
or_text (some s) t = if str_eq s "" then t else some s

-- `_key`
unfoldable pub key : Dep → DepKey
key d =
    if str_eq d.kind "abstract"
    then labelled "abstract" d.name
    else if str_eq d.kind "docker-image"
    then labelled "docker-image" d.image
    else if any (str_eq d.kind) ("apt-dep" ∷ "apt-pkg" ∷ [])
    then labelled "apt-dep" (or_text d.pkg d.name)
    else if any (str_eq d.kind) ("sys-cmd-dep" ∷ "sys-cmd" ∷ [])
    then labelled "sys-cmd-dep" d.name
    else labelled "unknown" (some d.shown)

-- An event: one that is no `dict`, a `dependency` with its `dep`, or another with its fields.
pub data Event : Type 0 where
  other : Event
  dependency : (dep : Dep) → Event
  dict : (kind : String) (name pkg : Option String) → Event

-- The key that `waitfor` reads from an event. A `dependency` whose `dep` is no `dict` is a `dict`
-- of that kind here, and has none.
unfoldable pub event_key : Event → Option DepKey
event_key other = none
event_key (dependency d) = some (key d)
event_key (dict kind name pkg) =
    if str_eq kind "apt-dep"
    then some (labelled "apt-dep" pkg)
    else if str_eq kind "sys-cmd-dep"
    then some (labelled "sys-cmd-dep" name)
    else if str_eq kind "abstract-dep"
    then some (labelled "abstract" name)
    else none

unfoldable pub holds : List DepKey → DepKey → Bool
holds ks k = any (λ j. same_key j k) ks

-- `a <= b` of sets
unfoldable pub subset : List DepKey → List DepKey → Bool
subset ks js = all (holds js) ks

-- The waiter, and how often its action ran.
pub record DepWaiter : Type 0 where
  pub dependencies : List DepKey
  pub seen : List DepKey
  pub fired : Bool
  pub actions : ℕ

unfoldable pub waiter : List Dep → DepWaiter
waiter deps = record { dependencies = map key deps; seen = []; fired = false; actions = 0 }

unfoldable pub missing : DepWaiter → List DepKey
missing w = filter (λ k. not (holds w.seen k)) w.dependencies

-- `self._fired = True; await action()`
fire : DepWaiter → DepWaiter
fire w = record w { fired = true; actions = suc w.actions }

-- `self._seen.add(key)` of a key that is waited for
unfoldable pub see : Option DepKey → DepWaiter → DepWaiter
see none w = w
see (some k) w =
    if holds w.dependencies k && not (holds w.seen k)
    then record w { seen = w.seen ++ (k ∷ []) }
    else w

-- The last test of `waitfor`
unfoldable pub fire_if_ready : DepWaiter → DepWaiter
unfolding fire
fire_if_ready w = if subset w.dependencies w.seen then fire w else w

unfoldable pub waitfor : Event → DepWaiter → DepWaiter
unfolding fire
waitfor e w =
    if w.fired
    then w
    else if subset w.dependencies w.seen
    then fire w
    else fire_if_ready (see (event_key e) w)

-- The events of a job, in order.
unfoldable pub waitfor_all : List Event → DepWaiter → DepWaiter
waitfor_all [] w = w
waitfor_all (e ∷ es) w = waitfor_all es (waitfor e w)
