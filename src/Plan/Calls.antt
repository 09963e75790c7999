-- ===== src/Plan/Calls.antt =====
-- What a declaration calls on an emitter (`Emitter` of deployer/ir_common.py), as data, with how
-- the declarations are put together.
use ovn_fabric.Prelude.{ℕ, suc, ◌+◌, String, Option, some, List, [], ◌∷◌, ◌++◌, map}
use ovn_fabric.Lifecycle.{Operation}
use ovn_fabric.Primitives.Ovn.Kinds.{OvnObject, Pairs}

-- Why a plan is refused: the `ValueError` of a declaration, a missing key, a value that cannot be
-- serialized, and the errors of `PlanEmitter`.
pub data PlanFault : Type 0 where
  bad_value : PlanFault
  missing_key : String → PlanFault
  bad_step : PlanFault
  uncaptured : String → PlanFault
  outside_unit : PlanFault
  late_unit : (newest : String) → PlanFault
  unplannable : (helper : String) → PlanFault

pub data Outcome (A : Type 0) : Type 0 where
  done : A → Outcome A
  failed : PlanFault → Outcome A

module _ {A B : Type 0} where
  infixl 5 ◌>>=◌
  abbrev pub ◌>>=◌ : Outcome A → (A → Outcome B) → Outcome B
  ◌>>=◌ (done a) f = f a
  ◌>>=◌ (failed e) f = failed e

-- An object as it is declared: a router port may hold a `Ref` to the capture of its chassis.
pub data Declared : Type 0 where
  object : OvnObject → Declared
  pinned_lrp :
      (router name mac : String) (networks : List String) (chassis : String) (ra : Pairs) → Declared

-- A call. A unit is named by how many units were opened before it; `none` is the scope itself.
-- `does` is an operation of a class that the declaration has built (`ovn` or `append`).
pub data Call : Type 0 where
  unit : (kind : String) (subject : Option String) → Call
  ovn : (on : Option ℕ) → Declared → Call
  wait_capture : (on : Option ℕ) (var : String) (argv : List String) → Call
  keyed_unit : (kind subject key : String) → Call
  does : (on : Option ℕ) → Operation → Call
  capture_value : (on : Option ℕ) (var : String) (argv : List String) → Call
  netns_symlink : (on : Option ℕ) (container pid_var : String) → Call

-- How many units the calls open.
unfoldable pub opens : List Call → ℕ
opens [] = 0
opens (unit kind subject ∷ calls) = suc (opens calls)
opens (keyed_unit kind subject key ∷ calls) = suc (opens calls)
opens (call ∷ calls) = opens calls

-- A declaration: its calls, where so many units are open before it.
abbrev pub Emission : Type 0
Emission = ℕ → Outcome (List Call)

unfoldable pub nothing : Emission
nothing n = done []

unfoldable pub refuses : PlanFault → Emission
refuses e n = failed e

-- A unit is opened, and the objects are declared on it.
unfoldable pub opening : String → Option String → List Declared → Emission
opening kind subject ds n = done (unit kind subject ∷ map (ovn (some n)) ds)

-- A unit with a capture.
unfoldable pub capturing : String → Option String → String → List String → Emission
capturing kind subject var argv n = done (unit kind subject ∷ wait_capture (some n) var argv ∷ [])

infixl 6 ◌then_emit◌
unfoldable pub ◌then_emit◌ : Emission → Emission → Emission
unfolding opens
◌then_emit◌ e f n = e n >>= λ xs. f (n + opens xs) >>= λ ys. done (xs ++ ys)

module _ {A : Type 0} where
  -- `for x in xs:`
  unfoldable pub for_each : List A → (A → Emission) → Emission
  for_each [] f = nothing
  for_each (x ∷ xs) f = f x then_emit for_each xs f

  -- What comes of a computation that may fail.
  unfoldable pub given : Outcome A → (A → Emission) → Emission
  given (done a) f = f a
  given (failed e) f = refuses e
