-- ===== src/Kernel/Stays.antt =====
-- Declarations of a kernel router (deployer/ir_common.py) that keep to one unit of a plan
-- (fabric/plan.py).
use ovn_fabric.Prelude.{
  ℕ, suc, ◌+◌, String, ◌<>◌, ◌≡◌, refl, Option, none, some, List, [], ◌∷◌, map, arith,
}
use mathlib.Core.Path.{subst}
use ovn_fabric.Lifecycle.{Operation, Primitive}
use ovn_fabric.Primitives.Routing.{Library, addr_primitive}
use ovn_fabric.Plan.Calls.{
  Outcome, done, failed, ◌>>=◌, Call, unit, opens, Emission, nothing, refuses, for_each, given,
  ◌then_emit◌,
}
use ovn_fabric.Plan.Discipline.{
  IsOrderly, IsOrderly-append, IsOrderly-eq, Holds, IsOrderlyEmission, for_each-IsOrderly,
}
use ovn_fabric.Cluster.Kept.{Holds->>=}
use ovn_fabric.Cluster.Nodes.{GroupNode}
use ovn_fabric.Kernel.Nodes.{SideRoute, OwningApp}
use ovn_fabric.Kernel.Filters.{Row, group_rows}
use ovn_fabric.Kernel.Network.{declaring, raised_by, rule_call, emit_group, side_network}
use ovn_fabric.Kernel.Container.{
  SideContext, doing, opens_unit, emit_image, emit_identity, emit_pid, emit_container,
}
use ovn_fabric.Kernel.Router.{opens_keyed}
use ovn_fabric.Plan.Growth.{opens-append}

-- Where the unit `on` is the newest, the declaration opens none and keeps to it.
abbrev pub Stay : ℕ → List Call → Type 0
Stay on cs = IsOrderly (suc on) cs × (opens cs ≡ 0)

abbrev pub Stays : ℕ → Emission → Type 0
Stays on e = Holds (Stay on) (e (suc on))

-- Where the unit `on` is the newest, the declaration is orderly.
abbrev pub Follows : ℕ → Emission → Type 0
Follows on e = Holds (IsOrderly (suc on)) (e (suc on))

pub rules-IsOrderly :
    (host netns : String) (n : ℕ) (rows : List Row)
    → IsOrderly (suc n) (map (rule_call host netns n) rows)
unfolding rule_call
rules-IsOrderly host netns n [] = tt
rules-IsOrderly host netns n (r ∷ rows) = ((n, refl, refl), rules-IsOrderly host netns n rows)

pub emit_group-IsOrderly :
    (host netns dev : String) (g : GroupNode) → IsOrderlyEmission (emit_group host netns dev g)
unfolding emit_group
emit_group-IsOrderly host netns dev g n = put (group_rows dev g)
  where
    put :
        (o : Outcome (List Row))
        → Holds (IsOrderly n) (
            o >>= λ rows. done (
              unit "security group" (some (g.name <> " in " <> netns <> " on " <> dev))
              ∷ map (rule_call host netns n) rows))
    put (failed e) = tt
    put (done rows) = rules-IsOrderly host netns n rows

module _ (on : ℕ) where
  pub Follows-then_emit : (e f : Emission) → Stays on e → Follows on f → Follows on (e then_emit f)
  unfolding ◌then_emit◌
  Follows-then_emit e f h k = Holds->>= (Stay on) _ (e (suc on)) _ h (λ xs (ordered, none_opened).
      Holds->>= (IsOrderly (suc on)) _ (f (suc on + opens xs)) _
        (subst (λ m. Holds (IsOrderly (suc on)) (f m)) (omega (arith, none_opened)) k)
        (λ ys rest.
          IsOrderly-append (suc on) xs ys ordered
            (IsOrderly-eq ys (omega (arith, none_opened)) rest)))

  pub Stays-then_emit : (e f : Emission) → Stays on e → Stays on f → Stays on (e then_emit f)
  unfolding ◌then_emit◌
  Stays-then_emit e f h k = Holds->>= (Stay on) _ (e (suc on)) _ h (λ xs (ordered, none_opened).
      Holds->>= (Stay on) _ (f (suc on + opens xs)) _
        (subst (λ m. Holds (Stay on) (f m)) (omega (arith, none_opened)) k)
        (λ ys (rest, none_more). (
          IsOrderly-append (suc on) xs ys ordered
              (IsOrderly-eq ys (omega (arith, none_opened)) rest),
          omega (arith, opens-append xs ys, none_opened, none_more),
        )))

  pub Stays-nothing : Stays on nothing
  unfolding nothing opens
  Stays-nothing = (tt, refl)

  pub Stays-for_each :
      {A : Type 0} (xs : List A) (f : A → Emission)
      → ((x : A) → Stays on (f x))
      → Stays on (for_each xs f)
  unfolding for_each
  Stays-for_each [] f h = Stays-nothing
  Stays-for_each (x ∷ xs) f h = Stays-then_emit (f x) (for_each xs f) (h x) (Stays-for_each xs f h)

  pub Stays-given :
      {A : Type 0} (o : Outcome A) (f : A → Emission)
      → ((x : A) → Stays on (f x))
      → Stays on (given o f)
  unfolding given refuses
  Stays-given (done a) f h = h a
  Stays-given (failed e) f h = tt

  pub Stays-doing : (op : Operation) → Stays on (doing on op)
  unfolding doing opens
  Stays-doing op = (((on, refl, refl), tt), refl)

  pub Stays-declaring : (p : Primitive) → Stays on (declaring on p)
  unfolding declaring opens
  Stays-declaring p = (((on, refl, refl), tt), refl)

  pub Stays-emit_pid : (name pid_var : String) → Stays on (emit_pid on name pid_var)
  unfolding emit_pid opens
  Stays-emit_pid name pid_var = (((on, refl, refl), ((on, refl, refl), tt)), refl)

  pub Stays-emit_image :
      (host name : String) (build : Option String) (dir : String)
      → Stays on (emit_image on host name build dir)
  unfolding emit_image
  Stays-emit_image host name none dir = Stays-doing _
  Stays-emit_image host name (some dockerfile) dir =
      Stays-then_emit _ _ (Stays-then_emit _ _ (Stays-doing _) (Stays-doing _)) (Stays-doing _)

  pub Stays-emit_identity :
      (host : String) (identity : Option (String × String)) (dir : Option String)
      → Stays on (emit_identity on host identity dir)
  unfolding emit_identity
  Stays-emit_identity host (some (public, secret)) (some dir) =
      Stays-then_emit _ _
        (Stays-then_emit _ _ (Stays-then_emit _ _ (Stays-doing _) (Stays-doing _)) (Stays-doing _))
        (Stays-doing _)
  Stays-emit_identity host (some (public, secret)) none = Stays-nothing
  Stays-emit_identity host none dir = Stays-nothing

  pub Stays-emit_container :
      (c : SideContext) (app : OwningApp) (pid_var : String)
      → Stays on (emit_container on c app pid_var)
  unfolding emit_container
  Stays-emit_container c app pid_var =
      Stays-then_emit _ _
        (Stays-then_emit _ _
          (Stays-then_emit _ _
            (Stays-then_emit _ _
              (Stays-then_emit _ _
                (Stays-then_emit _ _
                  (Stays-then_emit _ _
                    (Stays-then_emit _ _ (Stays-emit_image _ _ _ _)
                      (Stays-for_each _ _ (λ v. Stays-doing _)))
                    (Stays-emit_identity _ _ _))
                  (Stays-doing _))
                (Stays-emit_pid _ _))
              (Stays-declaring _))
            (Stays-for_each _ _ (λ leg. Stays-declaring _)))
          (Stays-declaring _))
        (Stays-declaring _)

  -- The addresses and routes of a side stay on its unit; each group has a unit of its own.
  module _ (lib : Library) (host netns dev : String) (ipaddrs : List String)
      (routes : List SideRoute) where
    pub Stays-addresses : Stays on (
        for_each ipaddrs (λ addr.
          given
            (raised_by (
              addr_primitive lib
                (record { host = host; netns = some netns; link = dev; addr = addr })))
            (declaring on)))
    Stays-addresses = Stays-for_each ipaddrs _ (λ addr. Stays-given _ _ (λ p. Stays-declaring p))

    pub Stays-side_network : Stays on (side_network lib host netns dev on [] ipaddrs routes)
    unfolding side_network for_each
    Stays-side_network =
        Stays-then_emit _ _
          (Stays-then_emit _ _ Stays-addresses
            (Stays-for_each routes _ (λ route. Stays-declaring _)))
          Stays-nothing

    pub Follows-side_network :
        (groups : List GroupNode)
        → Follows on (side_network lib host netns dev on groups ipaddrs routes)
    unfolding side_network
    Follows-side_network groups =
        Follows-then_emit _ _
          (Stays-then_emit _ _ Stays-addresses
            (Stays-for_each routes _ (λ route. Stays-declaring _)))
          (for_each-IsOrderly groups _ (emit_group-IsOrderly host netns dev) (suc on))

-- Where `on` units are open, the declaration opens one more and is orderly.
abbrev pub Begin : ℕ → List Call → Type 0
Begin on cs = IsOrderly on cs × (opens cs ≡ 1)

abbrev pub Begins : ℕ → Emission → Type 0
Begins on e = Holds (Begin on) (e on)

module _ (on : ℕ) where
  pub Begins-opens_unit : (kind subject : String) → Begins on (opens_unit kind subject)
  unfolding opens_unit opens
  Begins-opens_unit kind subject = (tt, refl)

  pub Begins-opens_keyed : (kind subject key : String) → Begins on (opens_keyed kind subject key)
  unfolding opens_keyed opens
  Begins-opens_keyed kind subject key = (tt, refl)

  pub Begins-then_emit : (e f : Emission) → Begins on e → Stays on f → Begins on (e then_emit f)
  unfolding ◌then_emit◌
  Begins-then_emit e f h k = Holds->>= (Begin on) _ (e on) _ h (λ xs (ordered, one).
      Holds->>= (Stay on) _ (f (on + opens xs)) _
        (subst (λ m. Holds (Stay on) (f m)) (omega (arith, one)) k)
        (λ ys (rest, none_more). (
          IsOrderly-append on xs ys ordered (IsOrderly-eq ys (omega (arith, one)) rest),
          omega (arith, opens-append xs ys, one, none_more),
        )))

  pub Begins-Follows :
      (e f : Emission) → Begins on e → Follows on f → Holds (IsOrderly on) ((e then_emit f) on)
  unfolding ◌then_emit◌
  Begins-Follows e f h k = Holds->>= (Begin on) _ (e on) _ h (λ xs (ordered, one).
      Holds->>= (IsOrderly (suc on)) _ (f (on + opens xs)) _
        (subst (λ m. Holds (IsOrderly (suc on)) (f m)) (omega (arith, one)) k)
        (λ ys rest. IsOrderly-append on xs ys ordered (IsOrderly-eq ys (omega (arith, one)) rest)))

  pub Stays-Follows : (e : Emission) → Stays on e → Follows on e
  Stays-Follows e h = go (e (suc on)) h
    where
      go : (o : Outcome (List Call)) → Holds (Stay on) o → Holds (IsOrderly (suc on)) o
      go (done cs) j = j.0
      go (failed x) j = tt
