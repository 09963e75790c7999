-- ===== src/Kernel/Closed.antt =====
-- The references of the raw nodes that a declaration (deployer/ir_common.py) leads to: which keys they
-- name, and which keys they bring.
use ovn_fabric.Prelude.{
  ℕ, ◌+◌, String, ◌≡◌, refl, sym, ap, ◌∙◌, List, [], ◌∷◌, ◌++◌, All, All-append, append_assoc,
}
use mathlib.Core.Path.{subst}
use ovn_fabric.Lifecycle.{Operation, Primitive, RawNodeTemplate, refs, node}
use ovn_fabric.Plan.Calls.{
  PlanFault, Outcome, done, failed, Call, unit, keyed_unit, ovn, wait_capture, capture_value,
  netns_symlink, does, opens, Emission, nothing, refuses, for_each, given, ◌then_emit◌,
}
use ovn_fabric.Plan.Discipline.{Holds}
use ovn_fabric.Cluster.Kept.{Holds->>=}
use ovn_fabric.Cluster.Valid.{op_nodes}
use ovn_fabric.Kernel.Network.{declaring}
use ovn_fabric.Kernel.Container.{doing}

-- The raw nodes of the operations among the calls.
unfoldable pub nodes_of : List Call → List RawNodeTemplate
nodes_of [] = []
nodes_of (does on op ∷ cs) = op_nodes op ++ nodes_of cs
nodes_of (c ∷ cs) = nodes_of cs

module _ (host : String) (K : String → Type 0) where
  -- All keys are in `K` that the nodes refer to, and all ids.
  abbrev pub Refer : List RawNodeTemplate → Type 0
  Refer ts = All (λ t. All K (refs (node host t))) ts

  abbrev pub Known : List RawNodeTemplate → Type 0
  Known ts = All (λ t. K t.id) ts

  -- With `P`, and when the declaration's own nodes are in `K`, its references are.
  abbrev pub IsClosed : Type 0 → Emission → Type 0
  IsClosed P e = (n : ℕ) → Holds (λ cs. P → Known (nodes_of cs) → Refer (nodes_of cs)) (e n)

  -- When the declaration's own nodes are in `K`, there is `Q`.
  abbrev pub Brings : Type 0 → Emission → Type 0
  Brings Q e = (n : ℕ) → Holds (λ cs. Known (nodes_of cs) → Q) (e n)

nodes_of-append : (xs ys : List Call) → nodes_of (xs ++ ys) ≡ nodes_of xs ++ nodes_of ys
unfolding nodes_of
nodes_of-append [] ys = refl
nodes_of-append (does on op ∷ xs) ys =
    ap (λ l. op_nodes op ++ l) (nodes_of-append xs ys)
    ∙ sym (append_assoc (op_nodes op) (nodes_of xs) (nodes_of ys))
nodes_of-append (unit kind subject ∷ xs) ys = nodes_of-append xs ys
nodes_of-append (keyed_unit kind subject key ∷ xs) ys = nodes_of-append xs ys
nodes_of-append (ovn on d ∷ xs) ys = nodes_of-append xs ys
nodes_of-append (wait_capture on var argv ∷ xs) ys = nodes_of-append xs ys
nodes_of-append (capture_value on var argv ∷ xs) ys = nodes_of-append xs ys
nodes_of-append (netns_symlink on name var ∷ xs) ys = nodes_of-append xs ys

All-split : {A : Type 0} (P : A → Type 0) (xs ys : List A) → All P (xs ++ ys) → All P xs × All P ys
All-split P [] ys h = (tt, h)
All-split P (x ∷ xs) ys h = let (a, b) = All-split P xs ys h.1 in ((h.0, a), b)

anything : {A : Type 0} (o : Outcome A) → Holds (λ _. Unit) o
anything (done a) = tt
anything (failed e) = tt

module _ (host : String) (K : String → Type 0) where
  Known-split :
      (xs ys : List Call)
      → Known host K (nodes_of (xs ++ ys))
      → Known host K (nodes_of xs) × Known host K (nodes_of ys)
  Known-split xs ys h =
      All-split _ (nodes_of xs) (nodes_of ys) (subst (Known host K) (nodes_of-append xs ys) h)

  pub IsClosed-then_emit :
      (P : Type 0) (e f : Emission)
      → IsClosed host K P e
      → IsClosed host K P f
      → IsClosed host K P (e then_emit f)
  unfolding ◌then_emit◌
  IsClosed-then_emit P e f h k n = Holds->>= _ _ (e n) _ (h n) (λ xs a.
      Holds->>= _ _ (f (n + opens xs)) _ (k (n + opens xs)) (λ ys b p known.
        let (u, v) = Known-split xs ys known in
        subst (Refer host K) (sym (nodes_of-append xs ys))
          (All-append _ (nodes_of xs) (nodes_of ys) (a p u) (b p v))))

  pub Brings-first :
      (Q : Type 0) (e f : Emission) → Brings host K Q e → Brings host K Q (e then_emit f)
  unfolding ◌then_emit◌
  Brings-first Q e f h n = Holds->>= _ _ (e n) _ (h n) (λ xs a.
      Holds->>= (λ _. Unit) _ (f (n + opens xs)) _ (anything (f (n + opens xs)))
        (λ ys _ known. a (Known-split xs ys known).0))

  pub Brings-second :
      (Q : Type 0) (e f : Emission) → Brings host K Q f → Brings host K Q (e then_emit f)
  unfolding ◌then_emit◌
  Brings-second Q e f h n =
      Holds->>= (λ _. Unit) _ (e n) _ (anything (e n))
        (λ xs _.
          Holds->>= _ _ (f (n + opens xs)) _ (h (n + opens xs))
            (λ ys b known. b (Known-split xs ys known).1))

  -- What the declaration brings itself is there for its references.
  pub IsClosed-Brings :
      (P Q : Type 0) (e : Emission)
      → Brings host K Q e
      → IsClosed host K (P × Q) e
      → IsClosed host K P e
  IsClosed-Brings P Q e h k n = both (e n) (h n) (k n)
    where
      both :
          (o : Outcome (List Call))
          → Holds (λ cs. Known host K (nodes_of cs) → Q) o
          → Holds (λ cs. P × Q → Known host K (nodes_of cs) → Refer host K (nodes_of cs)) o
          → Holds (λ cs. P → Known host K (nodes_of cs) → Refer host K (nodes_of cs)) o
      both (failed x) a b = tt
      both (done cs) a b = λ p known. b (p, a known) known

  pub IsClosed-nothing : (P : Type 0) → IsClosed host K P nothing
  unfolding nothing nodes_of
  IsClosed-nothing P n = λ p known. tt

  pub IsClosed-refuses : (P : Type 0) (e : PlanFault) → IsClosed host K P (refuses e)
  unfolding refuses
  IsClosed-refuses P e n = tt

  module _ {A : Type 0} (P : Type 0) (f : A → Emission) where
    pub IsClosed-for_each :
        (xs : List A) → ((x : A) → IsClosed host K P (f x)) → IsClosed host K P (for_each xs f)
    unfolding for_each
    IsClosed-for_each [] h = IsClosed-nothing P
    IsClosed-for_each (x ∷ xs) h =
        IsClosed-then_emit P (f x) (for_each xs f) (h x) (IsClosed-for_each xs h)

    pub IsClosed-given :
        (o : Outcome A) → ((x : A) → IsClosed host K P (f x)) → IsClosed host K P (given o f)
    unfolding given
    IsClosed-given (done x) h = h x
    IsClosed-given (failed e) h = IsClosed-refuses P e

  pub IsClosed-doing :
      (P : Type 0) (on : ℕ) (op : Operation)
      → (P → Known host K (op_nodes op) → Refer host K (op_nodes op))
      → IsClosed host K P (doing on op)
  unfolding doing nodes_of
  IsClosed-doing P on op h n = λ p known.
      let (own, rest) = All-split _ (op_nodes op) [] known in
      All-append _ (op_nodes op) [] (h p own) tt

  pub IsClosed-declaring :
      (P : Type 0) (on : ℕ) (p : Primitive)
      → (P → Known host K p.nodes → Refer host K p.nodes)
      → IsClosed host K P (declaring on p)
  unfolding declaring nodes_of op_nodes
  IsClosed-declaring P on p h n = λ q known.
      let (own, rest) = All-split _ p.nodes [] known in All-append _ p.nodes [] (h q own) tt

  pub Brings-declaring :
      (Q : Type 0) (on : ℕ) (p : Primitive)
      → (Known host K p.nodes → Q)
      → Brings host K Q (declaring on p)
  unfolding declaring nodes_of op_nodes
  Brings-declaring Q on p h n = λ known. h (All-split _ p.nodes [] known).0
