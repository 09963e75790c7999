-- ===== src/Lifecycle/Inversion.antt =====
-- The monad of a run (deployer/lifecycle.py): what a step that went well went through.
use ovn_fabric.Prelude.{◌≡◌, ◌∙◌, refl}
use ovn_fabric.Lifecycle.{Result, ok, raised, Run, Exec, ◌>>=◌, continue}

-- A step that ends well went through its first part, and then through the rest.
pub >>=-eq-ok :
    {A B : Type 0} (m : Exec A) (f : A → Exec B) (r end : Run) {b : B}
    → (m >>= f) r ≡ (ok b, end)
    → (a : A) × (mid : Run) × (m r ≡ (ok a, mid)) × (f a mid ≡ (ok b, end))
>>=-eq-ok {A} {B} m f r end {b} h = go (m r) refl h
  where
    go :
        (q : Result A × Run)
        → m r ≡ q
        → ((λ (_ : Run). q) >>= f) r ≡ (ok b, end)
        → (a : A) × (mid : Run) × (m r ≡ (ok a, mid)) × (f a mid ≡ (ok b, end))
    go (ok a, mid) e k = (a, mid, e, k)
    go (raised fault, mid) e k = cc

-- A step that changes neither the store nor the raw graph.
unfoldable pub Keeps : {A : Type 0} → Exec A → Type 0
Keeps m = (r : Run) → ((m r).1.store ≡ r.store) × ((m r).1.graph ≡ r.graph)

Keeps-continue :
    {A B : Type 0} (q : Result A) (f : A → Exec B)
    → ((a : A) → Keeps (f a))
    → Keeps (λ r. continue q f r)
unfolding Keeps
Keeps-continue (ok a) f k r = k a r
Keeps-continue (raised e) f k r = (refl, refl)

pub Keeps->>= :
    {A B : Type 0} (m : Exec A) (f : A → Exec B)
    → Keeps m
    → ((a : A) → Keeps (f a))
    → Keeps (m >>= f)
unfolding Keeps
Keeps->>= m f k l r =
    let first = k r in
    let rest = Keeps-continue (m r).0 f l (m r).1 in (rest.0 ∙ first.0, rest.1 ∙ first.1)
