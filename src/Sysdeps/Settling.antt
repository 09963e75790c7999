-- ===== src/Sysdeps/Settling.antt =====
-- Which dependencies a job of `_worker` (fabric/services/sysdeps.py) hands a status to.
use ovn_fabric.Prelude.{String, ◌≡◌, refl, ap, Option, none, some, List, [], ◌∷◌, map, Dict, arith}
use ovn_fabric.Retry.{Ran}
use ovn_fabric.Sysdeps.Manager.{
  Manager, DepStatus, Shop, Outcome, value, error, Work, continue, ◌>>=◌, ask_version, retried,
  install,
}
use ovn_fabric.Sysdeps.Worker.{
  made_ready, status_of, check, install_deps, settled_by, refresh_if_stale, outputs_of,
}

abbrev pub names : List DepStatus → List String
names = map (λ s. s.dep)

-- What holds of the value of a piece of work, if it has one.
abbrev Holds : {A : Type 0} → (A → Type 0) → Outcome A → Type 0
Holds P (value a) = P a
Holds P (error e) = Unit

abbrev Gives : {A : Type 0} → (A → Type 0) → Work A → Type 0
Gives P w = (s : Shop) → Holds P (w s).0

module _ {A B : Type 0} (Q : A → Type 0) (P : B → Type 0) where
  Gives-continue :
      (o : Outcome A) (f : A → Work B)
      → Holds Q o
      → ((a : A) → Q a → Gives P (f a))
      → Gives P (continue o f)
  Gives-continue (value a) f q h = h a q
  Gives-continue (error e) f q h = λ s. tt

  Gives->>= :
      (w : Work A) (f : A → Work B)
      → Gives Q w
      → ((a : A) → Q a → Gives P (f a))
      → Gives P (w >>= f)
  Gives->>= w f q h s = Gives-continue (w s).0 f (q s) h (w s).1

-- Work whose value does not matter.
module _ {A B : Type 0} (P : B → Type 0) where
  Holds-any : (o : Outcome A) → Holds (λ _. Unit) o
  Holds-any (value a) = tt
  Holds-any (error e) = tt

  Gives-after : (w : Work A) (f : A → Work B) → ((a : A) → Gives P (f a)) → Gives P (w >>= f)
  Gives-after w f h = Gives->>= (λ _. Unit) P w f (λ s. Holds-any (w s).0) (λ a q. h a)

status_of-names :
    (d : String) (outputs : Dict Ran) (v : Option String)
    → Gives (λ st. st.dep ≡ d) (status_of d outputs v)
unfolding status_of made_ready
status_of-names d outputs none s = refl
status_of-names d outputs (some v) s = refl

check-names :
    (m : Manager) (outputs : Dict Ran) (deps : List String)
    → Gives (λ ss. names ss ≡ deps) (check m outputs deps)
unfolding check
check-names m outputs [] = λ s. refl
check-names m outputs (d ∷ ds) = Gives-after _ (ask_version m d) _ (λ v.
    Gives->>= (λ st. st.dep ≡ d) _ (status_of d outputs v) _ (status_of-names d outputs v)
      (λ st e.
        Gives->>= (λ ss. names ss ≡ ds) _ (check m outputs ds) _ (check-names m outputs ds)
          (λ ss h s. ground (arith, e, h))))

install_deps-names :
    (m : Manager) (deps : List String) → Gives (λ ss. names ss ≡ deps) (install_deps m deps)
unfolding install_deps
install_deps-names m deps = Gives-after P (refresh_if_stale m) _ (λ _.
    Gives-after P (retried m (install deps)) after_install
      (λ r. Gives-after P (outputs_of m deps r) (λ o. check m o deps) (λ o. check-names m o deps)))
  where
    P : List DepStatus → Type 0
    P ss = names ss ≡ deps

    after_install : Ran → Work (List DepStatus)
    after_install r = outputs_of m deps r >>= λ o. check m o deps

names-failed : (e : String) (deps : List String) → names (settled_by deps (error e)) ≡ deps
unfolding settled_by
names-failed e [] = refl
names-failed e (d ∷ ds) = ap (◌∷◌ d) (names-failed e ds)

settled_by-names :
    (deps : List String) (o : Outcome (List DepStatus))
    → Holds (λ ss. names ss ≡ deps) o
    → names (settled_by deps o) ≡ deps
unfolding settled_by
settled_by-names deps (value ss) h = h
settled_by-names deps (error e) h = names-failed e deps

-- However an install ends, by an exception of the package manager too, the statuses that it hands
-- out are one for each of its dependencies, in their order.
pub names-settled_by :
    (m : Manager) (deps : List String) (shop : Shop)
    → names (settled_by deps (install_deps m deps shop).0) ≡ deps
names-settled_by m deps shop = settled_by-names deps _ (install_deps-names m deps shop)
