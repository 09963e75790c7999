-- ===== src/Lifecycle/Captures.antt =====
-- What `CaptureOperation.create` (deployer/lifecycle.py) leaves in the store, and how often it runs
-- its command.
use ovn_fabric.Prelude.{
  ℕ, zero, suc, String, ◌≡◌, refl, sym, ap, ◌∙◌, Bool, true, false, Option, none, List, [], ◌∷◌,
  ◌++◌, insert, str_eq, if◌then◌else◌, arith,
}
use ovn_fabric.Value.{Value, null}
use ovn_fabric.Lifecycle.{
  Host, ok, Run, Exec, ◌>>◌, perform, Capture, Controller, run_cmd, capture_cmd, captured, restart,
  raise, no_value, sleep, store_value, capture_from,
}
use ovn_fabric.Lifecycle.Inversion.{>>=-eq-ok, Keeps}

module _ (host : Host) (c : Controller) where
  capture_cmd-Keeps :
      (label : String) (vs : List Value) (optional : Bool) (timeout : Option ℕ)
      → Keeps (capture_cmd host c label vs optional timeout)
  unfolding Keeps capture_cmd
  capture_cmd-Keeps label vs optional timeout r = ground arith

  restart-Keeps : (k : Capture) → Keeps (restart host c k)
  unfolding Keeps restart run_cmd
  restart-Keeps k r = ground arith

-- What an attempt leaves under a capture's name when it ends the capture: what its command, run
-- last, printed, if it printed anything, or nothing (`None`) for an optional capture whose command
-- printed nothing.
pub data Captured (host : Host) (c : Controller) (k : Capture) (end : Run) : Value → Type 0 where
  printed :
      (out : String) (optional : Bool) (s mid : Run)
      → capture_cmd host c k.label k.argv optional none s ≡ (ok out, mid)
      → end.trace ≡ mid.trace
      → str_eq out "" ≡ false
      → Captured host c k end (captured k out)
  absent :
      (out : String) (optional : Bool) (s mid : Run)
      → k.optional ≡ true
      → capture_cmd host c k.label k.argv optional none s ≡ (ok out, mid)
      → end.trace ≡ mid.trace
      → str_eq out "" ≡ true
      → Captured host c k end null

-- The run's state before and after a capture that went well.
pub record Stores (host : Host) (c : Controller) (k : Capture) (r end : Run) : Type 0 where
  pub value : Value
  pub kind : Captured host c k end value
  pub store : end.store ≡ insert k.name value r.store
  pub graph : end.graph ≡ r.graph

module _ (host : Host) (c : Controller) (k : Capture) where
  Stores-after :
      (r mid end : Run)
      → mid.store ≡ r.store
      → mid.graph ≡ r.graph
      → Stores host c k mid end
      → Stores host c k r end
  Stores-after r mid end s g h = record {
    value = h.value;
    kind = h.kind;
    store = h.store ∙ ap (insert k.name h.value) s;
    graph = h.graph ∙ g;
  }

  store_value-Stores :
      (v : Value) (r end : Run)
      → Captured host c k end v
      → store_value k v r ≡ (ok tt, end)
      → Stores host c k r end
  unfolding store_value
  store_value-Stores v r end h e = record {
    value = v;
    kind = h;
    store = sym (ap (λ q. q.1.store) e);
    graph = sym (ap (λ q. q.1.graph) e);
  }

  store_value-trace :
      (v : Value) (r end : Run) → store_value k v r ≡ (ok tt, end) → end.trace ≡ r.trace
  unfolding store_value
  store_value-trace v r end e = sym (ap (λ q. q.1.trace) e)

  -- The last attempt, once its command has answered.
  last-Stores :
      (value : String) (b o : Bool) (s mid end : Run)
      → capture_cmd host c k.label k.argv k.optional none s ≡ (ok value, mid)
      → str_eq value "" ≡ b
      → k.optional ≡ o
      → (elim b as (λ _. Exec Unit) [
        | false ↦ store_value k (captured k value)
        | true ↦ if o then store_value k null else raise (no_value k.label)
      ])
          mid
        ≡ (ok tt, end)
      → Stores host c k mid end
  last-Stores value false o s mid end ran e f h =
      store_value-Stores (captured k value) mid end
        (printed value k.optional s mid ran (store_value-trace (captured k value) mid end h) e) h
  last-Stores value true true s mid end ran e f h =
      store_value-Stores null mid end
        (absent value k.optional s mid f ran (store_value-trace null mid end h) e) h
  last-Stores value true false s mid end ran e f h = cc

  after_sleep : Run → Run
  after_sleep r = record r { trace = r.trace ++ (sleep 1000 ∷ []) }

  -- An attempt that is not the last one.
  next-Stores :
      (value : String) (b : Bool) (left : ℕ) (s mid end : Run)
      → capture_cmd host c k.label k.argv true none s ≡ (ok value, mid)
      → str_eq value "" ≡ b
      → ((r : Run) → capture_from host c k left r ≡ (ok tt, end) → Stores host c k r end)
      → (elim b as (λ _. Exec Unit) [
        | false ↦ store_value k (captured k value)
        | true ↦ restart host c k >> (perform host (sleep 1000) >> capture_from host c k left)
      ])
          mid
        ≡ (ok tt, end)
      → Stores host c k mid end
  unfolding after_sleep perform Keeps
  next-Stores value false left s mid end ran e rest h =
      store_value-Stores (captured k value) mid end
        (printed value true s mid ran (store_value-trace (captured k value) mid end h) e) h
  next-Stores value true left s mid end ran e rest h =
      let (u, mid', restarted, h') = >>=-eq-ok (restart host c k) _ mid end h in
      let kept = restart-Keeps host c k mid in
      Stores-after mid mid' end (sym (ap (λ q. q.1.store) restarted) ∙ kept.0)
        (sym (ap (λ q. q.1.graph) restarted) ∙ kept.1)
        (Stores-after mid' (after_sleep mid') end refl refl (rest (after_sleep mid') h'))

module _ (host : Host) (c : Controller) where
  -- A capture that went well has set its name in the store: to what its command printed when it ran
  -- last, which was the last action of the capture and printed something (as an object with the
  -- result's key, if it has one); or, if the capture is optional and its last run printed nothing,
  -- to nothing. The rest of the store and the raw graph are as they were.
  pub capture_from-Stores :
      (k : Capture) (left : ℕ) (r end : Run)
      → capture_from host c k left r ≡ (ok tt, end)
      → Stores host c k r end
  unfolding capture_from Keeps
  capture_from-Stores k zero r end h =
      let (value, mid, ran, h') =
        >>=-eq-ok (capture_cmd host c k.label k.argv k.optional none) _ r end h in
      let kept = capture_cmd-Keeps host c k.label k.argv k.optional none r in
      Stores-after host c k r mid end (sym (ap (λ q. q.1.store) ran) ∙ kept.0)
        (sym (ap (λ q. q.1.graph) ran) ∙ kept.1)
        (last-Stores host c k value _ _ r mid end ran refl refl h')
  capture_from-Stores k (suc left) r end h =
      let (value, mid, ran, h') =
        >>=-eq-ok (capture_cmd host c k.label k.argv true none) _ r end h in
      let kept = capture_cmd-Keeps host c k.label k.argv true none r in
      Stores-after host c k r mid end (sym (ap (λ q. q.1.store) ran) ∙ kept.0)
        (sym (ap (λ q. q.1.graph) ran) ∙ kept.1)
        (next-Stores host c k value _ left r mid end ran refl
          (λ s. capture_from-Stores k left s end) h')
