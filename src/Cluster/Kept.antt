-- ===== src/Cluster/Kept.antt =====
-- What holds of all elements of a list holds after the sorting and the choices of
-- deployer/ir_common.py.
use ovn_fabric.Prelude.{
  String, Bool, true, false, List, [], ◌∷◌, All, contains, str_le, sort_names, place_name,
  if◌then◌else◌,
}
use ovn_fabric.Sysdeps.Names.{dedupe, dedupe_from}
use ovn_fabric.Plan.Calls.{Outcome, done, failed, ◌>>=◌}
use ovn_fabric.Plan.Discipline.{Holds}
use ovn_fabric.Cluster.Sorting.{place_by, sort_by}

module _ {A : Type 0} (P : A → Type 0) where
  pub All-if : (b : Bool) (xs ys : List A) → All P xs → All P ys → All P (if b then xs else ys)
  All-if true xs ys h k = h
  All-if false xs ys h k = k

  pub All-place_by :
      (le : A → A → Bool) (x : A) (ys : List A) → P x → All P ys → All P (place_by le x ys)
  unfolding place_by
  All-place_by le x [] h k = (h, tt)
  All-place_by le x (y ∷ ys) h (k, ks) =
      All-if (le x y) (x ∷ y ∷ ys) (y ∷ place_by le x ys) (h, (k, ks))
        (k, All-place_by le x ys h ks)

  pub All-sort_by : (le : A → A → Bool) (xs : List A) → All P xs → All P (sort_by le xs)
  unfolding sort_by
  All-sort_by le [] h = tt
  All-sort_by le (x ∷ xs) (h, hs) = All-place_by le x (sort_by le xs) h (All-sort_by le xs hs)

module _ (P : String → Type 0) where
  All-place_name : (s : String) (ts : List String) → P s → All P ts → All P (place_name s ts)
  unfolding place_name
  All-place_name s [] h k = (h, tt)
  All-place_name s (t ∷ ts) h (k, ks) =
      All-if P (str_le s t) (s ∷ t ∷ ts) (t ∷ place_name s ts) (h, (k, ks))
        (k, All-place_name s ts h ks)

  pub All-sort_names : (ss : List String) → All P ss → All P (sort_names ss)
  unfolding sort_names
  All-sort_names [] h = tt
  All-sort_names (s ∷ ss) (h, hs) = All-place_name s (sort_names ss) h (All-sort_names ss hs)

  All-dedupe_from : (seen ss : List String) → All P ss → All P (dedupe_from seen ss)
  unfolding dedupe_from
  All-dedupe_from seen [] h = tt
  All-dedupe_from seen (s ∷ ss) (h, hs) =
      All-if P (contains seen s) (dedupe_from seen ss) (s ∷ dedupe_from (s ∷ seen) ss)
        (All-dedupe_from seen ss hs) (h, All-dedupe_from (s ∷ seen) ss hs)

  pub All-dedupe : (ss : List String) → All P ss → All P (dedupe ss)
  unfolding dedupe
  All-dedupe ss h = All-dedupe_from [] ss h

module _ {A B : Type 0} (Q : A → Type 0) (P : B → Type 0) where
  pub Holds->>= :
      (o : Outcome A) (f : A → Outcome B)
      → Holds Q o
      → ((a : A) → Q a → Holds P (f a))
      → Holds P (o >>= f)
  Holds->>= (done a) f h k = k a h
  Holds->>= (failed e) f h k = tt
