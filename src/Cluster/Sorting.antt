-- ===== src/Cluster/Sorting.antt =====
-- Python's `sorted(xs, key=...)`, which keeps the order of equal elements, and the tables that the
-- declarations of deployer/ir_common.py are built from.
use ovn_fabric.Prelude.{
  String, Bool, true, false, Option, none, some, List, [], ◌∷◌, ◌++◌, str_eq, str_le, Dict, lookup,
  insert, if◌then◌else◌,
}

module _ {A : Type 0} (le : A → A → Bool) where
  unfoldable pub place_by : A → List A → List A
  place_by x [] = x ∷ []
  place_by x (y ∷ ys) = let rest = place_by x ys in if le x y then x ∷ y ∷ ys else y ∷ rest

  unfoldable pub sort_by : List A → List A
  sort_by [] = []
  sort_by (x ∷ xs) = place_by x (sort_by xs)

module _ {A : Type 0} (f : A → String) where
  -- `key=lambda x: f(x)`
  abbrev pub by_name : A → A → Bool
  by_name x y = str_le (f x) (f y)

-- Lists of texts, as Python compares them.
unfoldable pub texts_le : List String → List String → Bool
texts_le [] ys = true
texts_le (x ∷ xs) [] = false
texts_le (x ∷ xs) (y ∷ ys) = let rest = texts_le xs ys in if str_eq x y then rest else str_le x y

module _ {A : Type 0} where
  unfoldable pub or_nil : Option (List A) → List A
  or_nil none = []
  or_nil (some xs) = xs

  -- `table.setdefault(k, []).append(x)`
  unfoldable pub push : String → A → Dict (List A) → Dict (List A)
  unfolding or_nil
  push k x d = insert k (or_nil (lookup k d) ++ (x ∷ [])) d

  -- A table of all elements, by a name of each.
  unfoldable pub group_by : (A → String) → List A → Dict (List A) → Dict (List A)
  group_by f [] d = d
  group_by f (x ∷ xs) d = group_by f xs (push (f x) x d)
