-- ===== src/Primitives/Build.antt =====
-- What the primitives (deployer/primitives_*.py) are built from.
use ovn_fabric.Prelude.{
  ℕ, String, Bool, false, none, List, [], ◌∷◌, map, str_eq, str_le, if◌then◌else◌,
}
use ovn_fabric.Value.{Value, num, text, arr, obj, Items, nil, cons, Fields, end, put}
use ovn_fabric.Lifecycle.{Command}

unfoldable pub texts : List String → List Value
texts = map text

-- `Command(label, argv)`
unfoldable pub cmd : String → List String → Command
cmd label argv = record { label = label; argv = texts argv; optional = false; timeout = none }

text_items : List String → Items
text_items [] = nil
text_items (s ∷ ss) = cons (text s) (text_items ss)

num_items : List ℕ → Items
num_items [] = nil
num_items (n ∷ ns) = cons (num n) (num_items ns)

-- A JSON list of texts, and of numbers.
unfoldable pub text_list : List String → Value
unfolding text_items
text_list ss = arr (text_items ss)

unfoldable pub num_list : List ℕ → Value
unfolding num_items
num_list ns = arr (num_items ns)

-- `sorted(pairs)`: by the first text, then by the second.
pair_le : String × String → String × String → Bool
pair_le (a, b) (c, d) = if str_eq a c then str_le b d else str_le a c

place_pair : String × String → List (String × String) → List (String × String)
unfolding pair_le
place_pair p [] = p ∷ []
place_pair p (q ∷ qs) = if pair_le p q then p ∷ q ∷ qs else q ∷ place_pair p qs

unfoldable pub sort_pairs : List (String × String) → List (String × String)
unfolding place_pair
sort_pairs [] = []
sort_pairs (p ∷ ps) = place_pair p (sort_pairs ps)

-- `dict(pairs)`: a later pair covers an earlier one.
dict_from : Fields → List (String × String) → Fields
unfolding put
dict_from fs [] = fs
dict_from fs ((k, v) ∷ ps) = dict_from (put k (text v) fs) ps

unfoldable pub dict_of : List (String × String) → Value
unfolding dict_from
dict_of ps = obj (dict_from end ps)
