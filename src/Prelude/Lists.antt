-- ===== src/Prelude/Lists.antt =====
-- Lists measured by native numbers, tests on all elements, and predicates by recursion.
use Prim.Native.Nat.{ℕ, suc, ◌+◌}
use Prim.Native.String.{String}
use mathlib.Core.Path.{◌≡◌, refl, ap, ◌∙◌}
use mathlib.Core.Bool.{Bool, true, false, ◌&&◌, ◌||◌}
use mathlib.Core.List.{List, [], ◌∷◌, ◌++◌}
use native.Mathlib.Omega.{arith}
use ovn_fabric.Prelude.Tests.{if◌then◌else◌, str_eq, str_le}

module _ {ℓ} {A : Type ℓ} where
  abbrev pub length : List A → ℕ
  length [] = 0
  length (x ∷ xs) = suc (length xs)

  pub length-append : (xs ys : List A) → length (xs ++ ys) ≡ length xs + length ys
  length-append [] ys = omega arith
  length-append (x ∷ xs) ys = omega (arith, length-append xs ys)

  -- Python's `all(...)` and `any(...)`.
  abbrev pub all : (A → Bool) → List A → Bool
  all p [] = true
  all p (x ∷ xs) = p x && all p xs

  abbrev pub any : (A → Bool) → List A → Bool
  any p [] = false
  any p (x ∷ xs) = p x || any p xs

  pub any-append : (p : A → Bool) (xs ys : List A) → any p (xs ++ ys) ≡ (any p xs || any p ys)
  any-append p [] ys = refl
  any-append p (x ∷ xs) ys = ground (arith, any-append p xs ys)

  abbrev pub filter : (A → Bool) → List A → List A
  filter p [] = []
  filter p (x ∷ xs) = let rest = filter p xs in if p x then x ∷ rest else rest

module _ {ℓ κ} {A : Type ℓ} where
  abbrev pub All : (A → Type κ) → List A → Type κ
  All P [] = Unit
  All P (x ∷ xs) = P x × All P xs

  pub All-append : (P : A → Type κ) (xs ys : List A) → All P xs → All P ys → All P (xs ++ ys)
  All-append P [] ys h k = k
  All-append P (x ∷ xs) ys (a, h) k = (a, All-append P xs ys h k)

  -- One element changed, or taken out.
  pub All-changed :
      (P : A → Type κ) (xs ys : List A) (x y : A)
      → (P x → P y)
      → All P (xs ++ (x ∷ ys))
      → All P (xs ++ (y ∷ ys))
  All-changed P [] ys x y f (p, h) = (f p, h)
  All-changed P (z ∷ xs) ys x y f (p, h) = (p, All-changed P xs ys x y f h)

  pub All-at : (P : A → Type κ) (xs ys : List A) (x : A) → All P (xs ++ (x ∷ ys)) → P x
  All-at P [] ys x (p, h) = p
  All-at P (z ∷ xs) ys x (p, h) = All-at P xs ys x h

  pub All-removed :
      (P : A → Type κ) (xs ys : List A) (x : A) → All P (xs ++ (x ∷ ys)) → All P (xs ++ ys)
  All-removed P [] ys x (p, h) = h
  All-removed P (z ∷ xs) ys x (p, h) = (p, All-removed P xs ys x h)

-- Python's `s in xs`, for a list or a set of texts.
abbrev pub contains : List String → String → Bool
contains [] s = false
contains (x ∷ xs) s = str_eq x s || contains xs s

-- `sorted(names)`
unfoldable pub place_name : String → List String → List String
place_name s [] = s ∷ []
place_name s (t ∷ ts) = if str_le s t then s ∷ t ∷ ts else t ∷ place_name s ts

unfoldable pub sort_names : List String → List String
sort_names [] = []
sort_names (s ∷ ss) = place_name s (sort_names ss)

contains-place_name :
    (m s : String) (ts : List String) → contains (place_name s ts) m ≡ (str_eq s m || contains ts m)
unfolding place_name
contains-place_name m s [] = refl
contains-place_name m s (t ∷ ts) = ground (arith, contains-place_name m s ts)

pub contains-sort_names :
    (m : String) (ss : List String) → contains (sort_names ss) m ≡ contains ss m
unfolding sort_names
contains-sort_names m [] = refl
contains-sort_names m (s ∷ ss) =
    contains-place_name m s (sort_names ss) ∙ ap (λ b. str_eq s m || b) (contains-sort_names m ss)
