-- ===== src/Sysdeps/Counts.antt =====
-- How often a name stands in a list, for the lists of names of fabric/services/sysdeps.py.
use ovn_fabric.Prelude.{
  ℕ, ◌+◌, ◌≤◌, String, ◌≡◌, refl, sym, ap, Bool, true, false, not, ◌&&◌, List, [], ◌∷◌, ◌++◌,
  contains, str_eq, if◌then◌else◌, arith, Bool-cases, inl, inr, eq_iff, ◌∙◌,
}
use ovn_fabric.Sysdeps.Names.{dedupe_from}
use ovn_fabric.Sysdeps.Requests.{without}

abbrev pub one_if : Bool → ℕ
one_if true = 1
one_if false = 0

unfoldable pub count : String → List String → ℕ
count d [] = 0
count d (x ∷ xs) = one_if (str_eq x d) + count d xs

pub count-append : (d : String) (xs ys : List String) → count d (xs ++ ys) ≡ count d xs + count d ys
unfolding count
count-append d [] ys = omega arith
count-append d (x ∷ xs) ys = ground (arith, count-append d xs ys)

pub count-contained : (d : String) (xs : List String) → contains xs d ≡ true → 1 ≤ count d xs
unfolding count
count-contained d [] h = ground arith
count-contained d (x ∷ xs) h = ground (arith, count-contained d xs, h)

pub count-missing : (d : String) (xs : List String) → contains xs d ≡ false → count d xs ≡ 0
unfolding count
count-missing d [] h = refl
count-missing d (x ∷ xs) h = ground (arith, count-missing d xs, h)

pub str_eq-eq : (s t : String) → str_eq s t ≡ true → s ≡ t
str_eq-eq s t h = (eq_iff s t).0 h

pub str_eq_refl : (s : String) → str_eq s s ≡ true
str_eq_refl s = (eq_iff s s).1 refl

-- A test that two names are the same, from either side.
pub str_eq_comm : (s t : String) → str_eq s t ≡ str_eq t s
str_eq_comm s t = elim (Bool-cases (str_eq s t)) [
  | inl e ↦ rw (str_eq-eq s t e) refl
  | inr e ↦ elim (Bool-cases (str_eq t s)) [ inl f ↦ rw (str_eq-eq t s f) refl | inr f ↦ e ∙ sym f ]
]

pub count-without :
    (d e : String) (xs : List String)
    → count d (without e xs) ≡ (if str_eq e d then 0 else count d xs)
unfolding count
count-without d e [] = ground arith
count-without d e (x ∷ xs) = elim (Bool-cases (str_eq x e)) [
  | inl h ↦ ground (arith, count-without d e xs, h, str_eq-eq x e h)
  | inr h ↦ elim (Bool-cases (str_eq e d)) [
    | inl g ↦ ground (arith, count-without d e xs, h, g, str_eq-eq e d g)
    | inr g ↦ ground (arith, count-without d e xs, h, g)
  ]
]

pub contains-without :
    (d e : String) (xs : List String)
    → contains (without e xs) d ≡ (if str_eq e d then false else contains xs d)
contains-without d e [] = ground arith
contains-without d e (x ∷ xs) = elim (Bool-cases (str_eq x e)) [
  | inl h ↦ ground (arith, contains-without d e xs, h, str_eq-eq x e h)
  | inr h ↦ elim (Bool-cases (str_eq e d)) [
    | inl g ↦ ground (arith, contains-without d e xs, h, g, str_eq-eq e d g)
    | inr g ↦ ground (arith, contains-without d e xs, h, g)
  ]
]

pub contains-append :
    (d : String) (xs ys : List String)
    → contains (xs ++ ys) d ≡ (if contains xs d then true else contains ys d)
contains-append d [] ys = refl
contains-append d (x ∷ xs) ys = ground (arith, contains-append d xs ys)

-- How often a list without repetitions holds a name.
pub count-dedupe_from :
    (d : String) (seen ds : List String)
    → count d (dedupe_from seen ds) ≡ (if contains seen d then 0 else one_if (contains ds d))
unfolding dedupe_from count
count-dedupe_from d seen [] = ground arith
count-dedupe_from d seen (x ∷ ds) = elim (Bool-cases (str_eq x d)) [
  | inl f ↦ ground (
    arith,
    f,
    ap (contains seen) (str_eq-eq x d f),
    count-dedupe_from d seen ds,
    count-dedupe_from d (x ∷ seen) ds,
  )
  | inr f ↦ ground (arith, f, count-dedupe_from d seen ds, count-dedupe_from d (x ∷ seen) ds)
]

-- What a list without repetitions holds.
pub contains-dedupe_from :
    (d : String) (seen ds : List String)
    → contains (dedupe_from seen ds) d ≡ (not (contains seen d) && contains ds d)
unfolding dedupe_from
contains-dedupe_from d seen [] = ground arith
contains-dedupe_from d seen (x ∷ ds) = elim (Bool-cases (str_eq x d)) [
  | inl f ↦ ground (
    arith,
    f,
    ap (contains seen) (str_eq-eq x d f),
    contains-dedupe_from d seen ds,
    contains-dedupe_from d (x ∷ seen) ds,
  )
  | inr f ↦ ground (arith, f, contains-dedupe_from d seen ds, contains-dedupe_from d (x ∷ seen) ds)
]
