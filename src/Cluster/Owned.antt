-- ===== src/Cluster/Owned.antt =====
-- Owners come first: when every object of a declaration comes after the objects that own it.
use ovn_fabric.Prelude.{
  ℕ, ◌+◌, String, ◌≡◌, refl, ◌∙◌, Bool, true, ◌||◌, Option, none, some, List, [], ◌∷◌, ◌++◌, map,
  All, str_eq, arith,
}
use ovn_fabric.Value.{Value}
use ovn_fabric.Primitives.Ovn.{OvnObject, ovn_key}
use ovn_fabric.Primitives.Ovn.Kinds.{lrp}
use ovn_fabric.Primitives.Owners.{ovn_owners}
use ovn_fabric.Plan.Calls.{
  Outcome, done, failed, ◌>>=◌, Declared, object, pinned_lrp, Call, unit, ovn, wait_capture,
  keyed_unit, does, capture_value, netns_symlink, opens, Emission, nothing, refuses, opening,
  capturing, for_each, given, ◌then_emit◌,
}
use ovn_fabric.Plan.Discipline.{Holds}

-- The object, with a value for the capture that it refers to.
unfoldable pub filled : (String → Value) → Declared → OvnObject
filled v (object x) = x
filled v (pinned_lrp router name mac networks chassis ra) =
    lrp router name mac networks (some (v chassis)) ra

abbrev pub key_of : Declared → String
key_of (object x) = ovn_key x
key_of (pinned_lrp router name mac networks chassis ra) =
    ovn_key (lrp router name mac networks none ra)

abbrev pub owners_of : Declared → List String
owners_of (object x) = ovn_owners x
owners_of (pinned_lrp router name mac networks chassis ra) =
    ovn_owners (lrp router name mac networks none ra)

-- A set of keys.
abbrev pub Keys : Type 0
Keys = String → Bool

abbrev pub with_key : String → Keys → Keys
with_key k p j = p j || str_eq k j

abbrev pub IsOwned : Keys → List String → Type 0
IsOwned p ks = All (λ k. p k ≡ true) ks

-- Where the objects with keys in `p` are there, every object of the calls comes after its owners.
abbrev pub OwnersFirst : Keys → List Call → Type 0
OwnersFirst p [] = Unit
OwnersFirst p (ovn on d ∷ cs) = IsOwned p (owners_of d) × OwnersFirst (with_key (key_of d) p) cs
OwnersFirst p (does on op ∷ cs) = ⊥
OwnersFirst p (c ∷ cs) = OwnersFirst p cs

-- The keys after the calls.
unfoldable pub grown : Keys → List Call → Keys
grown p [] = p
grown p (ovn on d ∷ cs) = grown (with_key (key_of d) p) cs
grown p (c ∷ cs) = grown p cs

abbrev pub IsWithin : Keys → Keys → Type 0
IsWithin p q = (k : String) → p k ≡ true → q k ≡ true

IsOwned-IsWithin : (p q : Keys) (ks : List String) → IsWithin p q → IsOwned p ks → IsOwned q ks
IsOwned-IsWithin p q [] w h = tt
IsOwned-IsWithin p q (k ∷ ks) w (h, hs) = (w k h, IsOwned-IsWithin p q ks w hs)

with_key-IsWithin :
    (p q : Keys) (k : String) → IsWithin p q → IsWithin (with_key k p) (with_key k q)
with_key-IsWithin p q k w j h = ground (arith, w j, h)

OwnersFirst-IsWithin :
    (p q : Keys) (cs : List Call) → IsWithin p q → OwnersFirst p cs → OwnersFirst q cs
OwnersFirst-IsWithin p q [] w h = tt
OwnersFirst-IsWithin p q (ovn on d ∷ cs) w (o, h) = (
  IsOwned-IsWithin p q (owners_of d) w o,
  OwnersFirst-IsWithin (with_key (key_of d) p) (with_key (key_of d) q) cs
      (with_key-IsWithin p q (key_of d) w) h,
)
OwnersFirst-IsWithin p q (unit kind subject ∷ cs) w h = OwnersFirst-IsWithin p q cs w h
OwnersFirst-IsWithin p q (wait_capture on var argv ∷ cs) w h = OwnersFirst-IsWithin p q cs w h
OwnersFirst-IsWithin p q (keyed_unit kind subject key ∷ cs) w h = OwnersFirst-IsWithin p q cs w h
OwnersFirst-IsWithin p q (capture_value on var argv ∷ cs) w h = OwnersFirst-IsWithin p q cs w h
OwnersFirst-IsWithin p q (netns_symlink on container pid_var ∷ cs) w h =
    OwnersFirst-IsWithin p q cs w h
OwnersFirst-IsWithin p q (does on op ∷ cs) w h = elim h [ ]

grown-IsWithin : (p q : Keys) (cs : List Call) → IsWithin p q → IsWithin (grown p cs) (grown q cs)
unfolding grown
grown-IsWithin p q [] w = w
grown-IsWithin p q (ovn on d ∷ cs) w =
    grown-IsWithin (with_key (key_of d) p) (with_key (key_of d) q) cs
      (with_key-IsWithin p q (key_of d) w)
grown-IsWithin p q (unit kind subject ∷ cs) w = grown-IsWithin p q cs w
grown-IsWithin p q (wait_capture on var argv ∷ cs) w = grown-IsWithin p q cs w
grown-IsWithin p q (keyed_unit kind subject key ∷ cs) w = grown-IsWithin p q cs w
grown-IsWithin p q (capture_value on var argv ∷ cs) w = grown-IsWithin p q cs w
grown-IsWithin p q (netns_symlink on container pid_var ∷ cs) w = grown-IsWithin p q cs w
grown-IsWithin p q (does on op ∷ cs) w = grown-IsWithin p q cs w

OwnersFirst-append :
    (p : Keys) (xs ys : List Call)
    → OwnersFirst p xs
    → OwnersFirst (grown p xs) ys
    → OwnersFirst p (xs ++ ys)
unfolding grown
OwnersFirst-append p [] ys h k = k
OwnersFirst-append p (ovn on d ∷ xs) ys (o, h) k =
    (o, OwnersFirst-append (with_key (key_of d) p) xs ys h k)
OwnersFirst-append p (unit kind subject ∷ xs) ys h k = OwnersFirst-append p xs ys h k
OwnersFirst-append p (wait_capture on var argv ∷ xs) ys h k = OwnersFirst-append p xs ys h k
OwnersFirst-append p (keyed_unit kind subject key ∷ xs) ys h k = OwnersFirst-append p xs ys h k
OwnersFirst-append p (capture_value on var argv ∷ xs) ys h k = OwnersFirst-append p xs ys h k
OwnersFirst-append p (netns_symlink on container pid_var ∷ xs) ys h k =
    OwnersFirst-append p xs ys h k
OwnersFirst-append p (does on op ∷ xs) ys h k = elim h [ ]

grown-append :
    (p : Keys) (xs ys : List Call) (k : String) → grown p (xs ++ ys) k ≡ grown (grown p xs) ys k
unfolding grown
grown-append p [] ys k = refl
grown-append p (ovn on d ∷ xs) ys k = grown-append (with_key (key_of d) p) xs ys k
grown-append p (unit kind subject ∷ xs) ys k = grown-append p xs ys k
grown-append p (wait_capture on var argv ∷ xs) ys k = grown-append p xs ys k
grown-append p (keyed_unit kind subject key ∷ xs) ys k = grown-append p xs ys k
grown-append p (capture_value on var argv ∷ xs) ys k = grown-append p xs ys k
grown-append p (netns_symlink on container pid_var ∷ xs) ys k = grown-append p xs ys k
grown-append p (does on op ∷ xs) ys k = grown-append p xs ys k

-- From the keys of `p` the declaration keeps to the order, and has those of `q` after it.
pub record IsFrom (p q : Keys) (cs : List Call) : Type 0 where
  pub ordered : OwnersFirst p cs
  pub reaches : IsWithin q (grown p cs)

abbrev pub Emits : Keys → Emission → Keys → Type 0
Emits p e q = (n : ℕ) → Holds (IsFrom p q) (e n)

IsFrom-append :
    (p q r : Keys) (xs ys : List Call) → IsFrom p q xs → IsFrom q r ys → IsFrom p r (xs ++ ys)
IsFrom-append p q r xs ys h k = record {
  ordered = OwnersFirst-append p xs ys h.ordered (OwnersFirst-IsWithin q _ ys h.reaches k.ordered);
  reaches = λ j w. grown-append p xs ys j ∙ grown-IsWithin q _ ys h.reaches j (k.reaches j w);
}

module _ (p q r : Keys) (e f : Emission) where
  followed :
      (n : ℕ) (o : Outcome (List Call))
      → Holds (IsFrom p q) o
      → Emits q f r
      → Holds (IsFrom p r) (o >>= λ xs. f (n + opens xs) >>= λ ys. done (xs ++ ys))
  followed n (failed x) h k = tt
  followed n (done xs) h k = after (f (n + opens xs)) (k (n + opens xs))
    where
      after :
          (o : Outcome (List Call))
          → Holds (IsFrom q r) o
          → Holds (IsFrom p r) (o >>= λ ys. done (xs ++ ys))
      after (failed x) j = tt
      after (done ys) j = IsFrom-append p q r xs ys h j

  pub Emits-then_emit : Emits p e q → Emits q f r → Emits p (e then_emit f) r
  unfolding ◌then_emit◌
  Emits-then_emit h k n = followed n (e n) (h n) k

module _ (p : Keys) where
  pub Emits-nothing : Emits p nothing p
  unfolding nothing grown
  Emits-nothing n = record { ordered = tt; reaches = λ k h. h }

  pub Emits-capturing :
      (kind : String) (subject : Option String) (var : String) (argv : List String)
      → Emits p (capturing kind subject var argv) p
  unfolding capturing grown
  Emits-capturing kind subject var argv n = record { ordered = tt; reaches = λ k h. h }

  -- A unit with one object.
  pub Emits-opening_one :
      (kind : String) (subject : Option String) (d : Declared)
      → IsOwned p (owners_of d)
      → Emits p (opening kind subject (d ∷ [])) (with_key (key_of d) p)
  unfolding opening grown
  Emits-opening_one kind subject d h n = record { ordered = (h, tt); reaches = λ k w. w }

IsFrom-declared :
    (p q : Keys) (n : ℕ) (ds : List Declared)
    → IsWithin p q
    → All (λ d. IsOwned p (owners_of d)) ds
    → IsFrom q p (map (ovn (some n)) ds)
unfolding grown
IsFrom-declared p q n [] w h = record { ordered = tt; reaches = w }
IsFrom-declared p q n (d ∷ ds) w (o, h) =
    let rest = IsFrom-declared p (with_key (key_of d) q) n ds (λ k e. ground (arith, w k e)) h in
    record {
      ordered = (IsOwned-IsWithin p q (owners_of d) w o, rest.ordered);
      reaches = rest.reaches;
    }

pub Emits-opening :
    (p : Keys) (kind : String) (subject : Option String) (ds : List Declared)
    → All (λ d. IsOwned p (owners_of d)) ds
    → Emits p (opening kind subject ds) p
unfolding opening grown
Emits-opening p kind subject ds h n =
    let rest = IsFrom-declared p p n ds (λ k e. e) h in
    record { ordered = rest.ordered; reaches = rest.reaches }

module _ {A : Type 0} (p : Keys) where
  pub Emits-for_each :
      (xs : List A) (f : A → Emission) → ((x : A) → Emits p (f x) p) → Emits p (for_each xs f) p
  unfolding for_each
  Emits-for_each [] f h = Emits-nothing p
  Emits-for_each (x ∷ xs) f h = Emits-then_emit p p p _ _ (h x) (Emits-for_each xs f h)

  pub Emits-given :
      (q : Keys) (o : Outcome A) (f : A → Emission)
      → ((x : A) → o ≡ done x → Emits p (f x) q)
      → Emits p (given o f) q
  unfolding given refuses
  Emits-given q (done a) f h = h a refl
  Emits-given q (failed e) f h = λ n. tt

-- Fewer keys after it.
pub Emits-weaker : (p q r : Keys) (e : Emission) → IsWithin r q → Emits p e q → Emits p e r
Emits-weaker p q r e w h n = weaker (e n) (h n)
  where
    weaker : (o : Outcome (List Call)) → Holds (IsFrom p q) o → Holds (IsFrom p r) o
    weaker (failed x) j = tt
    weaker (done cs) j = record { ordered = j.ordered; reaches = λ k a. j.reaches k (w k a) }
