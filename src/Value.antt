-- ===== src/Value.antt =====
-- deployer/lifecycle.py: the values that operations and raw nodes hold (JSON data with
-- references to captured values), and `_resolve`, which fills the references in.
pub mod Keys
use ovn_fabric.Prelude.{
  ℕ, String, ◌≡◌, Option, none, some, Bool, List, [], ◌∷◌, Dict, lookup, str_eq, if◌then◌else◌,
}

-- `RuntimeRef`: the capture's name, and one field of its result.
pub record RuntimeRef : Type 0 where
  pub name : String
  pub key : Option String

-- A Python value as the program uses them: JSON data, or a reference.
mutual
  pub data Value : Type 0 where
    null : Value
    bool : Bool → Value
    num : ℕ → Value
    text : String → Value
    ref : RuntimeRef → Value
    arr : Items → Value
    obj : Fields → Value

  pub data Fields : Type 0 where
    end : Fields
    field : String → Value → Fields → Fields

  pub data Items : Type 0 where
    nil : Items
    cons : Value → Items → Items

-- `fields.get(k)`
unfoldable pub get : String → Fields → Option Value
get k end = none
get k (field j v fs) = if str_eq j k then some v else get k fs

-- `fields[k] = v`
unfoldable pub put : String → Value → Fields → Fields
put k v end = field k v end
put k v (field j w fs) = if str_eq j k then field j v fs else field j w (put k v fs)

-- `{**base, **fields}`
unfoldable pub merge : Fields → Fields → Fields
unfolding put
merge base end = base
merge base (field k v fs) = merge (put k v base) fs

-- `store.get(name)`, then the field of a result object. What nobody produced is `None`.
or_null : Option Value → Value
or_null none = null
or_null (some v) = v

pick : Option String → Value → Value
unfolding or_null get
pick none v = v
pick (some k) (obj fs) = or_null (get k fs)
pick (some k) _ = null

unfoldable pub resolve_ref : Dict Value → RuntimeRef → Value
unfolding pick or_null
resolve_ref store r = pick r.key (or_null (lookup r.name store))

-- `_resolve` on a value. A resolved value is not resolved again.
unfoldable mutual
  pub resolve : Dict Value → Value → Value
  resolve store null = null
  resolve store (bool b) = bool b
  resolve store (num n) = num n
  resolve store (text s) = text s
  resolve store (ref r) = resolve_ref store r
  resolve store (arr xs) = arr (resolve_items store xs)
  resolve store (obj fs) = obj (resolve_fields store fs)

  pub resolve_items : Dict Value → Items → Items
  resolve_items store nil = nil
  resolve_items store (cons v xs) = cons (resolve store v) (resolve_items store xs)

  pub resolve_fields : Dict Value → Fields → Fields
  resolve_fields store end = end
  resolve_fields store (field k v fs) = field k (resolve store v) (resolve_fields store fs)

unfoldable pub resolve_list : Dict Value → List Value → List Value
resolve_list store [] = []
resolve_list store (v ∷ vs) = resolve store v ∷ resolve_list store vs
