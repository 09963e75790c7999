-- ===== src/Units/JsonLaws.antt =====
-- Raw-node fields survive their way through JSON (fabric/units.py), up to the order of keys.
use ovn_fabric.Prelude.{
  String, ◌≡◌, refl, inl, inr, Bool-cases, str_le, >>=-eq-some, false, Option, none, some, str_eq,
  arith,
}
use ovn_fabric.Value.{
  Value, null, bool, num, text, ref, arr, obj, Items, nil, cons, Fields, end, field, get,
}
use ovn_fabric.Units.Json.{
  place, encode, encode_items, encode_fields, hook, decode, decode_items, decode_fields,
}

-- The same data with the keys of every object in order.
unfoldable mutual
  pub sorted : Value → Value
  sorted null = null
  sorted (bool b) = bool b
  sorted (num n) = num n
  sorted (text s) = text s
  sorted (ref r) = ref r
  sorted (arr xs) = arr (sorted_items xs)
  sorted (obj fs) = obj (sorted_fields fs)

  pub sorted_items : Items → Items
  sorted_items nil = nil
  sorted_items (cons v xs) = cons (sorted v) (sorted_items xs)

  pub sorted_fields : Fields → Fields
  sorted_fields end = end
  sorted_fields (field k v fs) = place k (sorted v) (sorted_fields fs)

-- No object has the key `$ref`, by which references are told apart.
abbrev mutual
  pub IsPlain : Value → Type 0
  IsPlain null = Unit
  IsPlain (bool b) = Unit
  IsPlain (num n) = Unit
  IsPlain (text s) = Unit
  IsPlain (ref r) = Unit
  IsPlain (arr xs) = IsPlainItems xs
  IsPlain (obj fs) = IsPlainFields fs

  pub IsPlainItems : Items → Type 0
  IsPlainItems nil = Unit
  IsPlainItems (cons v xs) = IsPlain v × IsPlainItems xs

  pub IsPlainFields : Fields → Type 0
  IsPlainFields end = Unit
  IsPlainFields (field k v fs) = (str_eq k "$ref" ≡ false) × IsPlain v × IsPlainFields fs

get-place :
    (j k : String) (v : Value) (fs : Fields) → str_eq k j ≡ false → get j (place k v fs) ≡ get j fs
unfolding get place
get-place j k v end h = ground arith
get-place j k v (field i w fs) h = ground (arith, get-place j k v fs)

decode-place :
    (k : String) (v w : Value) (fs gs : Fields)
    → decode v ≡ some w
    → decode_fields fs ≡ some gs
    → decode_fields (place k v fs) ≡ some (place k w gs)
unfolding decode place
decode-place k v w end gs h e = rw h (ground arith)
decode-place k v w (field j u fs) gs h e =
    let (u', read, e') = >>=-eq-some (decode u) _ e in
    let (gs', tail, e'') = >>=-eq-some (decode_fields fs) _ e' in
    let placed = decode-place k v w fs gs' h tail in
    elim (Bool-cases (str_le k j)) [ inl first ↦ ground arith | inr later ↦ ground arith ]

get-sorted : (fs : Fields) → IsPlainFields fs → get "$ref" (sorted_fields fs) ≡ none
unfolding sorted get
get-sorted end h = refl
get-sorted (field k v fs) h =
    rw (get-place "$ref" k (sorted v) (sorted_fields fs) h.0) (get-sorted fs h.2)

decode-encode_ref :
    (n : String) (k : Option String)
    → decode (encode (ref (record { name = n; key = k })))
      ≡ some (ref (record { name = n; key = k }))
unfolding encode decode
decode-encode_ref n none = refl
decode-encode_ref n (some k) = refl

mutual
  unfolding encode decode sorted

  pub decode-encode : (v : Value) → IsPlain v → decode (encode v) ≡ some (sorted v)
  decode-encode null h = refl
  decode-encode (bool b) h = refl
  decode-encode (num n) h = refl
  decode-encode (text s) h = refl
  decode-encode (ref r) h = decode-encode_ref r.name r.key
  decode-encode (arr xs) h = rw (decode-encode_items xs h)
  decode-encode (obj fs) h = rw (decode-encode_fields fs h, hook, get-sorted fs h)

  decode-encode_items :
      (xs : Items) → IsPlainItems xs → decode_items (encode_items xs) ≡ some (sorted_items xs)
  decode-encode_items nil h = refl
  decode-encode_items (cons v xs) h = rw (decode-encode v h.0, decode-encode_items xs h.1)

  decode-encode_fields :
      (fs : Fields) → IsPlainFields fs → decode_fields (encode_fields fs) ≡ some (sorted_fields fs)
  decode-encode_fields end h = refl
  decode-encode_fields (field k v fs) h =
      decode-place k (encode v) (sorted v) (encode_fields fs) (sorted_fields fs)
        (decode-encode v h.1) (decode-encode_fields fs h.2)
