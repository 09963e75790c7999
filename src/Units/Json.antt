-- ===== src/Units/Json.antt =====
-- fabric/units.py: the fields of a raw node as JSON (`_fields_json`, `_fields`). A JSON text is
-- represented by the data that it denotes, with the keys of each object in their written order.
use ovn_fabric.Prelude.{String, Option, none, some, str_le, if◌then◌else◌, ◌>>=◌}
use ovn_fabric.Value.{
  Value, null, bool, num, text, ref, arr, obj, Items, nil, cons, Fields, end, field, get,
}

-- A key takes its place among sorted ones.
unfoldable pub place : String → Value → Fields → Fields
place k v end = field k v end
place k v (field j w fs) = if str_le k j then field k v (field j w fs) else field j w (place k v fs)

key_json : Option String → Value
key_json none = null
key_json (some k) = text k

-- `json.dumps(fields, sort_keys=True, default=_encode_ref)`
unfoldable mutual
  unfolding place key_json

  pub encode : Value → Value
  encode null = null
  encode (bool b) = bool b
  encode (num n) = num n
  encode (text s) = text s
  encode (ref r) = obj (field "$key" (key_json r.key) (field "$ref" (text r.name) end))
  encode (arr xs) = arr (encode_items xs)
  encode (obj fs) = obj (encode_fields fs)

  pub encode_items : Items → Items
  encode_items nil = nil
  encode_items (cons v xs) = cons (encode v) (encode_items xs)

  pub encode_fields : Fields → Fields
  encode_fields end = end
  encode_fields (field k v fs) = place k (encode v) (encode_fields fs)

-- `RuntimeRef(obj["$ref"], obj.get("$key"))`, for a name and a key of its declared types.
unfoldable pub decode_ref : Value → Option Value → Option Value
decode_ref (text n) none = some (ref (record { name = n; key = none }))
decode_ref (text n) (some null) = some (ref (record { name = n; key = none }))
decode_ref (text n) (some (text k)) = some (ref (record { name = n; key = some k }))
decode_ref _ _ = none

-- `_decode_ref`, the hook on every object that was read.
unfoldable pub hook : Fields → Option Value
unfolding decode_ref get
hook fs = elim (get "$ref" fs) [ none ↦ some (obj fs) | some v ↦ decode_ref v (get "$key" fs) ]

-- `json.loads(text, object_hook=_decode_ref)`
unfoldable mutual
  unfolding hook

  pub decode : Value → Option Value
  decode null = some null
  decode (bool b) = some (bool b)
  decode (num n) = some (num n)
  decode (text s) = some (text s)
  decode (ref r) = none
  decode (arr xs) = decode_items xs >>= λ ys. some (arr ys)
  decode (obj fs) = decode_fields fs >>= hook

  pub decode_items : Items → Option Items
  decode_items nil = some nil
  decode_items (cons v xs) = decode v >>= λ w. decode_items xs >>= λ ys. some (cons w ys)

  pub decode_fields : Fields → Option Fields
  decode_fields end = some end
  decode_fields (field k v fs) = decode v >>= λ w. decode_fields fs >>= λ gs. some (field k w gs)
