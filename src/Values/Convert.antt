-- ===== src/Values/Convert.antt =====
-- types.go: `phpValueInto` with `phpArray` and `PHPPackedArray`, and `goValue` with `goArray` and
-- `GoPackedArray`, for any as the type asked for. A zval is a finite tree here, so the protection
-- against arrays that hold themselves never answers with its error.
use frankenphp.Base.{Bool, true, false, List, [], ◌∷◌, Option, none, some, if◌then◌else◌}
use frankenphp.Base.Int.{ℤ}
use frankenphp.Text.{Bytes, same}
use frankenphp.Values.Defs.{
  Go, nil, bool, int, int64, float64, text, list, dict, assoc, unsupported, Items, end_items, item,
  Fields, end_fields, field, Zval, undef, null, zfalse, ztrue, long, double, string, array,
  reference, other, Slots, end_slots, slot, Array, Zend,
}

infixl 5 ◌>>=◌
abbrev pub ◌>>=◌ {ℓ κ} : {A : Type ℓ} {B : Type κ} → Option A → (A → Option B) → Option B
none >>= f = none
some a >>= f = f a

-- `entries[key]`, a missing key gives nil; the entries are those already converted.
abbrev pub entry : Bytes → List (Bytes × Option Zval) → Option Zval
entry k [] = some null
entry k ((k', z) ∷ es) = if same k k' then z else entry k es

module _ (zend : Zend) where
  -- The loop over `order`.
  unfoldable pub ordered : List Bytes → List (Bytes × Option Zval) → Array → Option Array
  ordered [] es a = some a
  ordered (k ∷ ks) es a = do z ← entry k es; ordered ks es (zend.str_update k z a)

  -- The loop over the map.
  unfoldable pub unordered : List (Bytes × Option Zval) → Array → Option Array
  unordered [] a = some a
  unordered ((k, z) ∷ es) a = do z' ← z; unordered es (zend.str_update k z' a)

  -- `phpArray`
  abbrev pub php_array : List (Bytes × Option Zval) → List Bytes → Option Array
  php_array es [] = unordered es zend.new_array
  php_array es (k ∷ ks) = ordered (k ∷ ks) es zend.new_array

  abbrev pub to_array : Option Array → Option Zval
  to_array none = none
  to_array (some (packed, slots)) = some (array packed slots)

  -- `none` is the panic for an unsupported type.
  unfoldable mutual
    pub php_value : Go → Option Zval
    php_value nil = some null
    php_value (bool true) = some ztrue
    php_value (bool false) = some zfalse
    php_value (int n) = some (long n)
    php_value (int64 n) = some (long n)
    php_value (float64 x) = some (double x)
    php_value (text s) = some (string s)
    php_value (list xs) = to_array (php_items xs zend.new_array)
    php_value (dict fs) = to_array (php_array (php_fields fs) [])
    php_value (assoc fs order) = to_array (php_array (php_fields fs) order)
    php_value unsupported = none

    -- The loop of `PHPPackedArray`.
    pub php_items : Items → Array → Option Array
    php_items end_items a = some a
    php_items (item v xs) a = do z ← php_value v; php_items xs (zend.next_insert z a)

    pub php_fields : Fields → List (Bytes × Option Zval)
    php_fields end_fields = []
    php_fields (field k v fs) = (k, php_value v) ∷ php_fields fs

abbrev pub put : Bytes → Go → Fields → Fields
put k v end_fields = field k v end_fields
put k v (field k' v' fs) = if same k k' then field k' v fs else field k' v' (put k v fs)

-- `entries[key] = e`, for the pairs in the order of the array.
abbrev pub puts : Fields → Fields → Fields
puts acc end_fields = acc
puts acc (field k v fs) = puts (put k v acc) fs

abbrev pub keys : Fields → List Bytes
keys end_fields = []
keys (field k v fs) = k ∷ keys fs

abbrev pub is_undef : Zval → Bool
is_undef undef = true
is_undef _ = false

-- `itoa` is strconv.Itoa.
module _ (itoa : ℤ → Bytes) where
  abbrev pub key_of : Option Bytes → ℤ → Bytes
  key_of none h = itoa h
  key_of (some k) h = k

  -- The flag says whether a reference may still be followed; `none` is an error.
  unfoldable mutual
    pub go_value : Bool → Zval → Option Go
    go_value follow undef = none
    go_value follow null = some nil
    go_value follow zfalse = some (bool false)
    go_value follow ztrue = some (bool true)
    go_value follow (long n) = some (int64 n)
    go_value follow (double x) = some (float64 x)
    go_value follow (string s) = some (text s)
    go_value follow (array true s) = do xs ← go_packed s; some (list xs)
    go_value follow (array false s) = do
      fs ← go_pairs s
      some (assoc (puts end_fields fs) (keys fs))
    go_value true (reference v) = go_value false v
    go_value false (reference v) = none
    go_value follow other = none

    pub go_packed : Slots → Option Items
    go_packed end_slots = some end_items
    go_packed (slot k h v s) =
        if is_undef v
        then go_packed s
        else (do x ← go_value true v; xs ← go_packed s; some (item x xs))

    pub go_pairs : Slots → Option Fields
    go_pairs end_slots = some end_fields
    go_pairs (slot k h v s) =
        if is_undef v
        then go_pairs s
        else (do x ← go_value true v; fs ← go_pairs s; some (field (key_of k h) x fs))
