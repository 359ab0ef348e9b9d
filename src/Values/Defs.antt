-- ===== src/Values/Defs.antt =====
-- types.go: the Go values that PHPValue takes, and PHP's zval. A float is its bits. The functions of
-- the Zend engine on arrays are the fields of `Zend`, with what they are known for.
use frankenphp.Base.{ℕ, ◌≡◌, Bool, true, false, ◌||◌, List, Option, none, some}
use frankenphp.Base.Int.{ℤ}
use frankenphp.Text.{Bytes, same}

mutual
  pub data Go : Type 0 where
    nil : Go
    bool : Bool → Go
    int : ℤ → Go
    int64 : ℤ → Go
    float64 : ℕ → Go
    text : Bytes → Go
    list : Items → Go  -- []any
    dict : Fields → Go  -- map[string]any, in the order of its iteration
    assoc : Fields → List Bytes → Go  -- AssociativeArray[any]: Map and Order
    unsupported : Go

  pub data Items : Type 0 where
    end_items : Items
    item : Go → Items → Items

  pub data Fields : Type 0 where
    end_fields : Fields
    field : Bytes → Go → Fields → Fields

-- A slot of an array: its key, its index, its value.
mutual
  pub data Zval : Type 0 where
    undef null zfalse ztrue : Zval
    long : ℤ → Zval
    double : ℕ → Zval
    string : Bytes → Zval
    array : Bool → Slots → Zval  -- whether it is packed
    reference : Zval → Zval
    other : Zval

  pub data Slots : Type 0 where
    end_slots : Slots
    slot : Option Bytes → ℤ → Zval → Slots → Slots

abbrev pub Array : Type 0
Array = Bool × Slots

abbrev pub append_slots : Slots → Slots → Slots
append_slots end_slots t = t
append_slots (slot k h v s) t = slot k h v (append_slots s t)

abbrev pub key_is : Bytes → Option Bytes → Bool
key_is k none = false
key_is k (some k') = same k k'

abbrev pub has_key : Bytes → Slots → Bool
has_key k end_slots = false
has_key k (slot k' h v s) = key_is k k' || has_key k s

-- zend_new_array, zend_hash_next_index_insert and zend_hash_str_update. The index given to a slot is
-- the engine's.
pub record Zend : Type 0 where
  pub new_array : Array
  pub next_insert : Zval → Array → Array
  pub str_update : Bytes → Zval → Array → Array
  pub index : Slots → ℤ
  pub new_empty : new_array ≡ (false, end_slots)
  pub first_insert :
      (v : Zval)
      → next_insert v (false, end_slots) ≡ (true, slot none (index end_slots) v end_slots)
  pub more_insert :
      (v : Zval) (s : Slots)
      → next_insert v (true, s) ≡ (true, append_slots s (slot none (index s) v end_slots))
  pub fresh_update :
      (k : Bytes) (v : Zval) (s : Slots)
      → has_key k s ≡ false
      → str_update k v (false, s) ≡ (false, append_slots s (slot (some k) (index s) v end_slots))
