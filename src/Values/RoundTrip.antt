-- ===== src/Values/RoundTrip.antt =====
-- types.go: what comes back of a Go value that goes to PHP.
use frankenphp.Base.{
  ◌≡◌, refl, sym, ap, ◌∙◌, Bool, true, false, ◌||◌, List, ◌∷◌, Option, none, some, arith,
}
use mathlib.Core.Path.{subst}
use frankenphp.Base.Int.{ℤ}
use frankenphp.Text.{Bytes, same}
use frankenphp.Text.Laws.{same_refl, same_comm}
use frankenphp.Values.Defs.{
  Go, nil, bool, int, int64, float64, text, list, dict, assoc, unsupported, Items, end_items, item,
  Fields, end_fields, field, Zval, null, zfalse, ztrue, long, double, string, array, Slots,
  end_slots, slot, Zend, append_slots, has_key,
}
use frankenphp.Values.Convert.{
  entry, ordered, unordered, php_array, php_value, php_items, php_fields, put, puts, keys, is_undef,
  go_value, go_packed, go_pairs,
}

abbrev pub has_field : Bytes → Fields → Bool
has_field k end_fields = false
has_field k (field k' v fs) = same k k' || has_field k fs

abbrev pub Distinct : Fields → Type 0
Distinct end_fields = Unit
Distinct (field k v fs) = (has_field k fs ≡ false) × Distinct fs

-- A value that has one form only: numbers are int64, a list is not empty, and a map has its keys, all
-- different, as its order.
unfoldable mutual
  pub IsPlain : Go → Type 0
  IsPlain nil = Unit
  IsPlain (bool b) = Unit
  IsPlain (int n) = ⊥
  IsPlain (int64 n) = Unit
  IsPlain (float64 x) = Unit
  IsPlain (text s) = Unit
  IsPlain (list end_items) = ⊥
  IsPlain (list (item v xs)) = IsPlain v × ArePlain xs
  IsPlain (dict fs) = ⊥
  IsPlain (assoc fs order) = (order ≡ keys fs) × Distinct fs × FieldsPlain fs
  IsPlain unsupported = ⊥

  pub ArePlain : Items → Type 0
  ArePlain end_items = Unit
  ArePlain (item v xs) = IsPlain v × ArePlain xs

  pub FieldsPlain : Fields → Type 0
  FieldsPlain end_fields = Unit
  FieldsPlain (field k v fs) = IsPlain v × FieldsPlain fs

append_end : (s : Slots) → append_slots s end_slots ≡ s
append_end end_slots = refl
append_end (slot k h v s) = ap (slot k h v) (append_end s)

append_assoc :
    (s t u : Slots) → append_slots (append_slots s t) u ≡ append_slots s (append_slots t u)
append_assoc end_slots t u = refl
append_assoc (slot k h v s) t u = ap (slot k h v) (append_assoc s t u)

abbrev append_fields : Fields → Fields → Fields
append_fields end_fields gs = gs
append_fields (field k v fs) gs = field k v (append_fields fs gs)

append_fields_end : (fs : Fields) → append_fields fs end_fields ≡ fs
append_fields_end end_fields = refl
append_fields_end (field k v fs) = ap (field k v) (append_fields_end fs)

append_fields_assoc :
    (fs gs hs : Fields)
    → append_fields (append_fields fs gs) hs ≡ append_fields fs (append_fields gs hs)
append_fields_assoc end_fields gs hs = refl
append_fields_assoc (field k v fs) gs hs = ap (field k v) (append_fields_assoc fs gs hs)

put_fresh :
    (k : Bytes) (v : Go) (acc : Fields)
    → has_field k acc ≡ false
    → put k v acc ≡ append_fields acc (field k v end_fields)
put_fresh k v end_fields h = refl
put_fresh k v (field k' v' acc) h = ground (arith, h, put_fresh k v acc)

-- No key of the second is one of the first.
abbrev Apart : Fields → Fields → Type 0
Apart acc end_fields = Unit
Apart acc (field k v fs) = (has_field k acc ≡ false) × Apart acc fs

has_field-append :
    (k : Bytes) (fs gs : Fields)
    → has_field k (append_fields fs gs) ≡ (has_field k fs || has_field k gs)
has_field-append k end_fields gs = refl
has_field-append k (field k' v fs) gs = ground (arith, has_field-append k fs gs)

Apart-append :
    (k : Bytes) (v : Go) (acc fs : Fields)
    → Apart acc fs
    → has_field k fs ≡ false
    → Apart (append_fields acc (field k v end_fields)) fs
Apart-append k v acc end_fields a h = tt
Apart-append k v acc (field j w fs) (b, a) h = (
  ground (arith, b, h, has_field-append j acc (field k v end_fields), same_comm j k),
  Apart-append k v acc fs a (ground (arith, h)),
)

puts-Apart : (acc fs : Fields) → Apart acc fs → Distinct fs → puts acc fs ≡ append_fields acc fs
puts-Apart acc end_fields a d = sym (append_fields_end acc)
puts-Apart acc (field k v fs) (b, a) (d, ds) =
    ap (λ t. puts t fs) (put_fresh k v acc b)
    ∙ puts-Apart (append_fields acc (field k v end_fields)) fs (Apart-append k v acc fs a d) ds
    ∙ append_fields_assoc acc (field k v end_fields) fs

Apart-end : (fs : Fields) → Apart end_fields fs
Apart-end end_fields = tt
Apart-end (field k v fs) = (refl, Apart-end fs)

puts_end : (fs : Fields) → Distinct fs → puts end_fields fs ≡ fs
puts_end fs d = puts-Apart end_fields fs (Apart-end fs) d

-- The converted entries of the fields stand in the table.
abbrev Entered : Fields → (Go → Option Zval) → List (Bytes × Option Zval) → Type 0
Entered end_fields f es = Unit
Entered (field k v fs) f es = (entry k es ≡ f v) × Entered fs f es

Entered-skip :
    (fs : Fields) (f : Go → Option Zval) (es : List (Bytes × Option Zval)) (k : Bytes)
    (z : Option Zval)
    → has_field k fs ≡ false
    → Entered fs f es
    → Entered fs f ((k, z) ∷ es)
Entered-skip end_fields f es k z h e = tt
Entered-skip (field j v fs) f es k z h (e, rest) =
    (ground (arith, h, e, same_comm j k), Entered-skip fs f es k z (ground (arith, h)) rest)

module _ (zend : Zend) where
  Entered-php_fields :
      (fs : Fields) → Distinct fs → Entered fs (php_value zend) (php_fields zend fs)
  unfolding php_fields
  Entered-php_fields end_fields d = tt
  Entered-php_fields (field k v fs) (d, ds) = (
    ground (arith, same_refl k),
    Entered-skip fs (php_value zend) (php_fields zend fs) k (php_value zend v) d
        (Entered-php_fields fs ds),
  )

module _ (zend : Zend) (itoa : ℤ → Bytes) where
  -- A value goes over and comes back.
  abbrev Returns : Go → Type 0
  Returns g =
      (z : Zval) × (php_value zend g ≡ some z)
      × (go_value itoa true z ≡ some g)
      × (is_undef z ≡ false)

  abbrev ItemsReturn : Items → Type 0
  ItemsReturn xs =
      (t : Slots)
      → (s : Slots) × (php_items zend xs (true, t) ≡ some (true, append_slots t s))
        × (go_packed itoa s ≡ some xs)

  -- None of the keys is in the array yet.
  abbrev Unused : Fields → Slots → Type 0
  Unused end_fields t = Unit
  Unused (field k v fs) t = (has_key k t ≡ false) × Unused fs t

  abbrev FieldsReturn : Fields → Type 0
  FieldsReturn fs =
      (es : List (Bytes × Option Zval)) (t : Slots)
      → Entered fs (php_value zend) es
      → Unused fs t
      → (s : Slots) × (ordered zend (keys fs) es (false, t) ≡ some (false, append_slots t s))
        × (go_pairs itoa s ≡ some fs)

  has_key-append :
      (k : Bytes) (s t : Slots) → has_key k (append_slots s t) ≡ (has_key k s || has_key k t)
  has_key-append k end_slots t = refl
  has_key-append k (slot j h v s) t = ground (arith, has_key-append k s t)

  Unused-append :
      (fs : Fields) (t : Slots) (k : Bytes) (h : ℤ) (v : Zval)
      → Unused fs t
      → has_field k fs ≡ false
      → Unused fs (append_slots t (slot (some k) h v end_slots))
  Unused-append end_fields t k h v u d = tt
  Unused-append (field j w fs) t k h v (b, u) d = (
    ground (arith, b, d, has_key-append j t (slot (some k) h v end_slots), same_comm j k),
    Unused-append fs t k h v u (ground (arith, d)),
  )

  Unused-end : (fs : Fields) → Unused fs end_slots
  Unused-end end_fields = tt
  Unused-end (field k v fs) = (refl, Unused-end fs)

  item-Returns : (v : Go) (xs : Items) → Returns v → ItemsReturn xs → ItemsReturn (item v xs)
  unfolding php_items go_packed
  item-Returns v xs (z, p, g, u) rest t =
      let one = slot none (zend.index t) z end_slots in
      let (s, q, r) = rest (append_slots t one) in
      (
        slot none (zend.index t) z s,
        ground (arith, p, zend.more_insert z t, q, append_assoc t one s),
        ground (arith, g, u, r),
      )

  field-Returns :
      (k : Bytes) (v : Go) (fs : Fields)
      → Returns v
      → has_field k fs ≡ false
      → FieldsReturn fs
      → FieldsReturn (field k v fs)
  unfolding ordered go_pairs
  field-Returns k v fs (z, p, g, u) d rest es t (e, entered) (b, unused) =
      let one = slot (some k) (zend.index t) z end_slots in
      let (s, q, r) =
        rest es (append_slots t one) entered (Unused-append fs t k (zend.index t) z unused d) in
      (
        slot (some k) (zend.index t) z s,
        ground (arith, e, p, zend.fresh_update k z t b, q, append_assoc t one s),
        ground (arith, g, u, r),
      )

  list-Returns : (v : Go) (xs : Items) → Returns v → ItemsReturn xs → Returns (list (item v xs))
  unfolding php_value go_value php_items go_packed
  list-Returns v xs (z, p, g, u) rest =
      let first = slot none (zend.index end_slots) z end_slots in
      let (s, q, r) = rest first in
      let started : zend.next_insert z zend.new_array ≡ (true, first) =
        ap (zend.next_insert z) zend.new_empty ∙ zend.first_insert z in
      (
        array true (slot none (zend.index end_slots) z s),
        ground (arith, p, started, q),
        ground (arith, g, u, r),
        refl,
      )

  array_of :
      (fs : Fields) {s : Slots}
      → ordered zend (keys fs) (php_fields zend fs) (false, end_slots) ≡ some (false, s)
      → php_array zend (php_fields zend fs) (keys fs) ≡ some (false, s)
  unfolding ordered unordered php_fields
  array_of end_fields h = ap some zend.new_empty ∙ h
  array_of (field k v fs) h =
      ap (λ a. ordered zend (k ∷ keys fs) (php_fields zend (field k v fs)) a) zend.new_empty ∙ h

  assoc-Returns : (fs : Fields) → Distinct fs → FieldsReturn fs → Returns (assoc fs (keys fs))
  unfolding php_value go_value
  assoc-Returns fs d rest =
      let (s, q, r) =
        rest (php_fields zend fs) end_slots (Entered-php_fields zend fs d) (Unused-end fs) in
      (array false s, ground (arith, array_of fs q), ground (arith, r, puts_end fs d), refl)

  mutual
    unfolding php_value go_value php_items go_packed ordered go_pairs IsPlain

    returns : (g : Go) → IsPlain g → Returns g
    returns nil h = (null, refl, refl, refl)
    returns (bool true) h = (ztrue, refl, refl, refl)
    returns (bool false) h = (zfalse, refl, refl, refl)
    returns (int n) h = absurd h
    returns (int64 n) h = (long n, refl, refl, refl)
    returns (float64 x) h = (double x, refl, refl, refl)
    returns (text s) h = (string s, refl, refl, refl)
    returns (list end_items) h = absurd h
    returns (list (item v xs)) (h, hs) = list-Returns v xs (returns v h) (items_return xs hs)
    returns (dict fs) h = absurd h
    returns (assoc fs order) (e, d, h) =
        subst (λ o. Returns (assoc fs o)) (sym e) (assoc-Returns fs d (fields_return fs d h))
    returns unsupported h = absurd h

    items_return : (xs : Items) → ArePlain xs → ItemsReturn xs
    items_return end_items h = λ t. (end_slots, ap (λ s. some (true, s)) (sym (append_end t)), refl)
    items_return (item v xs) (h, hs) = item-Returns v xs (returns v h) (items_return xs hs)

    fields_return : (fs : Fields) → Distinct fs → FieldsPlain fs → FieldsReturn fs
    fields_return end_fields d h =
        λ es t e u. (end_slots, ap (λ s. some (false, s)) (sym (append_end t)), refl)
    fields_return (field k v fs) (d, ds) (h, hs) =
        field-Returns k v fs (returns v h) d (fields_return fs ds hs)

  -- A plain Go value converted to PHP and back is itself, however deeply its lists and maps nest.
  pub go_value-php_value :
      (g : Go)
      → IsPlain g
      → (z : Zval) × (php_value zend g ≡ some z) × (go_value itoa true z ≡ some g)
  go_value-php_value g h = let (z, p, q, u) = returns g h in (z, p, q)
