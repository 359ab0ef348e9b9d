-- ===== src/Values/Examples.antt =====
-- types.go: the theorem at a map that holds a list, with an engine that numbers slots from nothing.
use frankenphp.Base.{◌≡◌, refl, true, false, [], ◌∷◌, none, some, codes, ap, if◌then◌else◌, arith}
use frankenphp.Base.Int.{ℤ, pos}
use frankenphp.Text.{Bytes}
use frankenphp.Values.Defs.{
  Go, nil, int64, text, list, assoc, item, end_items, field, end_fields, Zval, Slots, slot,
  end_slots, Array, Zend, append_slots, key_is, has_key,
}
use frankenphp.Values.Convert.{php_value, go_value}
use frankenphp.Values.RoundTrip.{IsPlain, go_value-php_value}

abbrev append : Zval → Array → Array
append v (packed, s) = (true, append_slots s (slot none (pos 0) v end_slots))

abbrev replace : Bytes → Zval → Slots → Slots
replace k v end_slots = slot (some k) (pos 0) v end_slots
replace k v (slot k' h w s) = if key_is k k' then slot k' h v s else slot k' h w (replace k v s)

abbrev update : Bytes → Zval → Array → Array
update k v (packed, s) = (false, replace k v s)

replace-fresh :
    (k : Bytes) (v : Zval) (s : Slots)
    → has_key k s ≡ false
    → replace k v s ≡ append_slots s (slot (some k) (pos 0) v end_slots)
replace-fresh k v end_slots h = refl
replace-fresh k v (slot k' i w s) h = ground (arith, h, replace-fresh k v s)

abbrev engine : Zend
engine = record {
  new_array = (false, end_slots);
  next_insert = append;
  str_update = update;
  index = λ s. pos 0;
  new_empty = refl;
  first_insert = λ v. refl;
  more_insert = λ v s. refl;
  fresh_update = λ k v s h. ap (λ t. (false, t)) (replace-fresh k v s h);
}

abbrev itoa : ℤ → Bytes
itoa n = []

abbrev nested : Go
nested =
    assoc
      (field (codes "a") (list (item (int64 (pos 7)) (item nil end_items)))
        (field (codes "b") (text (codes "c")) end_fields))
      (codes "a" ∷ codes "b" ∷ [])

nested-IsPlain : IsPlain nested
unfolding IsPlain
nested-IsPlain = (refl, (refl, (refl, tt)), ((tt, (tt, tt)), (tt, tt)))

go_value-php_value_example :
    (z : Zval) × (php_value engine nested ≡ some z) × (go_value itoa true z ≡ some nested)
go_value-php_value_example = go_value-php_value engine itoa nested nested-IsPlain
