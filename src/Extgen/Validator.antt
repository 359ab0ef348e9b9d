-- ===== src/Extgen/Validator.antt =====
-- internal/extgen/validator.go, and the types of internal/extgen/nodes.go that it reads. What Go's
-- parser makes of a function is an argument: `none` is a parse error, `some none` a text without a
-- function declaration.
use frankenphp.Base.{
  ℕ, ◌+◌, Bool, true, false, not, ◌&&◌, ◌||◌, List, [], ◌∷◌, ◌++◌, ◌==◌, leb, ltb, if◌then◌else◌,
  Option, none, some, length, drop, codes,
}
use frankenphp.Text.{Bytes, same, is_empty}

pub data PhpType : Type 0 where
  php_string php_int php_float php_bool php_array php_object : PhpType
  php_mixed php_void php_null php_true php_false php_callable : PhpType
  unknown : Bytes → PhpType  -- any other text

pub record PhpParameter : Type 0 where
  pub name : Bytes
  pub php_type : PhpType
  pub is_nullable : Bool

pub record PhpFunction : Type 0 where
  pub name : Bytes
  pub go_function : Bytes
  pub params : List PhpParameter
  pub return_type : PhpType

pub record PhpClassProperty : Type 0 where
  pub name : Bytes
  pub php_type : PhpType

pub record PhpClass : Type 0 where
  pub name : Bytes
  pub properties : List PhpClassProperty

-- `slices.Contains(paramTypes, t)`, and so for the other lists.
unfoldable pub is_param_type : PhpType → Bool
is_param_type php_void = false
is_param_type php_null = false
is_param_type php_true = false
is_param_type php_false = false
is_param_type (unknown s) = false
is_param_type _ = true

unfoldable pub is_return_type : PhpType → Bool
is_return_type php_callable = false
is_return_type (unknown s) = false
is_return_type _ = true

unfoldable pub is_prop_type : PhpType → Bool
is_prop_type php_callable = false
is_prop_type php_void = false
is_prop_type php_null = false
is_prop_type php_true = false
is_prop_type php_false = false
is_prop_type (unknown s) = false
is_prop_type _ = true

unfoldable pub is_supported_type : PhpType → Bool
is_supported_type php_object = false
is_supported_type php_void = false
is_supported_type php_null = false
is_supported_type php_true = false
is_supported_type php_false = false
is_supported_type (unknown s) = false
is_supported_type _ = true

abbrev is_letter : ℕ → Bool
is_letter c = (leb b'a' c && leb c b'z') || (leb b'A' c && leb c b'Z') || c == b'_'

abbrev is_letter_or_digit : ℕ → Bool
is_letter_or_digit c = is_letter c || (leb b'0' c && leb c b'9')

abbrev all_bytes : (ℕ → Bool) → Bytes → Bool
all_bytes p [] = true
all_bytes p (c ∷ s) = p c && all_bytes p s

-- The four regular expressions are one: ^[a-zA-Z_][a-zA-Z0-9_]*$
unfoldable pub is_identifier : Bytes → Bool
is_identifier [] = false
is_identifier (c ∷ s) = is_letter c && all_bytes is_letter_or_digit s

pub data Invalid : Type 0 where
  name_empty invalid_name invalid_type : Invalid
  in_parameter in_property : ℕ → Invalid → Invalid
  in_return_type : Invalid → Invalid
  unsupported_parameter : ℕ → Invalid
  unsupported_return no_go_function parse_failed no_declaration : Invalid
  count_mismatch : ℕ → ℕ → Invalid
  parameter_mismatch : ℕ → Invalid
  return_mismatch : Invalid

-- `none` is a nil error.
abbrev pub Verdict : Type 0
Verdict = Option Invalid

-- A name and a type, as parameters and properties have them.
abbrev check_named : Bytes → Bool → Verdict
check_named name type_ok =
    if is_empty name
    then some name_empty
    else if not (is_identifier name)
    then some invalid_name
    else if not type_ok
    then some invalid_type
    else none

unfoldable pub validate_parameter : PhpParameter → Verdict
validate_parameter p = check_named p.name (is_param_type p.php_type)

unfoldable pub validate_return_type : PhpType → Verdict
validate_return_type t = if not (is_return_type t) then some invalid_type else none

unfoldable pub validate_class_property : PhpClassProperty → Verdict
validate_class_property p = check_named p.name (is_prop_type p.php_type)

-- The loop over the parameters from index `i` on.
unfoldable pub validate_parameters : ℕ → List PhpParameter → Verdict
validate_parameters i [] = none
validate_parameters i (p ∷ ps) =
    let rest = validate_parameters (i + 1) ps in
    elim (validate_parameter p) [ some e ↦ some (in_parameter i e) | none ↦ rest ]

unfoldable pub validate_properties : ℕ → List PhpClassProperty → Verdict
validate_properties i [] = none
validate_properties i (p ∷ ps) =
    let rest = validate_properties (i + 1) ps in
    elim (validate_class_property p) [ some e ↦ some (in_property i e) | none ↦ rest ]

unfoldable pub validate_function : PhpFunction → Verdict
validate_function fn =
    if is_empty fn.name
    then some name_empty
    else if not (is_identifier fn.name)
    then some invalid_name
    else elim (validate_parameters 0 fn.params) [
      | some e ↦ some e
      | none ↦ elim (validate_return_type fn.return_type) [
        | some e ↦ some (in_return_type e)
        | none ↦ none
      ]
    ]

unfoldable pub validate_class : PhpClass → Verdict
validate_class class =
    if is_empty class.name
    then some name_empty
    else if not (is_identifier class.name)
    then some invalid_name
    else validate_properties 0 class.properties

unfoldable pub unsupported_parameters : ℕ → List PhpParameter → Verdict
unsupported_parameters i [] = none
unsupported_parameters i (p ∷ ps) =
    let rest = unsupported_parameters (i + 1) ps in
    if not (is_supported_type p.php_type) then some (unsupported_parameter (i + 1)) else rest

abbrev is_void : PhpType → Bool
is_void php_void = true
is_void _ = false

unfoldable pub validate_types : PhpFunction → Verdict
validate_types fn = elim (unsupported_parameters 0 fn.params) [
  | some e ↦ some e
  | none ↦
      if not (is_void fn.return_type) && not (is_supported_type fn.return_type)
      then some unsupported_return
      else none
]

-- An expression of Go's syntax tree, as far as the checks look into it.
pub data GoExpr : Type 0 where
  ident : Bytes → GoExpr
  star : GoExpr → GoExpr
  selector : GoExpr → Bytes → GoExpr
  other : GoExpr

-- A declared function: `params` are the types after `flattenParamTypes`, `results` those of the
-- fields.
pub record GoFunc : Type 0 where
  pub has_receiver : Bool
  pub params : List GoExpr
  pub results : List GoExpr

unfoldable pub go_type_to_string : GoExpr → Bytes
go_type_to_string (ident name) = name
go_type_to_string (star x) = b'*' ∷ go_type_to_string x
go_type_to_string (selector x sel) = go_type_to_string x ++ b'.' ∷ sel
go_type_to_string other = codes "unknown"

-- `strings.Join(types, ", ")`
unfoldable pub join_types : List GoExpr → Bytes
join_types [] = []
join_types (t ∷ []) = go_type_to_string t
join_types (t ∷ u ∷ ts) = go_type_to_string t ++ codes ", " ++ join_types (u ∷ ts)

unfoldable pub go_return_type_to_string : List GoExpr → Bytes
go_return_type_to_string [] = []
go_return_type_to_string (t ∷ []) = go_type_to_string t
go_return_type_to_string (t ∷ u ∷ ts) = b'(' ∷ join_types (t ∷ u ∷ ts) ++ b')' ∷ []

abbrev pub base_type : PhpType → Bytes
base_type php_string = codes "*C.zend_string"
base_type php_int = codes "int64"
base_type php_float = codes "float64"
base_type php_bool = codes "bool"
base_type php_array = codes "*C.zend_array"
base_type php_mixed = codes "*C.zval"
base_type php_callable = codes "*C.zval"
base_type _ = codes "any"

abbrev pub is_pointer : PhpType → Bool
is_pointer php_string = true
is_pointer php_array = true
is_pointer php_mixed = true
is_pointer php_callable = true
is_pointer _ = false

unfoldable pub php_type_to_go_type : PhpType → Bool → Bytes
php_type_to_go_type t is_nullable =
    if is_nullable && not (is_pointer t) then b'*' ∷ base_type t else base_type t

unfoldable pub php_return_type_to_go_type : PhpType → Bytes
php_return_type_to_go_type php_void = []
php_return_type_to_go_type php_string = codes "unsafe.Pointer"
php_return_type_to_go_type php_int = codes "int64"
php_return_type_to_go_type php_float = codes "float64"
php_return_type_to_go_type php_bool = codes "bool"
php_return_type_to_go_type php_array = codes "unsafe.Pointer"
php_return_type_to_go_type php_mixed = codes "unsafe.Pointer"
php_return_type_to_go_type _ = codes "any"

unfoldable pub is_int_alias : Bytes → Bytes → Bool
is_int_alias a b =
    (same a (codes "int64") && same b (codes "int"))
    || (same a (codes "*int64") && same b (codes "*int"))

unfoldable pub is_compatible_go_type : Bytes → Bytes → Bool
is_compatible_go_type expected actual =
    if same expected actual
    then true
    else is_int_alias expected actual || is_int_alias actual expected

-- The loop over the parameters; both lists have the same length there, so the third clause is not
-- met.
unfoldable pub match_params : ℕ → List PhpParameter → List GoExpr → Verdict
match_params i [] ts = none
match_params i (p ∷ ps) (t ∷ ts) =
    let rest = match_params (i + 1) ps ts in
    if not
      (is_compatible_go_type (php_type_to_go_type p.php_type p.is_nullable) (go_type_to_string t))
    then some (parameter_mismatch (i + 1))
    else rest
match_params i (p ∷ ps) [] = some (parameter_mismatch (i + 1))

abbrev pub param_offset : Bool → GoFunc → ℕ
param_offset is_method go_func =
    if not go_func.has_receiver && is_method && ltb 0 (length go_func.params) then 1 else 0

unfoldable pub check_go_func : Bool → PhpFunction → GoFunc → Verdict
check_go_func is_method fn go_func =
    let params = drop (param_offset is_method go_func) go_func.params in
    if not (length fn.params == length params)
    then some (count_mismatch (length fn.params) (length params))
    else elim (match_params 0 fn.params params) [
      | some e ↦ some e
      | none ↦
          if not (
            is_compatible_go_type (php_return_type_to_go_type fn.return_type)
              (go_return_type_to_string go_func.results))
          then some return_mismatch
          else none
    ]

unfoldable pub validate_go_function_signature :
    Option (Option GoFunc) → Bool → PhpFunction → Verdict
validate_go_function_signature parsed is_method fn =
    if is_empty fn.go_function then some no_go_function else elim parsed [
      | none ↦ some parse_failed
      | some decl ↦ elim decl [
        | none ↦ some no_declaration
        | some go_func ↦ check_go_func is_method fn go_func
      ]
    ]
