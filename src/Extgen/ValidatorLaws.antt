-- ===== src/Extgen/ValidatorLaws.antt =====
-- internal/extgen/validator.go: what a nil error stands for.
use frankenphp.Base.{
  any, codes, ◌||◌, ◌&&◌, if◌then◌else◌, ℕ, ◌+◌, ◌≡◌, refl, Bool, true, false, List, [], ◌∷◌, All,
  none, some, arith, length, drop, ◌↔◌, sym, Bool,
}
use mathlib.Core.Path.{subst}
use frankenphp.Text.{Bytes, same, is_empty}
use frankenphp.Extgen.Validator

-- A parameter as PHP and the generator accept it.
abbrev pub GoodParameter : Validator.PhpParameter → Type 0
GoodParameter p =
    (Validator.is_identifier p.name ≡ true) × (Validator.is_param_type p.php_type ≡ true)

identifier-not_empty : (s : Bytes) → Validator.is_identifier s ≡ true → is_empty s ≡ false
unfolding Validator.is_identifier
identifier-not_empty [] h = cc
identifier-not_empty (c ∷ s) h = refl

validate_parameter_iff :
    (p : Validator.PhpParameter) → (Validator.validate_parameter p ≡ none) ↔ GoodParameter p
unfolding Validator.validate_parameter
validate_parameter_iff p = (λ h. ground arith, λ h. ground (arith, identifier-not_empty p.name h.0))

validate_parameters_iff :
    (i : ℕ) (ps : List Validator.PhpParameter)
    → (Validator.validate_parameters i ps ≡ none) ↔ All GoodParameter ps
unfolding Validator.validate_parameters
validate_parameters_iff i [] = (λ h. tt, λ h. refl)
validate_parameters_iff i (p ∷ ps) =
    let here = validate_parameter_iff p in
    let rest = validate_parameters_iff (i + 1) ps in
    (
      λ h. (here.0 (ground arith), rest.0 (ground arith)),
      λ (a, b). ground (arith, here.1 a, rest.1 b),
    )

-- `validateFunction` returns nil exactly for a function whose name and parameter names are PHP
-- identifiers, whose parameter types are parameter types and whose return type is a return type.
pub validate_function_iff :
    (fn : Validator.PhpFunction)
    → (Validator.validate_function fn ≡ none) ↔ (
        (Validator.is_identifier fn.name ≡ true)
        × All GoodParameter fn.params
        × (Validator.is_return_type fn.return_type ≡ true))
unfolding Validator.validate_function Validator.validate_return_type
validate_function_iff fn =
    let ps = validate_parameters_iff 0 fn.params in
    (
      λ h. (ground arith, ps.0 (ground arith), ground arith),
      λ (a, b, c). ground (arith, identifier-not_empty fn.name a, ps.1 b),
    )

same_comm : (a b : Bytes) → same a b ≡ same b a
same_comm [] [] = refl
same_comm [] (b ∷ bs) = refl
same_comm (a ∷ as_) [] = refl
same_comm (a ∷ as_) (b ∷ bs) = ground (arith, same_comm as_ bs)

-- The comment's claim: it does not matter in which direction compatibility is asked.
pub is_compatible_go_type_comm :
    (a b : Bytes) → Validator.is_compatible_go_type a b ≡ Validator.is_compatible_go_type b a
unfolding Validator.is_compatible_go_type
is_compatible_go_type_comm a b = ground (arith, same_comm a b)

-- The Go types that may stand for a PHP type, nullable or not.
abbrev pub go_types : Validator.PhpType → Bool → List Bytes
go_types Validator.php_int false = codes "int64" ∷ codes "int" ∷ []
go_types Validator.php_int true = codes "*int64" ∷ codes "*int" ∷ []
go_types Validator.php_float false = codes "float64" ∷ []
go_types Validator.php_float true = codes "*float64" ∷ []
go_types Validator.php_bool false = codes "bool" ∷ []
go_types Validator.php_bool true = codes "*bool" ∷ []
go_types Validator.php_string b = codes "*C.zend_string" ∷ []
go_types Validator.php_array b = codes "*C.zend_array" ∷ []
go_types Validator.php_mixed b = codes "*C.zval" ∷ []
go_types Validator.php_callable b = codes "*C.zval" ∷ []
go_types t false = codes "any" ∷ []
go_types t true = codes "*any" ∷ []

-- The Go types that may be returned for a PHP type; a function that returns nothing has an empty one.
abbrev pub go_results : Validator.PhpType → List Bytes
go_results Validator.php_void = [] ∷ []
go_results Validator.php_int = codes "int64" ∷ codes "int" ∷ []
go_results Validator.php_float = codes "float64" ∷ []
go_results Validator.php_bool = codes "bool" ∷ []
go_results Validator.php_string = codes "unsafe.Pointer" ∷ []
go_results Validator.php_array = codes "unsafe.Pointer" ∷ []
go_results Validator.php_mixed = codes "unsafe.Pointer" ∷ []
go_results t = codes "any" ∷ []

-- A type that is no integer is compatible with itself only.
compatible_only :
    (e a : Bytes)
    → same e (codes "int64") ≡ false
    → same e (codes "int") ≡ false
    → same e (codes "*int64") ≡ false
    → same e (codes "*int") ≡ false
    → Validator.is_compatible_go_type e a ≡ any (same a) (e ∷ [])
unfolding Validator.is_compatible_go_type Validator.is_int_alias
compatible_only e a h k l m = ground (arith, same_comm e a, h, k, l, m)

compatible_int :
    (a : Bytes)
    → Validator.is_compatible_go_type (codes "int64") a
      ≡ any (same a) (codes "int64" ∷ codes "int" ∷ [])
unfolding Validator.is_compatible_go_type Validator.is_int_alias
compatible_int a =
    rw (same_comm (codes "int64") a) (ints (same a (codes "int64")) (same a (codes "int")) _)
  where
    ints :
        (x y z : Bool)
        → (if x then true else (y || false) || ((x && false) || (z && false))) ≡ (x || (y || false))
    ints x y z = ground arith

compatible_int_pointer :
    (a : Bytes)
    → Validator.is_compatible_go_type (codes "*int64") a
      ≡ any (same a) (codes "*int64" ∷ codes "*int" ∷ [])
unfolding Validator.is_compatible_go_type Validator.is_int_alias
compatible_int_pointer a = ground (arith, same_comm (codes "*int64") a)

compatible-go_types :
    (t : Validator.PhpType) (b : Bool) (a : Bytes)
    → Validator.is_compatible_go_type (Validator.php_type_to_go_type t b) a
      ≡ any (same a) (go_types t b)
unfolding Validator.php_type_to_go_type
compatible-go_types Validator.php_int false a = compatible_int a
compatible-go_types Validator.php_int true a = compatible_int_pointer a
compatible-go_types Validator.php_float false a = compatible_only _ a refl refl refl refl
compatible-go_types Validator.php_float true a = compatible_only _ a refl refl refl refl
compatible-go_types Validator.php_bool false a = compatible_only _ a refl refl refl refl
compatible-go_types Validator.php_bool true a = compatible_only _ a refl refl refl refl
compatible-go_types Validator.php_string false a = compatible_only _ a refl refl refl refl
compatible-go_types Validator.php_string true a = compatible_only _ a refl refl refl refl
compatible-go_types Validator.php_array false a = compatible_only _ a refl refl refl refl
compatible-go_types Validator.php_array true a = compatible_only _ a refl refl refl refl
compatible-go_types Validator.php_mixed false a = compatible_only _ a refl refl refl refl
compatible-go_types Validator.php_mixed true a = compatible_only _ a refl refl refl refl
compatible-go_types Validator.php_callable false a = compatible_only _ a refl refl refl refl
compatible-go_types Validator.php_callable true a = compatible_only _ a refl refl refl refl
compatible-go_types t false a = compatible_only _ a refl refl refl refl
compatible-go_types t true a = compatible_only _ a refl refl refl refl

compatible-go_results :
    (t : Validator.PhpType) (a : Bytes)
    → Validator.is_compatible_go_type (Validator.php_return_type_to_go_type t) a
      ≡ any (same a) (go_results t)
unfolding Validator.php_return_type_to_go_type
compatible-go_results Validator.php_int a = compatible_int a
compatible-go_results t a = compatible_only _ a refl refl refl refl

-- Each PHP parameter against the Go parameter in its place.
abbrev pub ParamsMatch : List Validator.PhpParameter → List Validator.GoExpr → Type 0
ParamsMatch [] [] = Unit
ParamsMatch (p ∷ ps) (t ∷ ts) =
    (any (same (Validator.go_type_to_string t)) (go_types p.php_type p.is_nullable) ≡ true)
    × ParamsMatch ps ts
ParamsMatch _ _ = ⊥

match_params_iff :
    (i : ℕ) (ps : List Validator.PhpParameter) (ts : List Validator.GoExpr)
    → length ps ≡ length ts
    → (Validator.match_params i ps ts ≡ none) ↔ ParamsMatch ps ts
unfolding Validator.match_params
match_params_iff i [] [] e = (λ h. tt, λ h. refl)
match_params_iff i [] (t ∷ ts) e = absurd (omega arith)
match_params_iff i (p ∷ ps) [] e = absurd (omega arith)
match_params_iff i (p ∷ ps) (t ∷ ts) e =
    let rest = match_params_iff (i + 1) ps ts (omega arith) in
    let here = compatible-go_types p.php_type p.is_nullable (Validator.go_type_to_string t) in
    (λ h. (ground (arith, here), rest.0 (ground arith)), λ (a, b). ground (arith, here, rest.1 b))

ParamsMatch-length :
    (ps : List Validator.PhpParameter) (ts : List Validator.GoExpr)
    → ParamsMatch ps ts
    → length ps ≡ length ts
ParamsMatch-length [] [] h = refl
ParamsMatch-length [] (t ∷ ts) h = absurd h
ParamsMatch-length (p ∷ ps) [] h = absurd h
ParamsMatch-length (p ∷ ps) (t ∷ ts) (a, b) = omega (arith, ParamsMatch-length ps ts b)

-- The Go parameters that stand for PHP parameters, from whether the function is one of a class and has a
-- receiver: a method written without one takes the struct as its first parameter.
abbrev pub own_params : Bool → Bool → List Validator.GoExpr → List Validator.GoExpr
own_params true false (struct_param ∷ ts) = ts
own_params true false [] = []
own_params true true ts = ts
own_params false b ts = ts

drop-own_params :
    (is_method : Bool) (go_func : Validator.GoFunc)
    → drop (Validator.param_offset is_method go_func) go_func.params
      ≡ own_params is_method go_func.has_receiver go_func.params
drop-own_params is_method go_func =
    split is_method go_func.has_receiver go_func.params go_func.results
  where
    split :
        (m b : Bool) (ts rs : List Validator.GoExpr)
        → drop
            (Validator.param_offset m (record { has_receiver = b; params = ts; results = rs }))
            ts
          ≡ own_params m b ts
    split true false [] rs = refl
    split true false (t ∷ ts) rs = ground arith
    split true true ts rs = refl
    split false true ts rs = refl
    split false false ts rs = refl

-- For a Go function that parses, the signature is accepted exactly where its own Go parameters match
-- the PHP parameters one by one, each being one of the Go types listed for the PHP type, and its result
-- is one of those listed for the return type. Its own parameters are all of them; only for a method
-- of a class written without receiver the first one, which is the struct, is not among them.
pub validate_go_function_signature_iff :
    (go_func : Validator.GoFunc) (is_method : Bool) (fn : Validator.PhpFunction)
    → is_empty fn.go_function ≡ false
    → (Validator.validate_go_function_signature (some (some go_func)) is_method fn ≡ none) ↔ (
        ParamsMatch fn.params (own_params is_method go_func.has_receiver go_func.params)
        × (any
              (same (Validator.go_return_type_to_string go_func.results))
              (go_results fn.return_type)
            ≡ true))
unfolding Validator.validate_go_function_signature Validator.check_go_func
validate_go_function_signature_iff go_func is_method fn s =
    let params = drop (Validator.param_offset is_method go_func) go_func.params in
    let own = drop-own_params is_method go_func in
    let result =
      compatible-go_results fn.return_type (Validator.go_return_type_to_string go_func.results) in
    (
      λ h. (
        subst (ParamsMatch fn.params) own
            ((match_params_iff 0 fn.params params (ground arith)).0 (ground arith)),
        ground (arith, result),
      ),
      λ (a', b).
          let a = subst (ParamsMatch fn.params) (sym own) a' in
          let e = ParamsMatch-length fn.params params a in
          ground (arith, result, e, (match_params_iff 0 fn.params params e).1 a),
    )
