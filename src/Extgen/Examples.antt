-- ===== src/Extgen/Examples.antt =====
-- internal/extgen/validator.go: the theorems at concrete functions.
use frankenphp.Text.{same}
use frankenphp.Base.{any, ◌≡◌, ◌↔◌, refl, true, false, none, some, [], ◌∷◌, codes}
use frankenphp.Extgen.Validator
use frankenphp.Extgen.ValidatorLaws.{
  ParamsMatch, own_params, go_results, validate_go_function_signature_iff,
}

-- function add(?int a): int, with func add(a *int64) int64
abbrev add : Validator.PhpFunction
add = record {
  name = codes "add";
  go_function = codes "func add(a *int64) int64 {}";
  params = record { name = codes "a"; php_type = Validator.php_int; is_nullable = true } ∷ [];
  return_type = Validator.php_int;
}

abbrev go_add : Validator.GoFunc
go_add = record {
  has_receiver = false;
  params = Validator.star (Validator.ident (codes "int64")) ∷ [];
  results = Validator.ident (codes "int64") ∷ [];
}

validate_go_function_signature_iff_example :
    (Validator.validate_go_function_signature (some (some go_add)) false add ≡ none) ↔ (
      ParamsMatch add.params (own_params false false go_add.params)
      × (any
            (same (Validator.go_return_type_to_string go_add.results))
            (go_results Validator.php_int)
          ≡ true))
validate_go_function_signature_iff_example =
    validate_go_function_signature_iff go_add false add refl
