-- ===== src/Extgen/Constants.antt =====
-- internal/extgen/constparser.go: `ConstantParser.parse` over the lines of a file. What the regular
-- expressions find in a line are the fields of `Line`; `itoa` is the print of a number, `unquote_raw`
-- strconv.Unquote and strconv.Quote together, `parses_int` and `parses_float` are strconv's.
use frankenphp.Base.{
  ℕ, ◌+◌, Bool, true, false, not, ◌&&◌, ◌||◌, List, [], ◌∷◌, ◌++◌, if◌then◌else◌, Option, none,
  some, codes, leb, length,
}
use frankenphp.Text.{Bytes, same, has_prefix, has_suffix}
use frankenphp.Extgen.Validator

-- A line without the spaces around it.
pub record Line : Type 0 where
  pub is_const_mark : Bool  -- constRegex
  pub class_mark : Option Bytes  -- classConstRegex, the name of the class
  pub opens_block : Bool
  pub closes_block : Bool
  pub starts_const : Bool
  pub const_decl : Option (Bytes × Bytes)  -- constDeclRegex, name and value
  pub block_decl : Option (Bytes × Bytes)  -- constBlockDeclRegex
  pub const_name : Option Bytes  -- constNameRegex
  pub is_comment : Bool
  pub is_blank : Bool

pub record Constant : Type 0 where
  pub name : Bytes
  pub value : Bytes
  pub php_type : Validator.PhpType
  pub is_iota : Bool
  pub class_name : Bytes

pub record Parser : Type 0 where
  pub expect_const : Bool
  pub expect_class : Bool
  pub class_name : Bytes
  pub current_value : ℕ
  pub in_block : Bool
  pub export_all : Bool
  pub last_value : Bytes
  pub last_was_iota : Bool
  pub constants : List Constant

unfoldable pub new_parser : Parser
new_parser = record {
  expect_const = false;
  expect_class = false;
  class_name = [];
  current_value = 0;
  in_block = false;
  export_all = false;
  last_value = [];
  last_was_iota = false;
  constants = [];
}

abbrev pub expects : Parser → Bool
expects p = p.expect_const || p.expect_class

abbrev pub expect_nothing : Parser → Parser
expect_nothing p = record p { expect_const = false; expect_class = false }

module _ (itoa : ℕ → Bytes) (unquote_raw : Bytes → Option Bytes)
    (parses_int parses_float : Bytes → Bool) where
  abbrev normalize_const_value : Bytes → Bytes
  normalize_const_value v =
      if not (has_prefix v (codes "`")) || not (has_suffix v (codes "`")) || not (leb 2 (length v))
      then v
      else elim (unquote_raw v) [ none ↦ v | some s ↦ s ]

  -- The value has no spaces around it.
  abbrev determine_constant_type : Bytes → Validator.PhpType
  determine_constant_type v =
      if (has_prefix v (codes "\"") && has_suffix v (codes "\""))
        || (has_prefix v (codes "`") && has_suffix v (codes "`"))
      then Validator.php_string
      else if same v (codes "true") || same v (codes "false")
      then Validator.php_bool
      else if parses_int v
      then Validator.php_int
      else if parses_float v
      then Validator.php_float
      else Validator.php_int

  abbrev constant : Bytes → Bytes → Bool → Parser → Constant
  constant name value iota p = record {
    name = name;
    value = value;
    php_type = if iota then Validator.php_int else determine_constant_type value;
    is_iota = iota;
    class_name = p.class_name;
  }

  abbrev append_constant : Constant → Parser → Parser
  append_constant c p = record p { constants = p.constants ++ c ∷ [] }

  -- A constant that is iota takes the current value, which is counted up.
  unfoldable pub add_iota : Bytes → Parser → Parser
  add_iota name p = record (append_constant (constant name (itoa p.current_value) true p) p) {
    current_value = p.current_value + 1;
    last_was_iota = true;
    last_value = itoa p.current_value;
  }

  unfoldable pub single_decl : Bytes → Bytes → Parser → Parser
  unfolding add_iota
  single_decl name raw p =
      let value = normalize_const_value raw in
      expect_nothing (
        if same value (codes "iota")
        then add_iota name p
        else append_constant (constant name value false p) p)

  unfoldable pub block_entry : Bytes → Bytes → Parser → Parser
  unfolding add_iota
  block_entry name raw p =
      let value = normalize_const_value raw in
      expect_nothing (
        if same value (codes "iota")
        then add_iota name p
        else record (append_constant (constant name value false p) p) {
          last_was_iota = false;
          last_value = value;
        })

  -- A name alone repeats what the last constant was.
  unfoldable pub block_name : Bytes → Parser → Parser
  unfolding add_iota
  block_name name p = expect_nothing (
      if p.last_was_iota
      then add_iota name p
      else append_constant (constant name p.last_value false p) p)

  -- One round of the loop; `none` is the error of an invalid declaration.
  unfoldable pub parse_line : Line → Parser → Option Parser
  unfolding single_decl block_entry block_name
  parse_line l p =
      if l.is_const_mark
      then some (record p { expect_const = true; expect_class = false; class_name = [] })
      else elim l.class_mark [
        | some c ↦ some (record p { expect_class = true; expect_const = false; class_name = c })
        | none ↦
            if l.opens_block
            then some (record p {
              in_block = true;
              current_value = 0;
              export_all = expects p || p.export_all;
            })
            else if p.in_block && l.closes_block
            then some (record p {
              in_block = false;
              export_all = false;
              expect_const = false;
              expect_class = false;
              class_name = [];
              last_value = [];
              last_was_iota = false;
            })
            else if expects p && l.starts_const && not p.in_block
            then elim l.const_decl [
              | none ↦ none
              | some (name, value) ↦ some (single_decl name value p)
            ]
            else if p.in_block && (expects p || p.export_all)
            then elim l.block_decl [
              | some (name, value) ↦ some (block_entry name value p)
              | none ↦ elim l.const_name [ some name ↦ some (block_name name p) | none ↦ some p ]
            ]
            else if expects p && not l.is_comment && not l.is_blank && not p.in_block
            then some (record (expect_nothing p) { class_name = [] })
            else some p
      ]

  unfoldable pub parse_lines : List Line → Parser → Option Parser
  parse_lines [] p = some p
  parse_lines (l ∷ ls) p = elim (parse_line l p) [ none ↦ none | some p1 ↦ parse_lines ls p1 ]

  -- `parse`, on the lines of a file that can be read.
  unfoldable pub parse : List Line → Option (List Constant)
  parse ls = elim (parse_lines ls new_parser) [ none ↦ none | some p ↦ some p.constants ]
