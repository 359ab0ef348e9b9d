-- ===== src/Extgen/ConstantLaws.antt =====
-- internal/extgen/constparser.go: the values of a block of constants that counts with iota.
use frankenphp.Base.{
  ℕ, ◌+◌, ◌≡◌, refl, sym, ◌∙◌, Bool, true, false, ◌||◌, List, [], ◌∷◌, ◌++◌, Option, none, some,
  codes, arith,
}
use mathlib.Core.List.{append_assoc, append-nil}
use frankenphp.Text.{Bytes}
use frankenphp.Extgen.Validator
use frankenphp.Extgen.Constants.{
  Line, Constant, Parser, expects, expect_nothing, add_iota, block_entry, block_name, parse_line,
  parse_lines,
}

-- No mark and no end of a block.
abbrev pub IsPlain : Line → Type 0
IsPlain l =
    (l.is_const_mark ≡ false)
    × (l.class_mark ≡ none)
    × (l.opens_block ≡ false)
    × (l.closes_block ≡ false)

abbrev pub IsOpening : Line → Type 0
IsOpening l = (l.is_const_mark ≡ false) × (l.class_mark ≡ none) × (l.opens_block ≡ true)

abbrev pub IsIotaEntry : Bytes → Line → Type 0
IsIotaEntry name l = IsPlain l × (l.block_decl ≡ some (name, codes "iota"))

-- Lines that are names alone.
abbrev pub AreNames : List Bytes → List Line → Type 0
AreNames [] [] = Unit
AreNames (n ∷ ns) (l ∷ ls) =
    IsPlain l × (l.block_decl ≡ none) × (l.const_name ≡ some n) × AreNames ns ls
AreNames _ _ = ⊥

module _ (itoa : ℕ → Bytes) (unquote_raw : Bytes → Option Bytes)
    (parses_int parses_float : Bytes → Bool) where
  -- The constants with Go's values of iota, from `i` on.
  abbrev pub numbered : ℕ → Bytes → List Bytes → List Constant
  numbered i class [] = []
  numbered i class (n ∷ ns) =
      record {
        name = n;
        value = itoa i;
        php_type = Validator.php_int;
        is_iota = true;
        class_name = class;
      }
      ∷ numbered (i + 1) class ns

  name_line :
      (l : Line) (n : Bytes) (p : Parser)
      → IsPlain l
      → l.block_decl ≡ none
      → l.const_name ≡ some n
      → p.in_block ≡ true
      → p.export_all ≡ true
      → p.last_was_iota ≡ true
      → parse_line itoa unquote_raw parses_int parses_float l p
        ≡ some (expect_nothing (add_iota itoa unquote_raw parses_int parses_float n p))
  unfolding parse_line block_name
  name_line l n p (a, b, c, d) e f g h i = ground (arith, a, b, c, d, e, f, g, h, i)

  names_lem :
      (ls : List Line) (ns : List Bytes) (p : Parser)
      → AreNames ns ls
      → p.in_block ≡ true
      → p.export_all ≡ true
      → p.last_was_iota ≡ true
      → (p' : Parser) × (parse_lines itoa unquote_raw parses_int parses_float ls p ≡ some p')
        × (p'.constants ≡ p.constants ++ numbered p.current_value p.class_name ns)
  unfolding parse_lines add_iota
  names_lem [] [] p h g e i = (p, refl, sym (append-nil p.constants))
  names_lem [] (n ∷ ns) p h g e i = absurd h
  names_lem (l ∷ ls) [] p h g e i = absurd h
  names_lem (l ∷ ls) (n ∷ ns) p (a, b, c, h) g e i =
      let (p', r, k) =
        names_lem ls ns (expect_nothing (add_iota itoa unquote_raw parses_int parses_float n p)) h g
          e refl in
      (
        p',
        ground (arith, name_line l n p a b c g e i, r),
        k ∙ append_assoc p.constants _ (numbered (p.current_value + 1) p.class_name ns),
      )

  entry_line :
      (l : Line) (n : Bytes) (p : Parser)
      → IsIotaEntry n l
      → p.in_block ≡ true
      → p.export_all ≡ true
      → parse_line itoa unquote_raw parses_int parses_float l p
        ≡ some (expect_nothing (add_iota itoa unquote_raw parses_int parses_float n p))
  unfolding parse_line block_entry
  entry_line l n p ((a, b, c, d), e) g h = ground (arith, a, b, c, d, e, g, h)

  opening_line :
      (l : Line) (p : Parser)
      → IsOpening l
      → parse_line itoa unquote_raw parses_int parses_float l p
        ≡ some (record p {
          in_block = true;
          current_value = 0;
          export_all = expects p || p.export_all;
        })
  unfolding parse_line
  opening_line l p (a, b, c) = ground (arith, a, b, c)

  -- A marked block whose first constant is iota and whose others are names alone gives the values
  -- 0, 1, 2 and so on, as Go does, each an int of the marked class or of none.
  pub iota_block :
      (opening first : Line) (name : Bytes) (ls : List Line) (names : List Bytes) (p : Parser)
      → expects p ≡ true
      → IsOpening opening
      → IsIotaEntry name first
      → AreNames names ls
      → (p' : Parser) × (parse_lines itoa unquote_raw parses_int parses_float
            (opening ∷ first ∷ ls)
            p
          ≡ some p')
        × (p'.constants ≡ p.constants ++ numbered 0 p.class_name (name ∷ names))
  unfolding parse_lines add_iota
  iota_block opening first name ls names p x o e k =
      let p1 : Parser = record p {
        in_block = true;
        current_value = 0;
        export_all = expects p || p.export_all;
      } in
      let all : (expects p || p.export_all) ≡ true = ground (arith, x) in
      let p2 : Parser =
        expect_nothing (add_iota itoa unquote_raw parses_int parses_float name p1) in
      let (p', r, c) = names_lem ls names p2 k refl all refl in
      (
        p',
        ground (arith, opening_line opening p o, entry_line first name p1 e refl all, r),
        c ∙ append_assoc p.constants _ (numbered 1 p.class_name names),
      )
