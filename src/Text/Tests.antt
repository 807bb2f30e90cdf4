-- ===== src/Text/Tests.antt =====
-- The theorems on paths and amounts at concrete values.
use signeros.Base.{ℕ, ◌≡◌, List, [], ◌∷◌, map, arith, codes}
use signeros.Text.{to_string, format_path, split_path, format_btc, format_sat}
use signeros.Text.Decimal.{value}
use signeros.Text.Path.{element_text, split_path-format_path}
use signeros.Text.Amount.{without, value-format_btc, InThrees, format_sat-InThrees}

-- 84'/0'/0'/1/7
abbrev change_path : List ℕ
change_path = 2147483732 ∷ 2147483648 ∷ 2147483648 ∷ 1 ∷ 7 ∷ []

split_path-format_path_example :
    split_path (format_path change_path) ≡ codes "m" ∷ map element_text change_path
split_path-format_path_example = split_path-format_path change_path

value-format_btc_example : value 0 (without b'.' (format_btc 123456789)) ≡ 123456789
value-format_btc_example = value-format_btc 123456789 (omega arith)

format_sat-InThrees_example :
    InThrees 1 3 (to_string 1234567) (format_sat 1234567) × (value 0 (to_string 1234567) ≡ 1234567)
format_sat-InThrees_example = format_sat-InThrees 1234567 (omega arith)
