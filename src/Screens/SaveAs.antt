-- ===== src/Screens/SaveAs.antt =====
-- `SaveAsPage` of src/btc_signer_gui/src/ui/save_as.cpp: the name of the output file is typed here.
use signeros.Base.{
  ℕ, ◌-◌, Bool, ◌&&◌, ◌||◌, not, Option, none, some, [], ◌∷◌, ◌++◌, Bytes, leb, ◌==◌, if◌then◌else◌,
  length, take,
}
use signeros.Files.{sanitise_file_name, is_empty}

-- The errors that the page shows.
pub data NameError (E : Type 0) : Type 0 where
  nothing_usable : NameError E
  write_failed : E → NameError E

-- `name_`, whether `acceptBtn_` is enabled, and the text of `error_`. The text is ASCII, so a
-- `QChar` is a byte.
pub record SaveAsPage (E : Type 0) : Type 0 where
  pub name : Bytes
  pub accept_enabled : Bool
  pub error : Option (NameError E)

-- `QString::trimmed` on ASCII: the blanks at both ends.
abbrev pub is_trimmed : ℕ → Bool
is_trimmed c = c == 32 || (leb 9 c && leb c 13)

unfoldable pub trim_left : Bytes → Bytes
trim_left [] = []
trim_left (c ∷ cs) = let rest = trim_left cs in if is_trimmed c then rest else c ∷ cs

unfoldable pub trim_right : Bytes → Bytes
trim_right [] = []
trim_right (c ∷ cs) =
    let rest = trim_right cs in if is_empty rest && is_trimmed c then [] else c ∷ rest

unfoldable pub trimmed : Bytes → Bytes
trimmed t = trim_right (trim_left t)

-- `isPrintableAscii`
abbrev pub is_printable_ascii : ℕ → Bool
is_printable_ascii c = leb 0x20 c && leb c 0x7e

-- What Enter or the button do: the page asks for a write, or shows an error.
pub data Accepted (E : Type 0) : Type 0 where
  emitted shown : SaveAsPage E → Accepted E

module _ {E : Type 0} where
  -- `refresh`
  unfoldable pub refresh : SaveAsPage E → SaveAsPage E
  refresh p = record p { accept_enabled = not (is_empty (sanitise_file_name (trimmed p.name) [])) }

  unfoldable pub with_name : Bytes → SaveAsPage E → SaveAsPage E
  with_name name p = refresh (record p { name = name })

  -- `begin`
  unfoldable pub begin_naming : Bytes → SaveAsPage E → SaveAsPage E
  begin_naming proposed p = with_name proposed (record p { error = none })

  -- `fileName`
  unfoldable pub file_name : SaveAsPage E → Bytes
  file_name p = trimmed p.name

  unfoldable pub set_error : NameError E → SaveAsPage E → SaveAsPage E
  set_error e p = record p { error = some e }

  -- `accept`
  unfoldable pub accept : SaveAsPage E → Accepted E
  accept p = if p.accept_enabled then emitted p else shown (set_error nothing_usable p)

  -- `backspace`: `chop(1)`
  unfoldable pub chop_name : SaveAsPage E → SaveAsPage E
  chop_name p = with_name (take (length p.name - 1) p.name) p

  -- `clearName`
  unfoldable pub clear_name : SaveAsPage E → SaveAsPage E
  clear_name p = with_name [] p

  -- `typeCharacter`
  unfoldable pub type_name_character : ℕ → SaveAsPage E → SaveAsPage E
  type_name_character c p =
      if not (is_printable_ascii c)
      then p
      else if leb 120 (length p.name)
      then p
      else with_name (p.name ++ c ∷ []) p
