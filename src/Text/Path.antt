-- ===== src/Text/Path.antt =====
-- `formatPath` read back by `splitPath`, `pathAccountPrefix` and `pathChainElement`.
use signeros.Base.{
  ℕ, suc, ◌+◌, ◌-◌, ◌%◌, ◌^◌, ◌≡◌, ◌≢◌, inl, inr, refl, sym, ap, ◌∙◌, false, List, [], ◌∷◌, ◌++◌,
  map, append-nil, arith, Bytes, ltb, leb, if◌then◌else◌, length, get_or, codes, Bool-cases, All,
  All-append, length-append,
}
use signeros.Base.Fields.{fields, is_sep, after, join, LacksSep, fields-join}
use signeros.Text.{
  slash, to_string, format_element, format_elements, format_path, split_path, path_account_prefix,
  path_chain_element,
}
use signeros.Text.Decimal.{IsDigit, digits-IsDigit}

-- The text of one path element, without the slash in front of it.
unfoldable pub element_text : ℕ → Bytes
element_text e = if leb (2 ^ 31) e then to_string (e % 2 ^ 31) ++ b'\'' ∷ [] else to_string e

IsDigit-LacksSep : (t : Bytes) → All IsDigit t → LacksSep slash t
IsDigit-LacksSep [] h = tt
IsDigit-LacksSep (c ∷ t) (hc, h) = (omega arith, IsDigit-LacksSep t h)

to_string-LacksSep : (n : ℕ) → LacksSep slash (to_string n)
unfolding to_string
to_string-LacksSep n = IsDigit-LacksSep _ (digits-IsDigit 20 n)

element_text-LacksSep : (e : ℕ) → LacksSep slash (element_text e)
unfolding element_text
element_text-LacksSep e = elim (Bool-cases (leb (2 ^ 31) e)) [
  | inl h ↦ rw h (
      All-append (λ c. c ≢ slash) (to_string (e % 2 ^ 31)) (b'\'' ∷ [])
        (to_string-LacksSep (e % 2 ^ 31)) (omega arith))
  | inr h ↦ rw h (to_string-LacksSep e)
]

format_element-text : (e : ℕ) → format_element e ≡ slash ∷ element_text e
unfolding format_element element_text
format_element-text e = elim (Bool-cases (leb (2 ^ 31) e)) [ inl h ↦ rw h | inr h ↦ rw h ]

format_elements-after : (es : List ℕ) → format_elements es ≡ after slash (map element_text es)
unfolding format_elements after
format_elements-after [] = refl
format_elements-after (e ∷ es) =
    ap (λ t. t ++ format_elements es) (format_element-text e)
    ∙ ap (λ t. slash ∷ (element_text e ++ t)) (format_elements-after es)

map-LacksSep : (es : List ℕ) → All (LacksSep slash) (map element_text es)
map-LacksSep [] = tt
map-LacksSep (e ∷ es) = (element_text-LacksSep e, map-LacksSep es)

-- The parts of a formatted path are `m` and the texts of its elements.
pub split_path-format_path :
    (es : List ℕ) → split_path (format_path es) ≡ codes "m" ∷ map element_text es
unfolding split_path format_path join
split_path-format_path es =
    ap (λ t. fields (is_sep slash) (codes "m" ++ t)) (format_elements-after es)
    ∙ fields-join slash (codes "m") (map element_text es) (omega arith) (map-LacksSep es)

-- The account prefix of a formatted path is the formatted path of its first three elements.
pub path_account_prefix-format_path :
    (a b c d : ℕ) (es : List ℕ)
    → path_account_prefix (format_path (a ∷ b ∷ c ∷ d ∷ es)) ≡ format_path (a ∷ b ∷ c ∷ [])
unfolding path_account_prefix format_path after
path_account_prefix-format_path a b c d es =
    ap
      (λ parts.
        if ltb (length parts) 5
        then []
        else get_or parts 0 []
          ++ slash
            ∷ (get_or parts 1 [] ++ slash ∷ (get_or parts 2 [] ++ slash ∷ get_or parts 3 [])))
      (split_path-format_path (a ∷ b ∷ c ∷ d ∷ es))
    ∙ rw (long (length (map element_text es)), if◌then◌else◌)
        (ap (λ t. codes "m" ++ t)
          (ap (λ t. slash ∷ (element_text a ++ slash ∷ (element_text b ++ slash ∷ t)))
              (sym (append-nil (element_text c)))
            ∙ sym (format_elements-after (a ∷ b ∷ c ∷ []))))
  where
    long : (n : ℕ) → ltb (suc (suc (suc (suc (suc n))))) 5 ≡ false
    long n = ground arith

get_or-last :
    (xs : List Bytes) (x y : Bytes)
    → get_or (xs ++ x ∷ y ∷ []) (length (xs ++ x ∷ y ∷ []) - 2) [] ≡ x
get_or-last xs x y = ap (λ n. get_or (xs ++ x ∷ y ∷ []) n []) two ∙ at xs
  where
    two : length (xs ++ x ∷ y ∷ []) - 2 ≡ length xs
    two = omega (arith, length-append xs (x ∷ y ∷ []))

    at : (zs : List Bytes) → get_or (zs ++ x ∷ y ∷ []) (length zs) [] ≡ x
    at [] = refl
    at (z ∷ zs) = at zs

map-append_two :
    (es : List ℕ) (x y : ℕ)
    → map element_text (es ++ x ∷ y ∷ [])
      ≡ map element_text es ++ element_text x ∷ element_text y ∷ []
map-append_two [] x y = refl
map-append_two (e ∷ es) x y = ap (λ t. element_text e ∷ t) (map-append_two es x y)

-- The chain element of a formatted path is the text of its last element but one.
pub path_chain_element-format_path :
    (es : List ℕ) (x y : ℕ) → path_chain_element (format_path (es ++ x ∷ y ∷ [])) ≡ element_text x
unfolding path_chain_element
path_chain_element-format_path es x y =
    ap
      (λ (parts : List Bytes).
        if ltb (length parts) 3 then [] else get_or parts (length parts - 2) [])
      (split_path-format_path (es ++ x ∷ y ∷ []) ∙ ap (λ t. codes "m" ∷ t) (map-append_two es x y))
    ∙ rw
        (long (
          omega
            (arith, length-append (map element_text es) (element_text x ∷ element_text y ∷ []))))
        (get_or-last (codes "m" ∷ map element_text es) (element_text x) (element_text y))
  where
    long :
        length (map element_text es ++ element_text x ∷ element_text y ∷ [])
          ≡ length (map element_text es) + 2
        → ltb (suc (length (map element_text es ++ element_text x ∷ element_text y ∷ []))) 3 ≡ false
    long e = ground arith
