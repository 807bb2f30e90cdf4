-- ===== src/Secure/Grid/Text.antt =====
-- A text that is fields joined by a space each, cut at one of them.
use signeros.Base.{
  ℕ, ◌<◌, ◌≡◌, refl, sym, ap, ◌∙◌, Bool, List, [], ◌∷◌, ◌++◌, append_assoc, arith, Bytes, length,
  All, subst,
}
use signeros.Base.Fields.{fields, after, join, is_sep, LacksSep, join-fields, fields-LacksSep}
use signeros.Secure.{SecureString, space}
use signeros.Secure.Repr.{Holds}

-- Fields with a space behind each.
unfoldable pub before : List Bytes → Bytes
before [] = []
before (f ∷ fs) = f ++ space ∷ before fs

abbrev pub is_space : ℕ → Bool
is_space = is_sep space

abbrev pub Lacks : Bytes → Type 0
Lacks = LacksSep space

-- The fields `l`, then `f`, then `r`.
pub join_split :
    (l : List Bytes) (f : Bytes) (r : List Bytes)
    → join space (l ++ f ∷ r) ≡ before l ++ (f ++ after space r)
unfolding join after before
join_split [] f r = refl
join_split (g ∷ []) f r = sym (append_assoc g (space ∷ []) (f ++ after space r))
join_split (g ∷ g' ∷ l) f r =
    ap (λ xs. g ++ space ∷ xs) (join_split (g' ∷ l) f r)
    ∙ sym (append_assoc g (space ∷ before (g' ∷ l)) (f ++ after space r))

-- `s` shows the fields `fs`: none holds a space, there is one at least, and the text is the fields
-- with one space between two of them.
pub record Shows (s : SecureString) (fs : List Bytes) : Type 0 where
  pub held : Holds s (join space fs)
  pub clean : All Lacks fs
  pub nonempty : 0 < length fs

-- Every text shows the fields that its spaces cut it into.
pub Shows-fields : {s : SecureString} (t : Bytes) → Holds s t → Shows s (fields is_space t)
Shows-fields {s} t h = record {
  held = subst (Holds s) (sym (join-fields space t)) h;
  clean = fields-LacksSep space t;
  nonempty = omega arith;
}
