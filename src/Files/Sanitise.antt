-- ===== src/Files/Sanitise.antt =====
-- `sanitiseFileName`: what it answers is one safe path component, and a good name is kept.
use signeros.Base.{
  ℕ, zero, suc, ◌-◌, ◌≤◌, ◌<◌, ◌≡◌, ◌≢◌, ◌⊎◌, inl, inr, refl, sym, ap, ◌∙◌, subst, Bool, true,
  false, ◌&&◌, [], ◌∷◌, ◌++◌, append_assoc, append-nil, arith, Bytes, ◌==◌, if◌then◌else◌, length,
  take, drop, take-drop, Bool-cases, All, All-append,
}
use signeros.Base.Equal.{bytes_eq, bytes_eq→eq}
use signeros.Psbt.Engine.{base_name_onto}
use signeros.Files.{
  is_forbidden, is_empty, is_skipped, keep_chars, trim_back, trim_front, has_suffix, add_suffix,
  sanitise_file_name,
}

-- Printable, and neither a separator nor a wildcard nor a quote.
pub record SafeChar (c : ℕ) : Type 0 where
  pub printable : (0x20 ≤ c) × (c ≤ 0x7e)
  pub allowed : is_forbidden c ≡ false
  pub no_slash : c ≢ b'/'

abbrev pub NoSlash : ℕ → Type 0
NoSlash c = c ≢ b'/'

-- The first character is not `x`.
abbrev pub NotFirst : ℕ → Bytes → Type 0
NotFirst x [] = Unit
NotFirst x (c ∷ cs) = c ≢ x

-- The last character is neither a space nor a dot.
abbrev pub EndsWell : Bytes → Type 0
EndsWell [] = Unit
EndsWell (c ∷ []) = (c ≢ b' ') × (c ≢ b'.')
EndsWell (c ∷ c' ∷ cs) = EndsWell (c' ∷ cs)

-- One path component that ends in the suffix, with something in front of it.
pub record SafeName (suffix name : Bytes) : Type 0 where
  pub chars : All SafeChar name
  pub no_space : NotFirst b' ' name
  pub stem : Bytes
  pub stem_some : 0 < length stem
  pub suffixed : name ≡ stem ++ suffix

if-All :
    (b : Bool) (x y : Bytes)
    → (b ≡ true → All SafeChar x)
    → (b ≡ false → All SafeChar y)
    → All SafeChar (if b then x else y)
if-All true x y p q = p refl
if-All false x y p q = q refl

base_name_onto-NoSlash : (t seen : Bytes) → All NoSlash seen → All NoSlash (base_name_onto t seen)
unfolding base_name_onto
base_name_onto-NoSlash [] seen h = h
base_name_onto-NoSlash (c ∷ t) seen h = elim (Bool-cases (c == b'/')) [
  | inl p ↦ rw p (base_name_onto-NoSlash t [] tt)
  | inr p ↦ rw p (
      base_name_onto-NoSlash t (seen ++ c ∷ [])
        (All-append NoSlash seen (c ∷ []) h (ground (arith, p), tt)))
]

not_skipped : (out : Bytes) (c : ℕ) → is_skipped out c ≡ false → NoSlash c → SafeChar c
unfolding is_skipped
not_skipped out c h n = record {
  printable = (ground (arith, h), ground (arith, h));
  allowed = ground (arith, h);
  no_slash = n;
}

keep_chars-SafeChar :
    (out t : Bytes) → All SafeChar out → All NoSlash t → All SafeChar (keep_chars out t)
unfolding keep_chars
keep_chars-SafeChar out [] h n = h
keep_chars-SafeChar out (c ∷ t) h (nc, n) =
    keep_chars-SafeChar (if is_skipped out c then out else out ++ c ∷ []) t
      (if-All (is_skipped out c) out (out ++ c ∷ []) (λ e. h)
        (λ e. All-append SafeChar out (c ∷ []) h (not_skipped out c e nc, tt)))
      n

trim_back-All : (t : Bytes) → All SafeChar t → All SafeChar (trim_back t)
unfolding trim_back
trim_back-All [] h = tt
trim_back-All (c ∷ t) (hc, h) =
    if-All (is_empty (trim_back t) && _) [] (c ∷ trim_back t) (λ e. tt)
      (λ e. (hc, trim_back-All t h))

trim_front-All : (t : Bytes) → All SafeChar t → All SafeChar (trim_front t)
unfolding trim_front
trim_front-All [] h = tt
trim_front-All (c ∷ t) (hc, h) =
    if-All (c == b' ') (trim_front t) (c ∷ t) (λ e. trim_front-All t h) (λ e. (hc, h))

trim_front-NotFirst : (t : Bytes) → NotFirst b' ' (trim_front t)
unfolding trim_front
trim_front-NotFirst [] = tt
trim_front-NotFirst (c ∷ t) = elim (Bool-cases (c == b' ')) [
  | inl p ↦ rw p (trim_front-NotFirst t)
  | inr p ↦ rw p (ground (arith, p))
]

length-take : (n : ℕ) (t : Bytes) → n ≤ length t → length (take n t) ≡ n
length-take zero t h = refl
length-take (suc n) [] h = absurd (omega arith)
length-take (suc n) (c ∷ t) h = ap suc (length-take n t (omega arith))

-- A name that has the suffix is a stem and the suffix.
has_suffix_sound :
    (out suffix : Bytes)
    → has_suffix out suffix ≡ true
    → (stem : Bytes) × (0 < length stem) × (out ≡ stem ++ suffix)
unfolding has_suffix
has_suffix_sound out suffix h =
    let room : length suffix < length out = ground (arith, h) in
    let same : bytes_eq (drop (length out - length suffix) out) suffix ≡ true = ground (arith, h) in
    (
      take (length out - length suffix) out,
      omega (arith, length-take (length out - length suffix) out (omega arith)),
      sym (take-drop (length out - length suffix) out)
          ∙ ap (λ u. take (length out - length suffix) out ++ u)
              (bytes_eq→eq (drop (length out - length suffix) out) suffix same),
    )

add_suffix-SafeName :
    (t suffix : Bytes)
    → All SafeChar t
    → NotFirst b' ' t
    → All SafeChar suffix
    → (add_suffix t suffix ≡ []) ⊎ SafeName suffix (add_suffix t suffix)
unfolding add_suffix
add_suffix-SafeName [] suffix h n hs = inl refl
add_suffix-SafeName (c ∷ t) [] h n hs = inr (record {
  chars = h;
  no_space = n;
  stem = c ∷ t;
  stem_some = omega arith;
  suffixed = sym (append-nil (c ∷ t));
})
add_suffix-SafeName (c ∷ t) (x ∷ suffix) h n hs =
    elim (Bool-cases (has_suffix (c ∷ t) (x ∷ suffix))) [
      | inl p ↦ rw p (inr (already p))
      | inr p ↦ rw p (
          inr (record {
            chars = All-append SafeChar (c ∷ t) (x ∷ suffix) h hs;
            no_space = n;
            stem = c ∷ t;
            stem_some = omega arith;
            suffixed = refl;
          }))
    ]
  where
    already : has_suffix (c ∷ t) (x ∷ suffix) ≡ true → SafeName (x ∷ suffix) (c ∷ t)
    already p =
        let (stem, some_stem, e) = has_suffix_sound (c ∷ t) (x ∷ suffix) p in
        record { chars = h; no_space = n; stem = stem; stem_some = some_stem; suffixed = e }

-- Whatever name is typed, what comes of it is empty, or one path component of printable characters,
-- without a slash, a wildcard or a quote, that does not begin with a space and ends in the suffix
-- with something in front of it, where the suffix is made of such characters.
pub sanitise_file_name-SafeName :
    (name suffix : Bytes)
    → All SafeChar suffix
    → (sanitise_file_name name suffix ≡ []) ⊎ SafeName suffix (sanitise_file_name name suffix)
unfolding sanitise_file_name
sanitise_file_name-SafeName name suffix hs =
    let base = base_name_onto name [] in
    let kept = trim_back (keep_chars [] base) in
    add_suffix-SafeName (trim_front kept) suffix
      (trim_front-All kept (
        trim_back-All (keep_chars [] base)
          (keep_chars-SafeChar [] base tt (base_name_onto-NoSlash name [] tt))))
      (trim_front-NotFirst kept) hs

base_name_onto_plain : (t seen : Bytes) → All SafeChar t → base_name_onto t seen ≡ seen ++ t
unfolding base_name_onto
base_name_onto_plain [] seen h = sym (append-nil seen)
base_name_onto_plain (c ∷ t) seen (hc, h) =
    let plain : (c == b'/') ≡ false = ground (arith, hc.no_slash) in
    rw plain (base_name_onto_plain t (seen ++ c ∷ []) h ∙ append_assoc seen (c ∷ []) t)

kept_char :
    (out : Bytes) (c : ℕ) → SafeChar c → NotFirst b'.' (out ++ c ∷ []) → is_skipped out c ≡ false
unfolding is_skipped
kept_char [] c h n = let (lo, hi) = h.printable in ground (arith, lo, hi, h.allowed, n)
kept_char (x ∷ out) c h n = let (lo, hi) = h.printable in ground (arith, lo, hi, h.allowed)

NotFirst-prefix :
    (x : ℕ) (out t : Bytes) (c : ℕ) → NotFirst x (out ++ c ∷ t) → NotFirst x (out ++ c ∷ [])
NotFirst-prefix x [] t c n = n
NotFirst-prefix x (y ∷ out) t c n = n

keep_chars_plain :
    (out t : Bytes) → All SafeChar t → NotFirst b'.' (out ++ t) → keep_chars out t ≡ out ++ t
unfolding keep_chars
keep_chars_plain out [] h n = sym (append-nil out)
keep_chars_plain out (c ∷ t) (hc, h) n = rw (kept_char out c hc (NotFirst-prefix b'.' out t c n)) (
    keep_chars_plain (out ++ c ∷ []) t h
      (subst (NotFirst b'.') (sym (append_assoc out (c ∷ []) t)) n)
    ∙ append_assoc out (c ∷ []) t)

trim_back_plain : (t : Bytes) → EndsWell t → trim_back t ≡ t
unfolding trim_back
trim_back_plain [] h = refl
trim_back_plain (c ∷ []) (h, h') = ground (arith, h, h')
trim_back_plain (c ∷ c' ∷ t) h = rw (trim_back_plain (c' ∷ t) h) refl

trim_front_plain : (t : Bytes) → NotFirst b' ' t → trim_front t ≡ t
unfolding trim_front
trim_front_plain [] h = refl
trim_front_plain (c ∷ t) h = let p : (c == b' ') ≡ false = ground (arith, h) in rw p refl

-- A name of safe characters that begins with neither a space nor a dot and ends in neither is kept
-- as it was typed: only the suffix is added to it, and only where it is missing.
pub sanitise_file_name_keeps :
    (name suffix : Bytes)
    → All SafeChar name
    → NotFirst b' ' name
    → NotFirst b'.' name
    → EndsWell name
    → sanitise_file_name name suffix ≡ add_suffix name suffix
unfolding sanitise_file_name
sanitise_file_name_keeps name suffix h n d e =
    rw
      (
        base_name_onto_plain name [] h,
        keep_chars_plain [] name h d,
        trim_back_plain name e,
        trim_front_plain name n,
      )
      refl
