-- ===== src/Text/Amount.antt =====
-- `formatBtc` and `formatSat` read back: no digit of an amount is lost or moved.
use native.Mathlib.Nat.{pow-suc}
use signeros.Base.{
  ℕ, zero, suc, ◌+◌, ◌-◌, ◌*◌, ◌/◌, ◌%◌, ◌^◌, ◌<◌, ◌≡◌, inl, inr, refl, ap, ◌∙◌, Bool, true, false,
  ◌&&◌, not, List, sym, ◌≤◌, ==→eq, ltb, length-append, [], ◌∷◌, ◌++◌, arith, Bytes, ◌==◌,
  if◌then◌else◌, length, Bool-cases, All, All-append, ne→==,
}
use signeros.Text.{digits, to_string, padded, format_btc, grouped, format_sat}
use signeros.Text.Decimal.{value, value-append, IsDigit, value-to_string}

-- The characters of a text other than `c`.
abbrev pub without : ℕ → Bytes → Bytes
without c [] = []
without c (x ∷ t) = if x == c then without c t else x ∷ without c t

without-append : (c : ℕ) (a b : Bytes) → without c (a ++ b) ≡ without c a ++ without c b
without-append c [] b = refl
without-append c (x ∷ a) b = elim (Bool-cases (x == c)) [
  | inl h ↦ rw h (without-append c a b)
  | inr h ↦ rw h (ap (λ t. x ∷ t) (without-append c a b))
]

without_digits : (c : ℕ) (t : Bytes) → c < b'0' → All IsDigit t → without c t ≡ t
without_digits c [] h _ = refl
without_digits c (x ∷ t) h (hx, ht) =
    rw (ne→== x c (omega arith)) (ap (λ r. x ∷ r) (without_digits c t h ht))

padded-IsDigit : (w n : ℕ) → All IsDigit (padded w n)
unfolding padded
padded-IsDigit zero n = tt
padded-IsDigit (suc w) n =
    All-append IsDigit (padded w (n / 10)) ((b'0' + n % 10) ∷ []) (padded-IsDigit w (n / 10))
      (omega arith)

value-padded : (w n acc : ℕ) → n < 10 ^ w → value acc (padded w n) ≡ acc * 10 ^ w + n
unfolding padded
value-padded zero n acc h = omega arith
value-padded (suc w) n acc h =
    value-append (padded w (n / 10)) ((b'0' + n % 10) ∷ []) acc
    ∙ last (value-padded w (n / 10) acc (omega (arith, pow-suc 10 w)))
  where
    last :
        value acc (padded w (n / 10)) ≡ acc * 10 ^ w + n / 10
        → value acc (padded w (n / 10)) * 10 + (b'0' + n % 10 - b'0') ≡ acc * 10 ^ suc w + n
    last e = omega (arith, e, pow-suc 10 w, ap (λ t. acc * t) (pow-suc 10 w))

-- Without its point, the text of an amount in bitcoin spells the amount in satoshi.
pub value-format_btc : (n : ℕ) → n < 2 ^ 64 → value 0 (without b'.' (format_btc n)) ≡ n
unfolding format_btc
value-format_btc n h =
    ap (value 0) (
      without-append b'.' high (b'.' ∷ low) ∙ (λ i.
        without_digits b'.' high (omega arith) high_digits i
        ++ without_digits b'.' low (omega arith) (padded-IsDigit 8 (n % 100000000)) i))
    ∙ value-append high low 0
    ∙ ap (λ v. value v low) (value-to_string (n / 100000000) (omega arith)).0
    ∙ value-padded 8 (n % 100000000) (n / 100000000) (omega arith)
    ∙ sum
  where
    high : Bytes
    high = to_string (n / 100000000)

    low : Bytes
    low = padded 8 (n % 100000000)

    high_digits : All IsDigit high
    high_digits = (value-to_string (n / 100000000) (omega arith)).1

    sum : n / 100000000 * 10 ^ 8 + n % 100000000 ≡ n
    sum = omega arith

without-grouped : (first : Bool) (t : Bytes) → All IsDigit t → without b' ' (grouped first t) ≡ t
unfolding grouped
without-grouped first [] _ = refl
without-grouped first (d ∷ ds) (hd, hs) =
    elim (Bool-cases (not first && (suc (length ds) % 3 == 0))) [
      | inl p ↦ rw (p, ne→== d b' ' (omega arith)) (ap (λ t. d ∷ t) (without-grouped false ds hs))
      | inr p ↦ rw (p, ne→== d b' ' (omega arith)) (ap (λ t. d ∷ t) (without-grouped false ds hs))
    ]

-- Without its spaces, the text of an amount in satoshi is its decimal text.
pub without-format_sat :
    (n : ℕ)
    → n < 2 ^ 64
    → (without b' ' (format_sat n) ≡ to_string n) × (value 0 (without b' ' (format_sat n)) ≡ n)
unfolding format_sat
without-format_sat n h = (plain, ap (value 0) plain ∙ (value-to_string n h).0)
  where
    plain : without b' ' (grouped true (to_string n)) ≡ to_string n
    plain = without-grouped true (to_string n) (value-to_string n h).1

-- The groups, with a space in front of each.
unfoldable pub spaced : List Bytes → Bytes
spaced [] = []
spaced (g ∷ gs) = b' ' ∷ (g ++ spaced gs)

unfoldable pub joined : List Bytes → Bytes
joined [] = []
joined (g ∷ gs) = g ++ joined gs

-- `out` is the text `t` in groups of three characters counted from the right, with the first group,
-- of at most three characters, as it stands and a space before each of the others.
pub record InThrees (least most : ℕ) (t out : Bytes) : Type 0 where
  pub lead : Bytes
  pub groups : List Bytes
  pub lead_least : least ≤ length lead
  pub lead_most : length lead ≤ most
  pub of_three : All (λ g. length g ≡ 3) groups
  pub all_there : lead ++ joined groups ≡ t
  pub shown : out ≡ lead ++ spaced groups

length-joined : (gs : List Bytes) → All (λ g. length g ≡ 3) gs → length (joined gs) % 3 ≡ 0
unfolding joined
length-joined [] h = omega arith
length-joined (g ∷ gs) (hg, h) = omega (arith, length-append g (joined gs), hg, length-joined gs h)

-- The digits behind the first, from any place on.
grouped-rest : (t : Bytes) → InThrees 0 2 t (grouped false t)
unfolding grouped spaced joined
grouped-rest [] = record {
  lead = [];
  groups = [];
  lead_least = omega arith;
  lead_most = omega arith;
  of_three = tt;
  all_there = refl;
  shown = refl;
}
grouped-rest (d ∷ ds) =
    let r = grouped-rest ds in
    let left : length r.lead + length (joined r.groups) ≡ length ds =
      sym (length-append r.lead (joined r.groups)) ∙ ap length r.all_there in
    let threes = length-joined r.groups r.of_three in
    elim (Bool-cases (suc (length ds) % 3 == 0)) [
      | inl p ↦ rw p (record {
        lead = [];
        groups = (d ∷ r.lead) ∷ r.groups;
        lead_least = omega arith;
        lead_most = omega arith;
        of_three = (omega (arith, left, threes, r.lead_most, ==→eq _ _ p), r.of_three);
        all_there = ap (λ u. d ∷ u) r.all_there;
        shown = ap (λ u. b' ' ∷ d ∷ u) r.shown;
      })
      | inr p ↦ rw p (record {
        lead = d ∷ r.lead;
        groups = r.groups;
        lead_least = omega arith;
        lead_most = ground (arith, left, threes, r.lead_most, p);
        of_three = r.of_three;
        all_there = ap (λ u. d ∷ u) r.all_there;
        shown = ap (λ u. d ∷ u) r.shown;
      })
    ]

grouped-InThrees : (t : Bytes) → 0 < length t → InThrees 1 3 t (grouped true t)
unfolding grouped
grouped-InThrees [] h = absurd (omega arith)
grouped-InThrees (d ∷ ds) h =
    let r = grouped-rest ds in
    record {
      lead = d ∷ r.lead;
      groups = r.groups;
      lead_least = omega arith;
      lead_most = omega (arith, r.lead_most);
      of_three = r.of_three;
      all_there = ap (λ u. d ∷ u) r.all_there;
      shown = ap (λ u. d ∷ u) r.shown;
    }

digits-some : (fuel n : ℕ) → 0 < length (digits (suc fuel) n)
unfolding digits
digits-some fuel n = elim (Bool-cases (ltb n 10)) [
  | inl h ↦ rw h (omega arith)
  | inr h ↦ rw h (omega (arith, length-append (digits fuel (n / 10)) ((b'0' + n % 10) ∷ [])))
]

length-to_string : (n : ℕ) → 0 < length (to_string n)
unfolding to_string
length-to_string n = digits-some 19 n

-- The text of an amount in satoshi below 2 ^ 64: its decimal digits, which spell the amount, with one
-- space between the groups of three counted from the right, and none in front.
pub format_sat-InThrees :
    (n : ℕ) → n < 2 ^ 64 → InThrees 1 3 (to_string n) (format_sat n) × (value 0 (to_string n) ≡ n)
unfolding format_sat
format_sat-InThrees n h =
    (grouped-InThrees (to_string n) (length-to_string n), (value-to_string n h).0)
