-- ===== src/Text.antt =====
-- The text helpers of src/btc_signer_gui/src/core/psbt_engine.cpp: derivation paths and amounts.
pub mod Decimal
pub mod Path
pub mod Amount
mod Tests
use signeros.Base.{
  ℕ, zero, suc, ◌+◌, ◌-◌, ◌*◌, ◌/◌, ◌%◌, ◌^◌, Bool, true, false, ◌&&◌, not, List, [], ◌∷◌, ◌++◌,
  Bytes, ltb, leb, ◌==◌, if◌then◌else◌, length, get_or, codes,
}
use signeros.Base.Fields.{fields}

abbrev pub slash : ℕ
slash = b'/'

-- The decimal digits of a number below `10 ^ fuel`.
unfoldable pub digits : ℕ → ℕ → Bytes
digits zero n = []
digits (suc fuel) n =
    let high = digits fuel (n / 10) in
    if ltb n 10 then (b'0' + n) ∷ [] else high ++ (b'0' + n % 10) ∷ []

-- `std::to_string` and `%u`: a 64-bit number has 20 digits at most.
unfoldable pub to_string : ℕ → Bytes
unfolding digits
to_string n = digits 20 n

-- One element of a path: the hardened bit is written as a quote.
unfoldable pub format_element : ℕ → Bytes
format_element e =
    if leb (2 ^ 31) e then slash ∷ (to_string (e % 2 ^ 31) ++ b'\'' ∷ []) else slash ∷ to_string e

unfoldable pub format_elements : List ℕ → Bytes
unfolding format_element
format_elements [] = []
format_elements (e ∷ es) = format_element e ++ format_elements es

-- `formatPath`
unfoldable pub format_path : List ℕ → Bytes
unfolding format_elements
format_path es = codes "m" ++ format_elements es

abbrev pub is_slash : ℕ → Bool
is_slash c = c == slash

-- `splitPath`: the parts between the slashes, the last one without a slash behind it.
unfoldable pub split_path : Bytes → List Bytes
split_path path = fields is_slash path

-- `pathAccountPrefix`
unfoldable pub path_account_prefix : Bytes → Bytes
unfolding split_path
path_account_prefix path =
    let parts = split_path path in
    if ltb (length parts) 5
    then []
    else get_or parts 0 []
      ++ slash ∷ (get_or parts 1 [] ++ slash ∷ (get_or parts 2 [] ++ slash ∷ get_or parts 3 []))

-- `pathChainElement`
unfoldable pub path_chain_element : Bytes → Bytes
unfolding split_path
path_chain_element path =
    let parts = split_path path in
    if ltb (length parts) 3 then [] else get_or parts (length parts - 2) []

-- `%0<width>d`: at least `width` digits of `n`.
unfoldable pub padded : ℕ → ℕ → Bytes
padded zero n = []
padded (suc width) n = padded width (n / 10) ++ (b'0' + n % 10) ∷ []

-- `formatBtc`; the part behind the point is below `10 ^ 8`.
unfoldable pub format_btc : ℕ → Bytes
unfolding padded
format_btc satoshi = to_string (satoshi / 100000000) ++ b'.' ∷ padded 8 (satoshi % 100000000)

-- The loop of `formatSat` over the digits, `left` of them left, `first` before the first one.
unfoldable pub grouped : Bool → Bytes → Bytes
grouped first [] = []
grouped first (d ∷ ds) =
    if not first && (suc (length ds) % 3 == 0)
    then b' ' ∷ d ∷ grouped false ds
    else d ∷ grouped false ds

-- `formatSat`
unfoldable pub format_sat : ℕ → Bytes
unfolding grouped
format_sat satoshi = grouped true (to_string satoshi)
