-- ===== src/WalletExport/Render/Lines.antt =====
-- The rendered export, read line by line: what is not a comment is what a wallet imports.
use signeros.Base.{
  ℕ, ◌≡◌, inl, inr, refl, ap, ap₂, ◌∙◌, Bool, true, false, ◌&&◌, not, List, [], ◌∷◌, ◌++◌,
  append-nil, arith, Bytes, ◌==◌, if◌then◌else◌, codes, All, Bool-cases, ne→==,
}
use signeros.Base.Fields.{cut, fields, is_sep, cut-cons_sep, cut-cons_char}
use signeros.Psbt.Wally.{Network, mainnet, testnet, signet, regtest}
use signeros.Files.{is_empty}
use signeros.Text.{to_string}
use signeros.Text.Decimal.{IsDigit, digits-IsDigit}
use signeros.WalletExport.{AccountExport, CosignerKey, WalletExport, network_name}
use signeros.WalletExport.Render.{
  unlines, opening_lines, usage_lines, multisig_lines, heading_lines, account_lines, cosigner_lines,
  all_account_lines, all_cosigner_lines, multisig_block, export_lines, render_wallet_export,
}

-- No newline.
unfoldable pub one_line : Bytes → Bool
one_line [] = true
one_line (c ∷ t) = not (c == 10) && one_line t

unfoldable pub one_lines : List Bytes → Bool
one_lines [] = true
one_lines (t ∷ ts) = one_line t && one_lines ts

abbrev pub OneLine : Bytes → Type 0
OneLine t = one_line t ≡ true

and-left : (a b : Bool) → (a && b) ≡ true → a ≡ true
and-left true b h = refl
and-left false b h = cc

and-right : (a b : Bool) → (a && b) ≡ true → b ≡ true
and-right true b h = h
and-right false b h = cc

both : {a b : Bool} → a ≡ true → b ≡ true → (a && b) ≡ true
both {a} {b} p q = rw p q

OneLine-append : (a b : Bytes) → OneLine a → OneLine b → OneLine (a ++ b)
unfolding one_line
OneLine-append [] b ha hb = hb
OneLine-append (c ∷ a) b ha hb =
    rw (and-left (not (c == 10)) (one_line a) ha)
      (OneLine-append a b (and-right (not (c == 10)) (one_line a) ha) hb)

one_lines-append :
    (a b : List Bytes) → one_lines a ≡ true → one_lines b ≡ true → one_lines (a ++ b) ≡ true
unfolding one_lines
one_lines-append [] b ha hb = hb
one_lines-append (t ∷ a) b ha hb =
    rw (and-left (one_line t) (one_lines a) ha)
      (one_lines-append a b (and-right (one_line t) (one_lines a) ha) hb)

cut_line : (l t : Bytes) → OneLine l → cut (is_sep 10) (l ++ 10 ∷ t) ≡ (l, fields (is_sep 10) t)
unfolding one_line
cut_line [] t h = cut-cons_sep (is_sep 10) 10 t refl
cut_line (c ∷ l) t h =
    cut-cons_char (is_sep 10) c (l ++ 10 ∷ t) (ground (arith, h))
    ∙ ap (λ u. (c ∷ u.0, u.1)) (cut_line l t (and-right (not (c == 10)) (one_line l) h))

-- The lines of a text that was put together of lines.
fields-unlines :
    (ls : List Bytes) → one_lines ls ≡ true → fields (is_sep 10) (unlines ls) ≡ ls ++ [] ∷ []
unfolding unlines cut one_lines
fields-unlines [] h = refl
fields-unlines (l ∷ ls) h =
    ap (λ u. u.0 ∷ u.1) (cut_line l (unlines ls) (and-left (one_line l) (one_lines ls) h))
    ∙ ap (λ u. l ∷ u) (fields-unlines ls (and-right (one_line l) (one_lines ls) h))

-- A line that a wallet can import: not empty, and no comment.
abbrev pub is_import : Bytes → Bool
is_import [] = false
is_import (c ∷ t) = not (c == b'#')

unfoldable pub imports : List Bytes → List Bytes
imports [] = []
imports (l ∷ ls) = let rest = imports ls in if is_import l then l ∷ rest else rest

imports-append : (a b : List Bytes) → imports (a ++ b) ≡ imports a ++ imports b
unfolding imports
imports-append [] b = refl
imports-append (l ∷ a) b = elim (Bool-cases (is_import l)) [
  | inl p ↦ rw p (ap (λ u. l ∷ u) (imports-append a b))
  | inr p ↦ rw p (imports-append a b)
]

-- What the texts of an export are: one line each, and a descriptor or a key is no comment.
pub record PlainAccount (a : AccountExport) : Type 0 where
  pub standard : OneLine a.standard
  pub label : OneLine a.label
  pub address_hint : OneLine a.address_hint
  pub path : OneLine a.path
  pub xpub : OneLine a.xpub
  pub first_address : OneLine a.first_address
  pub descriptor : OneLine a.descriptor × (is_import a.descriptor ≡ true)
  pub receive : OneLine a.receive_descriptor × (is_import a.receive_descriptor ≡ true)
  pub change : OneLine a.change_descriptor × (is_import a.change_descriptor ≡ true)

pub record PlainCosigner (c : CosignerKey) : Type 0 where
  pub standard : OneLine c.standard
  pub label : OneLine c.label
  pub path : OneLine c.path
  pub xpub : OneLine c.xpub
  pub key_origin : OneLine c.key_origin × (is_import c.key_origin ≡ true)

pub record PlainExport (we : WalletExport) : Type 0 where
  pub fingerprint : OneLine we.fingerprint
  pub accounts : All PlainAccount we.accounts
  pub cosigners : All PlainCosigner we.cosigners

-- The lines to import, in the order of the file.
unfoldable pub account_imports : List AccountExport → List Bytes
account_imports [] = []
account_imports (a ∷ rest) =
    a.descriptor ∷ a.receive_descriptor ∷ a.change_descriptor ∷ account_imports rest

unfoldable pub cosigner_imports : List CosignerKey → List Bytes
cosigner_imports [] = []
cosigner_imports (c ∷ rest) = c.key_origin ∷ cosigner_imports rest

number-OneLine : (t : Bytes) → All IsDigit t → OneLine t
unfolding one_line
number-OneLine [] h = refl
number-OneLine (c ∷ t) (hc, h) = rw (number-OneLine t h, ne→== c 10 (omega (arith, hc))) refl

to_string-OneLine : (n : ℕ) → OneLine (to_string n)
unfolding to_string
to_string-OneLine n = number-OneLine _ (digits-IsDigit 20 n)

network_name-OneLine : (n : Network) → OneLine (network_name n)
unfolding network_name one_line
network_name-OneLine mainnet = refl
network_name-OneLine testnet = refl
network_name-OneLine signet = refl
network_name-OneLine regtest = refl

if-OneLine : (b : Bool) (x y : Bytes) → OneLine x → OneLine y → OneLine (if b then x else y)
if-OneLine true x y p q = p
if-OneLine false x y p q = q

heading_lines-one_lines :
    (we : WalletExport) (created_at : Bytes)
    → OneLine we.fingerprint
    → OneLine created_at
    → one_lines (heading_lines we created_at) ≡ true
unfolding heading_lines one_line one_lines
heading_lines-one_lines we created_at f c = both c (
    both f (
      both (network_name-OneLine we.network) (
        both (to_string-OneLine we.account)
          (both (if-OneLine we.passphrase_used yes (codes "no") refl refl) refl))))
  where
    yes : Bytes
    yes =
        codes
          "yes - this export belongs to the passphrase you entered. A different passphrase is a different wallet."

account_lines-one_lines : (a : AccountExport) → PlainAccount a → one_lines (account_lines a) ≡ true
unfolding account_lines one_line one_lines
account_lines-one_lines a p = both title (
    both p.path (
      both p.xpub (
        both
          (if-OneLine (is_empty a.first_address) (codes "(could not be derived)") a.first_address
            refl p.first_address)
          (both p.descriptor.0 (both p.receive.0 (both p.change.0 refl))))))
  where
    hint : OneLine (a.address_hint ++ codes ")")
    hint = OneLine-append a.address_hint (codes ")") p.address_hint refl

    label : OneLine (a.label ++ (codes "  (" ++ (a.address_hint ++ codes ")")))
    label = OneLine-append a.label (codes "  (" ++ (a.address_hint ++ codes ")")) p.label hint

    title : OneLine (
        a.standard
        ++ (codes "  -  " ++ (a.label ++ (codes "  (" ++ (a.address_hint ++ codes ")")))))
    title =
        OneLine-append a.standard
          (codes "  -  " ++ (a.label ++ (codes "  (" ++ (a.address_hint ++ codes ")")))) p.standard
          label

cosigner_lines-one_lines : (c : CosignerKey) → PlainCosigner c → one_lines (cosigner_lines c) ≡ true
unfolding cosigner_lines one_line one_lines
cosigner_lines-one_lines c p =
    both (OneLine-append c.standard (codes "  -  " ++ c.label) p.standard p.label)
      (both p.path (both p.xpub (both p.key_origin.0 refl)))

account_lines-imports :
    (a : AccountExport)
    → PlainAccount a
    → imports (account_lines a) ≡ a.descriptor ∷ a.receive_descriptor ∷ a.change_descriptor ∷ []
unfolding account_lines imports
account_lines-imports a p = rw (p.descriptor.1, p.receive.1, p.change.1) refl

cosigner_lines-imports :
    (c : CosignerKey) → PlainCosigner c → imports (cosigner_lines c) ≡ c.key_origin ∷ []
unfolding cosigner_lines imports
cosigner_lines-imports c p = rw (p.key_origin.1) refl

all_account_lines_lem :
    (as' : List AccountExport)
    → All PlainAccount as'
    → (one_lines (all_account_lines as') ≡ true)
      × (imports (all_account_lines as') ≡ account_imports as')
unfolding all_account_lines account_imports one_lines imports
all_account_lines_lem [] h = (refl, refl)
all_account_lines_lem (a ∷ rest) (p, h) =
    let (ones, same) = all_account_lines_lem rest h in
    (
      one_lines-append (account_lines a) (all_account_lines rest) (account_lines-one_lines a p)
          ones,
      imports-append (account_lines a) (all_account_lines rest)
          ∙ ap₂ (λ u v. u ++ v) (account_lines-imports a p) same,
    )

all_cosigner_lines_lem :
    (cs : List CosignerKey)
    → All PlainCosigner cs
    → (one_lines (all_cosigner_lines cs) ≡ true)
      × (imports (all_cosigner_lines cs) ≡ cosigner_imports cs)
unfolding all_cosigner_lines cosigner_imports one_lines imports
all_cosigner_lines_lem [] h = (refl, refl)
all_cosigner_lines_lem (c ∷ rest) (p, h) =
    let (ones, same) = all_cosigner_lines_lem rest h in
    (
      one_lines-append (cosigner_lines c) (all_cosigner_lines rest) (cosigner_lines-one_lines c p)
          ones,
      imports-append (cosigner_lines c) (all_cosigner_lines rest)
          ∙ ap₂ (λ u v. u ++ v) (cosigner_lines-imports c p) same,
    )

multisig_block_lem :
    (cs : List CosignerKey)
    → All PlainCosigner cs
    → (one_lines (multisig_block cs) ≡ true) × (imports (multisig_block cs) ≡ cosigner_imports cs)
unfolding multisig_block one_line one_lines imports cosigner_imports
multisig_block_lem [] h = (refl, refl)
multisig_block_lem (c ∷ rest) h =
    let (ones, same) = all_cosigner_lines_lem (c ∷ rest) h in
    (
      one_lines-append multisig_lines (all_cosigner_lines (c ∷ rest)) refl ones,
      imports-append multisig_lines (all_cosigner_lines (c ∷ rest)) ∙ same,
    )

heading_lines-imports :
    (we : WalletExport) (created_at : Bytes) → imports (heading_lines we created_at) ≡ []
unfolding heading_lines imports
heading_lines-imports we created_at = refl

-- Two blocks, each with its lines to import.
blocks :
    (a b : List Bytes) {u v : List Bytes}
    → (one_lines a ≡ true) × (imports a ≡ u)
    → (one_lines b ≡ true) × (imports b ≡ v)
    → (one_lines (a ++ b) ≡ true) × (imports (a ++ b) ≡ u ++ v)
blocks a b (oa, ia) (ob, ib) =
    (one_lines-append a b oa ob, imports-append a b ∙ ap₂ (λ x y. x ++ y) ia ib)

export_lines_lem :
    (we : WalletExport) (created_at : Bytes)
    → PlainExport we
    → OneLine created_at
    → (one_lines (export_lines we created_at) ≡ true)
      × (imports (export_lines we created_at)
          ≡ account_imports we.accounts ++ (cosigner_imports we.cosigners ++ []))
unfolding export_lines one_line one_lines imports
export_lines_lem we created_at p c =
    let last = codes "# end of export" ∷ [] in
    let keys = multisig_block we.cosigners ++ last in
    let accounts = all_account_lines we.accounts ++ keys in
    let usage = usage_lines ++ accounts in
    let heading = heading_lines we created_at ++ usage in
    blocks opening_lines heading {u = []} (refl, refl)
      (blocks (heading_lines we created_at) usage {u = []}
        (heading_lines-one_lines we created_at p.fingerprint c, heading_lines-imports we created_at)
        (blocks usage_lines accounts {u = []} (refl, refl)
          (blocks (all_account_lines we.accounts) keys
            (all_account_lines_lem we.accounts p.accounts)
            (blocks (multisig_block we.cosigners) last {v = []}
              (multisig_block_lem we.cosigners p.cosigners) (refl, refl)))))

no_imports : imports ([] ∷ []) ≡ []
unfolding imports
no_imports = refl

-- The file that is rendered, cut into its lines: those that are not empty and no comment are, in
-- this order, the three descriptors of every account and the key of every cosigner, and nothing
-- else. The texts of the export are one line each, and a descriptor or a key does not begin with the
-- mark of a comment.
pub render_wallet_export-imports :
    (we : WalletExport) (created_at : Bytes)
    → PlainExport we
    → OneLine created_at
    → imports (fields (is_sep 10) (render_wallet_export we created_at))
      ≡ account_imports we.accounts ++ cosigner_imports we.cosigners
unfolding render_wallet_export
render_wallet_export-imports we created_at p c =
    let (ones, same) = export_lines_lem we created_at p c in
    ap imports (fields-unlines (export_lines we created_at) ones)
    ∙ imports-append (export_lines we created_at) ([] ∷ [])
    ∙ (ap (λ u. imports (export_lines we created_at) ++ u) no_imports
        ∙ append-nil (imports (export_lines we created_at)))
    ∙ same
    ∙ ap (λ u. account_imports we.accounts ++ u) (append-nil (cosigner_imports we.cosigners))
