-- ===== src/WalletExport/Tests.antt =====
-- The theorems on the wallet export, with a libwally that derives a key by writing its path behind it.
use signeros.Base.{
  ◌^◌, ◌≡◌, refl, true, false, none, some, [], ◌∷◌, ◌++◌, Bytes, arith, codes, length, subst, ◌<◌,
}
use signeros.Base.Fields.{fields, is_sep}
use signeros.Psbt.Wally.{testnet}
use signeros.Secure.{SecureString}
use signeros.Secure.Repr.{filled}
use signeros.WalletExport.{ExportWally, WalletExport, entropy_bytes_for_words, is_valid_word_count}
use signeros.WalletExport.Accounts.{Outcome, build_wallet_export-Outcome}
use signeros.WalletExport.Build.{build_wallet_export}
use signeros.WalletExport.Mnemonic.{
  Filled, NoNul, mnemonic_from_entropy, mnemonic_from_entropy-Filled,
}
use signeros.WalletExport.Render.{render_wallet_export}
use signeros.WalletExport.Render.Lines.{
  PlainExport, imports, account_imports, cosigner_imports, one_line, render_wallet_export-imports,
}

abbrev demo : ExportWally
demo = record {
  Key = Bytes;
  wordlist = true;
  mnemonic_from_bytes = λ b. some (codes "zoo");
  mnemonic_validate = λ m. true;
  mnemonic_to_seed = λ m p. some m;
  key_from_seed = λ main seed. some seed;
  fingerprint = λ k. some (1 ∷ 2 ∷ 3 ∷ 4 ∷ []);
  derive_private = λ k path. some (k ++ path);
  derive_public = λ k path. some (k ++ path);
  strip_private = λ k. some k;
  set_version = λ main k. k;
  to_base58_public = λ k. some (codes "tpub");
  to_p2pkh = λ main k. some (codes "m");
  to_p2sh_p2wpkh = λ main k. some (codes "2");
  to_segwit = λ hrp k. some hrp;
  p2tr_script = λ k. some k;
  segwit_from_script = λ s hrp. some hrp;
  parses = λ c t. true;
  checksum = λ c t. some (codes "sum");
}

-- Twelve words take 16 bytes of entropy; thirteen are none that BIP39 knows.
word_counts : (entropy_bytes_for_words 12 ≡ 16) × (is_valid_word_count 13 ≡ false)
unfolding entropy_bytes_for_words is_valid_word_count
word_counts = (refl, refl)

first_account : 0 < 2 ^ 31
first_account = omega arith

build_wallet_export-Outcome_example :
    Outcome demo
      (codes "zoo")
      []
      testnet
      0
      none
      first_account
      (build_wallet_export demo (codes "zoo") [] testnet 0 none)
build_wallet_export-Outcome_example =
    build_wallet_export-Outcome demo (codes "zoo") [] testnet 0 none first_account

abbrev used_buffer : SecureString
used_buffer = filled (codes "old") 316

zoo_fits :
    (text : Bytes) → some (codes "zoo") ≡ some text → NoNul demo text × (length text < 2 ^ 63)
zoo_fits text made =
    subst (λ t. NoNul demo t × (length t < 2 ^ 63)) same
      (
        ((λ e. omega (arith, e)), ((λ e. omega (arith, e)), ((λ e. omega (arith, e)), tt))),
        omega arith,
      )
  where
    same : codes "zoo" ≡ text
    same = cc

mnemonic_from_entropy-Filled_example :
    Filled demo (some (codes "zoo")) (mnemonic_from_entropy demo (1 ∷ []) used_buffer)
mnemonic_from_entropy-Filled_example =
    mnemonic_from_entropy-Filled demo (1 ∷ []) (codes "old") used_buffer (316, refl, refl) zoo_fits

-- One account and one cosigner.
abbrev demo_export : WalletExport
demo_export = record {
  fingerprint = codes "01020304";
  network = testnet;
  account = 0;
  passphrase_used = false;
  accounts =
      record {
        standard = codes "BIP84";
        label = codes "Native SegWit (P2WPKH)";
        address_hint = codes "addresses start tb1q";
        path = codes "m/84'/1'/0'";
        path_hardened = codes "84h/1h/0h";
        xpub = codes "tpub";
        descriptor = codes "wpkh(a)";
        receive_descriptor = codes "wpkh(b)";
        change_descriptor = codes "wpkh(c)";
        first_address = codes "tb1q";
      }
      ∷ [];
  cosigners =
      record {
        standard = codes "BIP48/2h";
        label = codes "Native SegWit multisig (P2WSH)";
        path = codes "m/48'/1'/0'/2'";
        path_hardened = codes "48h/1h/0h/2h";
        xpub = codes "tpub";
        key_origin = codes "[01020304/48h/1h/0h/2h]tpub";
      }
      ∷ [];
}

demo_export-PlainExport : PlainExport demo_export
unfolding one_line
demo_export-PlainExport = record {
  fingerprint = refl;
  accounts = (
    record {
      standard = refl;
      label = refl;
      address_hint = refl;
      path = refl;
      xpub = refl;
      first_address = refl;
      descriptor = (refl, refl);
      receive = (refl, refl);
      change = (refl, refl);
    },
    tt,
  );
  cosigners = (
    record { standard = refl; label = refl; path = refl; xpub = refl; key_origin = (refl, refl) },
    tt,
  );
}

today_one_line : one_line (codes "20260101-000000") ≡ true
unfolding one_line
today_one_line = refl

render_wallet_export-imports_example :
    imports (fields (is_sep 10) (render_wallet_export demo_export (codes "20260101-000000")))
    ≡ account_imports demo_export.accounts ++ cosigner_imports demo_export.cosigners
render_wallet_export-imports_example =
    render_wallet_export-imports demo_export (codes "20260101-000000") demo_export-PlainExport
      today_one_line
