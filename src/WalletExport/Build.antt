-- ===== src/WalletExport/Build.antt =====
-- `buildWalletExport` of src/btc_signer_gui/src/core/wallet_export.cpp and its helpers.
use signeros.Base.{
  ℕ, ◌+◌, ◌/◌, ◌%◌, ltb, not, Option, none, some, List, [], ◌∷◌, ◌++◌, Bytes, ◌==◌, if◌then◌else◌,
  length, codes,
}
use signeros.Psbt.Wally.{Network}
use signeros.WalletExport.{
  ExportWally, Standard, MultisigStandard, AccountExport, CosignerKey, WalletExport, ExportError,
  empty_export, standards, cosigner_standards, coin_type, address_network, bech32_hrp, is_mainnet,
  marked, hardened, invalid_mnemonic, no_seed, no_master, no_fingerprint, no_accounts,
}

abbrev pub or_empty : Option Bytes → Bytes
or_empty none = []
or_empty (some t) = t

abbrev pub quoted : List ℕ → Bytes
quoted ns = codes "m/" ++ marked b'\'' ns

abbrev pub spelled : List ℕ → Bytes
spelled ns = marked b'h' ns

-- `hexOf` of wallet_export.cpp
abbrev pub hex_digit : ℕ → ℕ
hex_digit n = if ltb n 10 then b'0' + n else 87 + n

unfoldable pub hex_bytes : Bytes → Bytes
hex_bytes [] = []
hex_bytes (b ∷ bs) = hex_digit (b / 16 % 16) ∷ hex_digit (b % 16) ∷ hex_bytes bs

module _ (x : ExportWally) where
  -- The switch of `firstAddressOf`.
  unfoldable pub address_of : ℕ → Network → x.Key → Option Bytes
  address_of purpose network child =
      if purpose == 44
      then x.to_p2pkh (is_mainnet network) child
      else if purpose == 49
      then x.to_p2sh_p2wpkh (is_mainnet network) child
      else if purpose == 84
      then x.to_segwit (bech32_hrp network) child
      else if purpose == 86
      then elim (x.p2tr_script child) [
        | none ↦ none
        | some script ↦ x.segwit_from_script script (bech32_hrp network)
      ]
      else none

  -- `firstAddressOf`
  unfoldable pub first_address_of : x.Key → ℕ → Network → Bytes
  first_address_of account_pub purpose network = elim (x.derive_public account_pub (0 ∷ 0 ∷ [])) [
    | none ↦ []
    | some child ↦ or_empty (address_of purpose network child)
  ]

  unfoldable pub publish : Network → x.Key → Option (x.Key × Bytes)
  publish network stripped =
      let public = x.set_version (is_mainnet network) stripped in
      elim (x.to_base58_public public) [ none ↦ none | some b58 ↦ some (public, b58) ]

  unfoldable pub strip : Network → x.Key → Option (x.Key × Bytes)
  strip network private = elim (x.strip_private private) [
    | none ↦ none
    | some stripped ↦ publish network stripped
  ]

  -- `deriveAccountPub`: the public half and its base58 text.
  unfoldable pub derive_account_pub : x.Key → List ℕ → Network → Option (x.Key × Bytes)
  derive_account_pub master path network = elim (x.derive_private master path) [
    | none ↦ none
    | some private ↦ strip network private
  ]

  -- `withChecksum`
  unfoldable pub with_checksum : Bytes → Network → Bytes
  with_checksum descriptor network =
      if x.parses (address_network network) descriptor
      then elim (x.checksum (address_network network) descriptor) [
        | none ↦ descriptor
        | some sum ↦ descriptor ++ b'#' ∷ sum
      ]
      else descriptor

  -- One turn of the loop over `kStandards`, with the account key derived.
  abbrev pub account_numbers : Network → ℕ → Standard → List ℕ
  account_numbers network account std = std.purpose ∷ coin_type network ∷ account ∷ []

  abbrev pub key_origin_of : Bytes → List ℕ → Bytes → Bytes
  key_origin_of fp numbers xpub = b'[' ∷ fp ++ (b'/' ∷ spelled numbers) ++ b']' ∷ xpub

  unfoldable pub account_export : Bytes → Network → ℕ → Standard → x.Key × Bytes → AccountExport
  account_export fp network account std (key, xpub) =
      let numbers = account_numbers network account std in
      let origin = key_origin_of fp numbers xpub in
      record {
        standard = std.name;
        label = std.label;
        address_hint = if is_mainnet network then std.hint_mainnet else std.hint_testnet;
        path = quoted numbers;
        path_hardened = spelled numbers;
        xpub = xpub;
        descriptor =
            with_checksum
              (std.descriptor_open ++ origin ++ codes "/<0;1>/*" ++ std.descriptor_close) network;
        receive_descriptor =
            with_checksum (std.descriptor_open ++ origin ++ codes "/0/*" ++ std.descriptor_close)
              network;
        change_descriptor =
            with_checksum (std.descriptor_open ++ origin ++ codes "/1/*" ++ std.descriptor_close)
              network;
        first_address = first_address_of key std.purpose network;
      }

  -- The loop over `kStandards`: `none` where an account cannot be derived.
  unfoldable pub derive_accounts :
      x.Key → Bytes → Network → ℕ → List Standard → Option (List AccountExport)
  derive_accounts master fp network account [] = some []
  derive_accounts master fp network account (std ∷ stds) =
      let rest = derive_accounts master fp network account stds in
      elim (derive_account_pub master (hardened (account_numbers network account std)) network) [
        | none ↦ none
        | some derived ↦ elim rest [
          | none ↦ none
          | some exports ↦ some (account_export fp network account std derived ∷ exports)
        ]
      ]

  abbrev pub cosigner_numbers : Network → ℕ → MultisigStandard → List ℕ
  cosigner_numbers network account ms = 48 ∷ coin_type network ∷ account ∷ ms.script_type ∷ []

  unfoldable pub cosigner_key : Bytes → Network → ℕ → MultisigStandard → Bytes → CosignerKey
  cosigner_key fp network account ms xpub =
      let numbers = cosigner_numbers network account ms in
      record {
        standard = ms.name;
        label = ms.label;
        path = quoted numbers;
        path_hardened = spelled numbers;
        xpub = xpub;
        key_origin = key_origin_of fp numbers xpub;
      }

  -- The loop over `kCosignerStandards`.
  unfoldable pub derive_cosigners :
      x.Key → Bytes → Network → ℕ → List MultisigStandard → Option (List CosignerKey)
  derive_cosigners master fp network account [] = some []
  derive_cosigners master fp network account (ms ∷ mss) =
      let rest = derive_cosigners master fp network account mss in
      elim (derive_account_pub master (hardened (cosigner_numbers network account ms)) network) [
        | none ↦ none
        | some (key, xpub) ↦ elim rest [
          | none ↦ none
          | some keys ↦ some (cosigner_key fp network account ms xpub ∷ keys)
        ]
      ]

  -- What is left behind: the master key slot of the process, the export, and the error.
  pub record Built : Type 0 where
    pub slot : Option x.Key
    pub export : WalletExport
    pub error : Option ExportError

  -- Every way out past the seed: the slot is cleared, and a failure leaves an empty export.
  abbrev pub failed_with : ExportError → Built
  failed_with e = record { slot = none; export = empty_export; error = some e }

  unfoldable pub with_keys :
      WalletExport → Option (List AccountExport) → Option (List CosignerKey) → Built
  with_keys out none keys = failed_with no_accounts
  with_keys out (some accounts) none = failed_with no_accounts
  with_keys out (some []) (some keys) = failed_with no_accounts
  with_keys out (some (a ∷ rest)) (some []) = failed_with no_accounts
  with_keys out (some (a ∷ rest)) (some (c ∷ cs)) = record {
    slot = none;
    export = record out { accounts = a ∷ rest; cosigners = c ∷ cs };
    error = none;
  }

  unfoldable pub with_fingerprint : WalletExport → x.Key → Option Bytes → Built
  with_fingerprint out master none = failed_with no_fingerprint
  with_fingerprint out master (some raw) =
      let fp = hex_bytes raw in
      with_keys (record out { fingerprint = fp })
        (derive_accounts master fp out.network out.account standards)
        (derive_cosigners master fp out.network out.account cosigner_standards)

  unfoldable pub with_master : WalletExport → Option x.Key → Built
  with_master out none = failed_with no_master
  with_master out (some master) = with_fingerprint out master (x.fingerprint master)

  unfoldable pub with_seed : WalletExport → Option Bytes → Built
  with_seed out none = failed_with no_seed
  with_seed out (some seed) = with_master out (x.key_from_seed (is_mainnet out.network) seed)

  -- `buildWalletExport`: an empty passphrase is a null pointer for libwally. A mnemonic that is
  -- refused leaves the slot as it was.
  unfoldable pub build_wallet_export : Bytes → Bytes → Network → ℕ → Option x.Key → Built
  build_wallet_export mnemonic passphrase network account slot =
      let out : WalletExport = record empty_export {
        network = network;
        account = account;
        passphrase_used = not (length passphrase == 0);
      } in
      if x.mnemonic_validate mnemonic
      then with_seed out
          (x.mnemonic_to_seed mnemonic (if length passphrase == 0 then none else some passphrase))
      else record { slot = slot; export = out; error = some invalid_mnemonic }
