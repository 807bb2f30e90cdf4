-- ===== src/WalletExport.antt =====
-- src/btc_signer_gui/src/core/wallet_export.cpp: the mnemonic of a new wallet, and the watch-only
-- export of its accounts. libwally's calls are a parameter, `ExportWally`; the master key slot of the
-- process is passed along.
pub mod Mnemonic
pub mod Build
pub mod Accounts
pub mod Render
mod Tests
use signeros.Base.{
  ℕ, zero, suc, ◌+◌, ◌*◌, ◌^◌, Bool, true, false, ◌&&◌, ◌||◌, not, Option, none, some, List, [],
  ◌∷◌, ◌++◌, Bytes, ltb, leb, ◌==◌, if◌then◌else◌, length, codes,
}
use signeros.Psbt.Wally.{Network, mainnet, testnet, signet, regtest}
use signeros.Text.{to_string}

-- The identifiers that libwally gives the chains.
pub data Chain : Type 0 where
  bitcoin_mainnet bitcoin_testnet bitcoin_regtest : Chain

-- What the export calls of libwally. `Key` is `struct ext_key`; the base58 versions and the address
-- prefixes have one value for mainnet and one for the test chains, a Boolean here.
pub record ExportWally : Type 1 where
  pub Key : Type 0
  pub wordlist : Bool
  pub mnemonic_from_bytes : Bytes → Option Bytes
  pub mnemonic_validate : Bytes → Bool
  pub mnemonic_to_seed : Bytes → Option Bytes → Option Bytes
  pub key_from_seed : Bool → Bytes → Option Key
  pub fingerprint : Key → Option Bytes
  pub derive_private : Key → List ℕ → Option Key
  pub derive_public : Key → List ℕ → Option Key
  pub strip_private : Key → Option Key
  pub set_version : Bool → Key → Key
  pub to_base58_public : Key → Option Bytes
  pub to_p2pkh : Bool → Key → Option Bytes
  pub to_p2sh_p2wpkh : Bool → Key → Option Bytes
  pub to_segwit : Bytes → Key → Option Bytes
  pub p2tr_script : Key → Option Bytes
  pub segwit_from_script : Bytes → Bytes → Option Bytes
  pub parses : Chain → Bytes → Bool
  pub checksum : Chain → Bytes → Option Bytes

abbrev pub is_mainnet : Network → Bool
is_mainnet mainnet = true
is_mainnet testnet = false
is_mainnet signet = false
is_mainnet regtest = false

-- `coinType`
unfoldable pub coin_type : Network → ℕ
coin_type n = if is_mainnet n then 0 else 1

-- `addressNetwork`
unfoldable pub address_network : Network → Chain
address_network mainnet = bitcoin_mainnet
address_network regtest = bitcoin_regtest
address_network testnet = bitcoin_testnet
address_network signet = bitcoin_testnet

-- `bech32Hrp`
unfoldable pub bech32_hrp : Network → Bytes
bech32_hrp mainnet = codes "bc"
bech32_hrp regtest = codes "bcrt"
bech32_hrp testnet = codes "tb"
bech32_hrp signet = codes "tb"

-- `networkName`
unfoldable pub network_name : Network → Bytes
network_name mainnet = codes "mainnet"
network_name testnet = codes "testnet"
network_name signet = codes "signet"
network_name regtest = codes "regtest"

-- `struct Standard`
pub record Standard : Type 0 where
  pub purpose : ℕ
  pub name : Bytes
  pub label : Bytes
  pub hint_mainnet : Bytes
  pub hint_testnet : Bytes
  pub descriptor_open : Bytes
  pub descriptor_close : Bytes

-- `kStandards`
abbrev pub standards : List Standard
standards =
    record {
      purpose = 84;
      name = codes "BIP84";
      label = codes "Native SegWit (P2WPKH)";
      hint_mainnet = codes "addresses start bc1q";
      hint_testnet = codes "addresses start tb1q";
      descriptor_open = codes "wpkh(";
      descriptor_close = codes ")";
    }
    ∷ record {
      purpose = 86;
      name = codes "BIP86";
      label = codes "Taproot (P2TR)";
      hint_mainnet = codes "addresses start bc1p";
      hint_testnet = codes "addresses start tb1p";
      descriptor_open = codes "tr(";
      descriptor_close = codes ")";
    }
    ∷ record {
      purpose = 49;
      name = codes "BIP49";
      label = codes "Nested SegWit (P2SH-P2WPKH)";
      hint_mainnet = codes "addresses start 3";
      hint_testnet = codes "addresses start 2";
      descriptor_open = codes "sh(wpkh(";
      descriptor_close = codes "))";
    }
    ∷ record {
      purpose = 44;
      name = codes "BIP44";
      label = codes "Legacy (P2PKH)";
      hint_mainnet = codes "addresses start 1";
      hint_testnet = codes "addresses start m or n";
      descriptor_open = codes "pkh(";
      descriptor_close = codes ")";
    }
    ∷ []

-- `struct MultisigStandard`
pub record MultisigStandard : Type 0 where
  pub script_type : ℕ
  pub name : Bytes
  pub label : Bytes

-- `kCosignerStandards`
abbrev pub cosigner_standards : List MultisigStandard
cosigner_standards =
    record {
      script_type = 2;
      name = codes "BIP48/2h";
      label = codes "Native SegWit multisig (P2WSH)";
    }
    ∷ record {
      script_type = 1;
      name = codes "BIP48/1h";
      label = codes "Nested SegWit multisig (P2SH-P2WSH)";
    }
    ∷ []

pub record AccountExport : Type 0 where
  pub standard : Bytes
  pub label : Bytes
  pub address_hint : Bytes
  pub path : Bytes
  pub path_hardened : Bytes
  pub xpub : Bytes
  pub descriptor : Bytes
  pub receive_descriptor : Bytes
  pub change_descriptor : Bytes
  pub first_address : Bytes

pub record CosignerKey : Type 0 where
  pub standard : Bytes
  pub label : Bytes
  pub path : Bytes
  pub path_hardened : Bytes
  pub xpub : Bytes
  pub key_origin : Bytes

pub record WalletExport : Type 0 where
  pub fingerprint : Bytes
  pub network : Network
  pub account : ℕ
  pub passphrase_used : Bool
  pub accounts : List AccountExport
  pub cosigners : List CosignerKey

-- `WalletExport()`
abbrev pub empty_export : WalletExport
empty_export = record {
  fingerprint = [];
  network = mainnet;
  account = 0;
  passphrase_used = false;
  accounts = [];
  cosigners = [];
}

pub data ExportError : Type 0 where
  no_wordlist bad_entropy mnemonic_too_long invalid_mnemonic no_seed no_master no_fingerprint
        no_accounts nothing_to_export :
      ExportError

-- `entropyBytesForWords`
unfoldable pub entropy_bytes_for_words : ℕ → ℕ
entropy_bytes_for_words words =
    if words == 12
    then 16
    else if words == 15
    then 20
    else if words == 18
    then 24
    else if words == 21
    then 28
    else if words == 24
    then 32
    else 0

-- `isValidWordCount`
unfoldable pub is_valid_word_count : ℕ → Bool
is_valid_word_count words = not (entropy_bytes_for_words words == 0)

-- `m/a'/b'/..` and `ah/bh/..`: the numbers with a mark behind each, and a slash between them.
unfoldable pub marked : ℕ → List ℕ → Bytes
marked mark [] = []
marked mark (n ∷ []) = to_string n ++ mark ∷ []
marked mark (n ∷ n' ∷ ns) = to_string n ++ mark ∷ b'/' ∷ marked mark (n' ∷ ns)

-- `n | kHardened` for a 32-bit number.
unfoldable pub harden : ℕ → ℕ
harden n = if leb (2 ^ 31) n then n else n + 2 ^ 31

unfoldable pub hardened : List ℕ → List ℕ
hardened [] = []
hardened (n ∷ ns) = harden n ∷ hardened ns
