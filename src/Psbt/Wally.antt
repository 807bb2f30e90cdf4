-- ===== src/Psbt/Wally.antt =====
-- What core/psbt_engine.cpp takes from libwally, from the file system and from the C++ `double`.
-- None of it is source of this repository: the engine's definitions take it as a parameter. A call
-- that can fail answers an `Option`, `none` for any code but `WALLY_OK`.
use signeros.Base.{ℕ, Bool, Option, List, Bytes}

-- `enum class Network` of psbt_engine.h.
pub data Network : Type 0 where
  mainnet testnet signet regtest : Network

-- The classes of `wally_scriptpubkey_get_type` that the engine tells apart.
pub data ScriptType : Type 0 where
  p2pkh p2sh p2wpkh p2wsh p2tr multisig op_return unknown : ScriptType

-- A transaction output. A null script pointer is `none`.
pub record TxOut : Type 0 where
  pub satoshi : ℕ
  pub script : Option Bytes

pub record TxIn : Type 0 where
  pub txhash : Bytes
  pub index : ℕ
  pub sequence : ℕ

pub record Tx : Type 0 where
  pub inputs : List TxIn
  pub outputs : List TxOut

-- An entry of a keypath map, as the accessors `wally_map_keypath_get_item_*` answer for it.
pub record Keypath : Type 0 where
  pub fingerprint : Option Bytes
  pub path_len : Option ℕ
  pub elements : Option (List ℕ)

pub record PsbtInput : Type 0 where
  pub witness_utxo : Option TxOut
  pub utxo : Option (List TxOut)
  pub amount : Option ℕ
  pub signatures : ℕ
  pub final_witness : Bool
  pub sighash : ℕ
  pub keypaths : List Keypath
  pub taproot_leaf_paths : List Keypath

-- The redeem and the witness script are fields of a map, `none` where the entry is missing.
pub record PsbtOutput : Type 0 where
  pub keypaths : List Keypath
  pub taproot_leaf_paths : List Keypath
  pub redeem_script : Option Bytes
  pub witness_script : Option Bytes
  pub taproot_tree : ℕ

pub record Psbt : Type 0 where
  pub version : ℕ
  pub inputs : List PsbtInput
  pub outputs : List PsbtOutput

-- Script construction and recognition.
pub record Scripts : Type 0 where
  pub script_type : Bytes → ScriptType
  pub p2pkh_from_key : Bytes → Option Bytes
  pub p2wpkh_from_key : Bytes → Option Bytes
  pub p2tr_from_key : Bytes → Option Bytes
  pub p2sh_of_script : Bytes → Option Bytes
  pub p2wsh_of_script : Bytes → Option Bytes
  pub address : Network → Bytes → Option Bytes
  pub segwit_address : Network → Bytes → Option Bytes

-- The rest of libwally: keys, parsing, signing. `Key` is `struct ext_key`. Signing answers whether
-- it went through and what it left of the PSBT, also where it failed.
pub record Wally : Type 1 where
  pub Key : Type 0
  pub scripts : Scripts
  pub hex : Bytes → Option Bytes
  pub fingerprint : Key → Option Bytes
  pub derive_public : Key → List ℕ → Option Bytes
  pub input_key : Key → Psbt → ℕ → Bool
  pub sign_bip32 : Key → Psbt → Bool × Psbt
  pub mnemonic_validate : Bytes → Bool
  pub mnemonic_seed : Bytes → Bytes → Option Bytes
  pub seed_key : Network → Bytes → Option Key
  pub base58_key : Bytes → Option Key
  pub is_private : Key → Bool
  pub from_bytes : Bool → Bytes → Option Psbt
  pub from_base64 : Bool → Bytes → Option Psbt
  pub is_elements : Psbt → Bool
  pub tx_version : Psbt → Option ℕ
  pub locktime : Psbt → Option ℕ
  pub is_finalized : Psbt → Option Bool
  pub extract : Psbt → Option Tx
  pub txid : Tx → Option Bytes
  pub tx_vsize : Tx → Option ℕ
  pub signing_script : Psbt → ℕ → Option Bytes
  pub scriptcode : Psbt → ℕ → Bytes → Option Bytes

-- The arithmetic of `double` that the fee checks use.
pub record Double : Type 1 where
  pub F : Type 0
  pub from_nat : ℕ → F
  pub mul : F → F → F
  pub div : F → F → F
  pub lt : F → F → Bool
  pub le : F → F → Bool
