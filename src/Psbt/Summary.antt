-- ===== src/Psbt/Summary.antt =====
-- The data of src/btc_signer_gui/src/core/psbt_engine.h that the inspection screens read. A message
-- of the engine is a constructor with the values that its text quotes; the English is left out.
use signeros.Base.{ℕ, Bool, false, Option, none, List, [], Bytes}
use signeros.Psbt.Ownership.{OutputOwnership}

pub record InputInfo : Type 0 where
  pub outpoint : Bytes
  pub address : Bytes
  pub script_type : Bytes
  pub derivation : Bytes
  pub fingerprint : Bytes
  pub amount_sat : ℕ
  pub amount_known : Bool
  pub can_sign : Bool
  pub already_final : Bool
  pub existing_signatures : ℕ
  pub sequence : ℕ
  pub sighash : ℕ

pub record OutputInfo : Type 0 where
  pub address : Bytes
  pub script_type : Bytes
  pub derivation : Bytes
  pub claimed_fingerprint : Bytes
  pub amount_sat : ℕ
  pub ownership : OutputOwnership
  pub is_op_return : Bool
  pub op_return_hex : Bytes

pub data Severity : Type 0 where
  info warning danger : Severity

-- The reasons that `blockReason` names.
pub data Reason : Type 0 where
  incomplete no_inputs no_outputs finalised missing_utxo outputs_exceed no_derivation false_change :
      Reason

pub data Message : Type 0 where
  because : Reason → Message
  loose_parse zero_fee high_rate very_high_rate low_rate no_verified_change : Message
  missing_amounts : ℕ → ℕ → Message
  clock_unset : Message
  some_without_path : ℕ → ℕ → Message
  fee_share very_high_fee_share : ℕ → ℕ → Message
  odd_sighash : ℕ → ℕ → Message
  already_signed non_standard taproot replaceable : ℕ → Message
  has_locktime : ℕ → Message
  wrong_key : Bytes → Message
  partly_ours : ℕ → ℕ → Message
  false_change_at : ℕ → Bytes → Bytes → Bytes → Message
  unproven_change : ℕ → Bytes → Message
  odd_branch : ℕ → Bytes → Bytes → Message
  odd_account : ℕ → ℕ → Bytes → Bytes → Message

pub record Finding : Type 0 where
  pub severity : Severity
  pub text : Message

-- `TxSummary`; `F` is `double`. The empty `blockReason` is `none`.
pub record TxSummary (F : Type 0) : Type 0 where
  pub psbt_version : ℕ
  pub tx_version : ℕ
  pub locktime : ℕ
  pub txid : Bytes
  pub inputs : List InputInfo
  pub outputs : List OutputInfo
  pub total_in_sat : ℕ
  pub total_out_sat : ℕ
  pub fee_sat : ℕ
  pub fee_known : Bool
  pub verified_change_sat : ℕ
  pub leaving_sat : ℕ
  pub ownership_checked : Bool
  pub estimated_vsize : ℕ
  pub fee_rate : F
  pub signable_inputs : ℕ
  pub inputs_with_derivation : ℕ
  pub already_finalised : Bool
  pub findings : List Finding
  pub safe_to_sign : Bool
  pub block_reason : Option Reason

abbrev pub empty_summary : {F : Type 0} → F → TxSummary F
empty_summary zero_rate = record {
  psbt_version = 0;
  tx_version = 0;
  locktime = 0;
  txid = [];
  inputs = [];
  outputs = [];
  total_in_sat = 0;
  total_out_sat = 0;
  fee_sat = 0;
  fee_known = false;
  verified_change_sat = 0;
  leaving_sat = 0;
  ownership_checked = false;
  estimated_vsize = 0;
  fee_rate = zero_rate;
  signable_inputs = 0;
  inputs_with_derivation = 0;
  already_finalised = false;
  findings = [];
  safe_to_sign = false;
  block_reason = none;
}
