-- ===== src/Psbt/Summarise.antt =====
-- What `resummarise` computes from a PSBT and what `clearKey` leaves of it, as functions on the summary:
-- src/btc_signer_gui/src/core/psbt_engine.cpp.
use signeros.Base.{
  ℕ, ◌-◌, Bool, false, ◌&&◌, Option, none, some, List, [], ◌∷◌, Bytes, ltb, leb, ◌==◌,
  if◌then◌else◌, length,
}
use signeros.Psbt.Wally.{Wally, Network, Double, Psbt, Tx}
use signeros.Psbt.Ownership.{third_party, claimed}
use signeros.Psbt.Summary.{
  InputInfo, OutputInfo, TxSummary, danger, incomplete, because, empty_summary,
}
use signeros.Psbt.Inspect.{
  input_infos, output_infos, count_derivations, add_inputs, add_outputs, all_known, txid_to_display,
}
use signeros.Psbt.Vsize.{estimate_vsize}
use signeros.Psbt.Signability.{evaluate_signability, master_fingerprint}
use signeros.Psbt.Findings.{derive_findings}

abbrev pub drop_sign : InputInfo → InputInfo
drop_sign i = record {
  outpoint = i.outpoint;
  address = i.address;
  script_type = i.script_type;
  derivation = i.derivation;
  fingerprint = i.fingerprint;
  amount_sat = i.amount_sat;
  amount_known = i.amount_known;
  can_sign = false;
  already_final = i.already_final;
  existing_signatures = i.existing_signatures;
  sequence = i.sequence;
  sighash = i.sighash;
}

abbrev pub drop_label : OutputInfo → OutputInfo
drop_label o = record {
  address = o.address;
  script_type = o.script_type;
  derivation = o.derivation;
  claimed_fingerprint = o.claimed_fingerprint;
  amount_sat = o.amount_sat;
  ownership = if length o.claimed_fingerprint == 0 then third_party else claimed;
  is_op_return = o.is_op_return;
  op_return_hex = o.op_return_hex;
}

abbrev pub drop_signs : List InputInfo → List InputInfo
drop_signs [] = []
drop_signs (i ∷ is) = drop_sign i ∷ drop_signs is

abbrev pub drop_labels : List OutputInfo → List OutputInfo
drop_labels [] = []
drop_labels (o ∷ os) = drop_label o ∷ drop_labels os

-- What `clearKey` does to the summary.
unfoldable pub forget_key : {F : Type 0} → TxSummary F → TxSummary F
forget_key s = record {
  psbt_version = s.psbt_version;
  tx_version = s.tx_version;
  locktime = s.locktime;
  txid = s.txid;
  inputs = drop_signs s.inputs;
  outputs = drop_labels s.outputs;
  total_in_sat = s.total_in_sat;
  total_out_sat = s.total_out_sat;
  fee_sat = s.fee_sat;
  fee_known = s.fee_known;
  verified_change_sat = 0;
  leaving_sat = s.total_out_sat;
  ownership_checked = false;
  estimated_vsize = s.estimated_vsize;
  fee_rate = s.fee_rate;
  signable_inputs = 0;
  inputs_with_derivation = s.inputs_with_derivation;
  already_finalised = s.already_finalised;
  findings = s.findings;
  safe_to_sign = s.safe_to_sign;
  block_reason = s.block_reason;
}

module _ (w : Wally) (d : Double) where
  abbrev pub number_or_zero : Option ℕ → ℕ
  number_or_zero none = 0
  number_or_zero (some n) = n

  abbrev pub flag_or_false : Option Bool → Bool
  flag_or_false none = false
  flag_or_false (some b) = b

  abbrev pub txid_text : Option Bytes → Bytes
  txid_text none = []
  txid_text (some hash) = txid_to_display w hash

  -- The summary of a PSBT that describes no complete transaction.
  unfoldable pub incomplete_summary : Psbt → TxSummary d.F
  incomplete_summary psbt = record {
    psbt_version = psbt.version;
    tx_version = number_or_zero (w.tx_version psbt);
    locktime = number_or_zero (w.locktime psbt);
    txid = [];
    inputs = [];
    outputs = [];
    total_in_sat = 0;
    total_out_sat = 0;
    fee_sat = 0;
    fee_known = false;
    verified_change_sat = 0;
    leaving_sat = 0;
    ownership_checked = false;
    estimated_vsize = 0;
    fee_rate = d.from_nat 0;
    signable_inputs = 0;
    inputs_with_derivation = 0;
    already_finalised = flag_or_false (w.is_finalized psbt);
    findings = record { severity = danger; text = because incomplete } ∷ [];
    safe_to_sign = false;
    block_reason = some incomplete;
  }

  -- The summary of a PSBT and its transaction, before any key is asked.
  unfoldable pub inspect : Network → Psbt → Tx → TxSummary d.F
  inspect network psbt tx =
      let ins = input_infos w network psbt.inputs tx.inputs in
      let outs = output_infos w network tx.outputs psbt.outputs in
      let total_in = add_inputs 0 ins in
      let total_out = add_outputs 0 outs in
      let fee_known = all_known ins && leb total_out total_in in
      let fee = if fee_known then total_in - total_out else 0 in
      let vsize = estimate_vsize w psbt tx in
      record {
        psbt_version = psbt.version;
        tx_version = number_or_zero (w.tx_version psbt);
        locktime = number_or_zero (w.locktime psbt);
        txid = txid_text (w.txid tx);
        inputs = ins;
        outputs = outs;
        total_in_sat = total_in;
        total_out_sat = total_out;
        fee_sat = fee;
        fee_known = fee_known;
        verified_change_sat = 0;
        leaving_sat = 0;
        ownership_checked = false;
        estimated_vsize = vsize;
        fee_rate =
            if fee_known && ltb 0 vsize
            then d.div (d.from_nat fee) (d.from_nat vsize)
            else d.from_nat 0;
        signable_inputs = 0;
        inputs_with_derivation = count_derivations psbt.inputs;
        already_finalised = flag_or_false (w.is_finalized psbt);
        findings = [];
        safe_to_sign = false;
        block_reason = none;
      }

  abbrev pub key_fingerprint : Option w.Key → Option Bytes
  key_fingerprint none = none
  key_fingerprint (some key) = some (master_fingerprint w (some key))

  -- `resummarise`, as a function of the members that it reads.
  unfoldable pub summarise : Network → Option w.Key → Bool → Psbt → TxSummary d.F
  summarise network key loose psbt = elim (w.extract psbt) [
    | none ↦ incomplete_summary psbt
    | some tx ↦
        derive_findings d loose (key_fingerprint key)
          (evaluate_signability w key psbt tx (inspect network psbt tx))
  ]

  abbrev pub summary_of : Network → Option w.Key → Bool → Option Psbt → TxSummary d.F
  summary_of network key loose none = empty_summary (d.from_nat 0)
  summary_of network key loose (some psbt) = summarise network key loose psbt
