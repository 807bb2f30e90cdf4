-- ===== src/Psbt/Findings.antt =====
-- `PsbtEngine::deriveFindings` of src/btc_signer_gui/src/core/psbt_engine.cpp: the messages for the
-- operator, and the refusal to sign.
pub mod Silent
pub mod Safe
pub mod Gate
use signeros.Base.{
  ℕ, zero, suc, ◌+◌, ◌-◌, ◌/◌, ◌%◌, ◌^◌, Bool, true, false, ◌&&◌, ◌||◌, not, Option, none, some,
  List, [], ◌∷◌, ◌++◌, Bytes, ltb, leb, ◌==◌, if◌then◌else◌, length, codes,
}
use signeros.Base.Equal.{bytes_eq}
use signeros.Text.{path_account_prefix, path_chain_element}
use signeros.Psbt.Wally.{Double}
use signeros.Psbt.Ownership.{
  OutputOwnership, third_party, claimed, verified, unverifiable, mismatch,
}
use signeros.Psbt.Summary.{
  InputInfo, OutputInfo, TxSummary, Severity, info, warning, danger, Reason, no_inputs, no_outputs,
  finalised, missing_utxo, outputs_exceed, no_derivation, false_change, Message, because,
  loose_parse, zero_fee, high_rate, very_high_rate, low_rate, no_verified_change, missing_amounts,
  some_without_path, fee_share, very_high_fee_share, odd_sighash, already_signed, non_standard,
  taproot, replaceable, has_locktime, wrong_key, partly_ours, false_change_at, unproven_change,
  odd_branch, odd_account, Finding,
}

-- The members that the lambdas `add` and `block` write.
pub record Verdict : Type 0 where
  pub findings : List Finding
  pub safe : Bool
  pub reason : Option Reason

-- `add`
unfoldable pub add : Severity → Message → Verdict → Verdict
add s m v = record {
  findings = v.findings ++ record { severity = s; text = m } ∷ [];
  safe = v.safe;
  reason = v.reason;
}

abbrev pub first_reason : Option Reason → Reason → Option Reason
first_reason none r = some r
first_reason (some old) r = some old

-- `block`: the first reason stays.
unfoldable pub block : Reason → Message → Verdict → Verdict
block r m v = record {
  findings = v.findings ++ record { severity = danger; text = m } ∷ [];
  safe = false;
  reason = first_reason v.reason r;
}

unfoldable pub add_if : Bool → Severity → Message → Verdict → Verdict
add_if c s m v = if c then add s m v else v

unfoldable pub block_if : Bool → Reason → Message → Verdict → Verdict
block_if c r m v = if c then block r m v else v

unfoldable pub missing_inputs : List InputInfo → ℕ
missing_inputs [] = 0
missing_inputs (i ∷ is) = let rest = missing_inputs is in if i.amount_known then rest else suc rest

-- Whether the transaction itself can be signed, without a key.
unfoldable pub check_structure : {F : Type 0} → Bool → TxSummary F → Verdict → Verdict
check_structure loose s v =
    let missing = missing_inputs s.inputs in
    block_if (ltb s.total_in_sat s.total_out_sat && missing == 0) outputs_exceed
      (because outputs_exceed)
      (block_if (ltb 0 missing) missing_utxo (missing_amounts missing (length s.inputs)) (
        block_if s.already_finalised finalised (because finalised) (
          block_if (length s.outputs == 0) no_outputs (because no_outputs) (
            block_if (length s.inputs == 0) no_inputs (because no_inputs)
              (add_if loose warning loose_parse v)))))

-- Whether some input says which key signs it.
unfoldable pub check_derivation : {F : Type 0} → TxSummary F → Verdict → Verdict
check_derivation s v =
    let n = length s.inputs in
    if not (n == 0) && s.inputs_with_derivation == 0
    then block no_derivation (because no_derivation) v
    else add_if (not (n == 0) && ltb s.inputs_with_derivation n) warning
        (some_without_path (n - s.inputs_with_derivation) n) v

-- The share of the fee, from 5 and from 25 per cent.
unfoldable pub check_fee_share : (d : Double) → ℕ → ℕ → Verdict → Verdict
check_fee_share d fee total v =
    let pct = d.div (d.mul (d.from_nat 100) (d.from_nat fee)) (d.from_nat total) in
    if d.le (d.from_nat 25) pct
    then add danger (very_high_fee_share fee total) v
    else add_if (d.le (d.from_nat 5) pct) warning (fee_share fee total) v

unfoldable pub check_fee_rate : (d : Double) → d.F → Verdict → Verdict
check_fee_rate d rate v =
    if d.lt (d.from_nat 1000) rate
    then add danger very_high_rate v
    else if d.lt (d.from_nat 100) rate
    then add warning high_rate v
    else add_if (d.lt (d.from_nat 0) rate && d.lt rate (d.from_nat 1)) warning low_rate v

unfoldable pub check_fee : (d : Double) → TxSummary d.F → Verdict → Verdict
check_fee d s v =
    let zero_noted = add_if (s.fee_sat == 0) warning zero_fee v in
    let share_noted =
      if ltb 0 s.total_in_sat
      then check_fee_share d s.fee_sat s.total_in_sat zero_noted
      else zero_noted in
    if s.fee_known then check_fee_rate d s.fee_rate share_noted else v

-- The flag that lets other inputs be added, `0x80`, and the base type, `0x1f`.
unfoldable pub anyone_can_pay : ℕ → Bool
anyone_can_pay sh = (sh / 128) % 2 == 1

unfoldable pub sighash_severity : ℕ → Severity
sighash_severity sh = if anyone_can_pay sh || not (sh % 32 == 1) then danger else warning

unfoldable pub check_sighashes : ℕ → List InputInfo → Verdict → Verdict
check_sighashes n [] v = v
check_sighashes n (i ∷ is) v = check_sighashes (suc n) is (
    if i.sighash == 0 || i.sighash == 1
    then v
    else add (sighash_severity i.sighash) (odd_sighash (n + 1) i.sighash) v)

unfoldable pub count_inputs : (InputInfo → Bool) → List InputInfo → ℕ
count_inputs p [] = 0
count_inputs p (i ∷ is) = let rest = count_inputs p is in if p i then suc rest else rest

abbrev pub has_signatures : InputInfo → Bool
has_signatures i = ltb 0 i.existing_signatures

abbrev pub is_non_standard : InputInfo → Bool
is_non_standard i =
    bytes_eq i.script_type (codes "non-standard") || bytes_eq i.script_type (codes "unknown")

abbrev pub is_taproot : InputInfo → Bool
is_taproot i = bytes_eq i.script_type (codes "p2tr")

abbrev pub is_replaceable : InputInfo → Bool
is_replaceable i = ltb i.sequence 0xfffffffe

-- Signatures, scripts, the lock time and replaceability.
unfoldable pub note_inputs : {F : Type 0} → TxSummary F → Verdict → Verdict
note_inputs s v =
    let with_sigs = count_inputs has_signatures s.inputs in
    let odd = count_inputs is_non_standard s.inputs in
    let tap = count_inputs is_taproot s.inputs in
    let rbf = count_inputs is_replaceable s.inputs in
    add_if (ltb 0 rbf) info (replaceable rbf) (
      add_if (not (s.locktime == 0)) info (has_locktime s.locktime) (
        add_if (ltb 0 tap) info (taproot tap) (
          add_if (ltb 0 odd) warning (non_standard odd)
            (add_if (ltb 0 with_sigs) info (already_signed with_sigs) v))))

unfoldable pub check_signable : {F : Type 0} → Bytes → TxSummary F → Verdict → Verdict
check_signable fp s v =
    if s.signable_inputs == 0
    then add danger (wrong_key fp) v
    else add_if (ltb s.signable_inputs (length s.inputs)) info
        (partly_ours s.signable_inputs (length s.inputs)) v

-- The `switch` over the label of an output.
unfoldable pub check_label : OutputOwnership → ℕ → OutputInfo → Verdict → Verdict
check_label mismatch n out v =
    block false_change (false_change_at (n + 1) out.address out.claimed_fingerprint out.derivation)
      v
check_label unverifiable n out v = add warning (unproven_change (n + 1) out.address) v
check_label verified n out v = v
check_label third_party n out v = v
check_label claimed n out v = v

-- The loop over the labels of the outputs.
unfoldable pub check_labels : ℕ → List OutputInfo → Verdict → Verdict
check_labels n [] v = v
check_labels n (o ∷ os) v = check_labels (suc n) os (check_label o.ownership n o v)

unfoldable pub is_verified : OutputOwnership → Bool
is_verified third_party = false
is_verified claimed = false
is_verified verified = true
is_verified unverifiable = false
is_verified mismatch = false

unfoldable pub count_verified : List OutputInfo → ℕ
count_verified [] = 0
count_verified (o ∷ os) =
    let rest = count_verified os in if is_verified o.ownership then suc rest else rest

-- `std::find`
unfoldable pub find_account : Bytes → List Bytes → Bool
find_account acct [] = false
find_account acct (a ∷ as') = bytes_eq a acct || find_account acct as'

-- The accounts that the coins come from, each once.
unfoldable pub input_accounts : List InputInfo → List Bytes → List Bytes
input_accounts [] found = found
input_accounts (i ∷ is) found =
    let acct = path_account_prefix i.derivation in
    input_accounts is (
      if not i.can_sign || length i.derivation == 0 || length acct == 0 || find_account acct found
      then found
      else found ++ acct ∷ [])

abbrev pub front : List Bytes → Bytes
front [] = []
front (a ∷ as') = a

-- Verified change on a branch or in an account that the inputs do not come from.
unfoldable pub check_branch : ℕ → OutputInfo → Verdict → Verdict
check_branch n out v =
    let chain = path_chain_element out.derivation in
    add_if
      (not (length chain == 0)
        && not (bytes_eq chain (codes "0"))
        && not (bytes_eq chain (codes "1")))
      warning (odd_branch (n + 1) chain out.derivation) v

unfoldable pub check_account : ℕ → List Bytes → OutputInfo → Verdict → Verdict
check_account n accounts out v =
    let acct = path_account_prefix out.derivation in
    add_if
      (not (length acct == 0) && not (length accounts == 0) && not (find_account acct accounts))
      warning (odd_account (n + 1) out.amount_sat acct (front accounts)) v

unfoldable pub check_branches : ℕ → List Bytes → List OutputInfo → Verdict → Verdict
check_branches n accounts [] v = v
check_branches n accounts (o ∷ os) v = check_branches (suc n) accounts os (
    if not (is_verified o.ownership) || length o.derivation == 0
    then v
    else check_account n accounts o (check_branch n o v))

-- What can be said only where a key is loaded; `none` where there is none.
unfoldable pub check_key : {F : Type 0} → Option Bytes → TxSummary F → Verdict → Verdict
check_key none s v = v
check_key (some fp) s v = check_branches 0 (input_accounts s.inputs []) s.outputs (
    add_if (count_verified s.outputs == 0 && ltb 1 (length s.outputs)) warning no_verified_change
      (check_labels 0 s.outputs (check_signable fp s v)))

unfoldable pub verdict : (d : Double) → Bool → Option Bytes → TxSummary d.F → Verdict
verdict d loose key_fp s = check_key key_fp s (
    note_inputs s (
      check_sighashes 0 s.inputs (
        check_fee d s (
          check_derivation s (
            check_structure loose s
              (record { findings = s.findings; safe = true; reason = none }))))))

-- `deriveFindings`
unfoldable pub derive_findings : (d : Double) → Bool → Option Bytes → TxSummary d.F → TxSummary d.F
derive_findings d loose key_fp s =
    let v = verdict d loose key_fp s in
    record {
      psbt_version = s.psbt_version;
      tx_version = s.tx_version;
      locktime = s.locktime;
      txid = s.txid;
      inputs = s.inputs;
      outputs = s.outputs;
      total_in_sat = s.total_in_sat;
      total_out_sat = s.total_out_sat;
      fee_sat = s.fee_sat;
      fee_known = s.fee_known;
      verified_change_sat = s.verified_change_sat;
      leaving_sat = s.leaving_sat;
      ownership_checked = s.ownership_checked;
      estimated_vsize = s.estimated_vsize;
      fee_rate = s.fee_rate;
      signable_inputs = s.signable_inputs;
      inputs_with_derivation = s.inputs_with_derivation;
      already_finalised = s.already_finalised;
      findings = v.findings;
      safe_to_sign = v.safe;
      block_reason = v.reason;
    }
