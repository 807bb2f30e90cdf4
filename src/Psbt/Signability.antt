-- ===== src/Psbt/Signability.antt =====
-- `PsbtEngine::evaluateSignability` of src/btc_signer_gui/src/core/psbt_engine.cpp: which inputs the
-- loaded key signs, and which outputs it really controls.
pub mod Labels
pub mod Totals
pub mod Honest
use signeros.Base.{
  ℕ, zero, suc, ◌+◌, ◌-◌, Bool, true, false, ◌&&◌, ◌||◌, not, Option, none, some, List, [], ◌∷◌,
  ◌++◌, Bytes, ltb, leb, ◌==◌, if◌then◌else◌, length,
}
use signeros.Base.Equal.{bytes_eq}
use signeros.Psbt.Wally.{Wally, Network, TxOut, Keypath, PsbtInput, PsbtOutput, Psbt, Tx}
use signeros.Psbt.Ownership.{
  OutputOwnership, third_party, claimed, verified, unverifiable, mismatch, ownership_for_script,
}
use signeros.Psbt.Summary.{InputInfo, OutputInfo, TxSummary}
use signeros.Psbt.Inspect.{keypath_entry, keypath_elements, add_sat, hex_of, psbt_field}

-- The three flags of the loop over one output, and `verdictPath`. `claim` is the fingerprint that
-- the loop wrote to `claimedFingerprint`, if it did.
pub record Tally : Type 0 where
  pub any_verified : Bool
  pub any_mismatch : Bool
  pub any_unverifiable : Bool
  pub verdict_path : Bytes
  pub claim : Option Bytes

abbrev pub no_tally : Tally
no_tally = record {
  any_verified = false;
  any_mismatch = false;
  any_unverifiable = false;
  verdict_path = [];
  claim = none;
}

-- The `switch` over the verdict, and what follows it.
unfoldable pub record_verdict : OutputOwnership → Bytes → Bytes → Tally → Tally
record_verdict verified fp path t = record {
  any_verified = true;
  any_mismatch = t.any_mismatch;
  any_unverifiable = t.any_unverifiable;
  verdict_path = path;
  claim = some fp;
}
record_verdict mismatch fp path t = record {
  any_verified = t.any_verified;
  any_mismatch = true;
  any_unverifiable = t.any_unverifiable;
  verdict_path = if length t.verdict_path == 0 || t.any_verified then path else t.verdict_path;
  claim = some fp;
}
record_verdict third_party fp path t = record {
  any_verified = t.any_verified;
  any_mismatch = t.any_mismatch;
  any_unverifiable = true;
  verdict_path = if length t.verdict_path == 0 || t.any_verified then path else t.verdict_path;
  claim = some fp;
}
record_verdict claimed fp path t = record {
  any_verified = t.any_verified;
  any_mismatch = t.any_mismatch;
  any_unverifiable = true;
  verdict_path = if length t.verdict_path == 0 || t.any_verified then path else t.verdict_path;
  claim = some fp;
}
record_verdict unverifiable fp path t = record {
  any_verified = t.any_verified;
  any_mismatch = t.any_mismatch;
  any_unverifiable = true;
  verdict_path = if length t.verdict_path == 0 || t.any_verified then path else t.verdict_path;
  claim = some fp;
}

-- `anyUnverifiable = true; continue;`
unfoldable pub cannot_tell : Tally → Tally
cannot_tell t = record {
  any_verified = t.any_verified;
  any_mismatch = t.any_mismatch;
  any_unverifiable = true;
  verdict_path = t.verdict_path;
  claim = t.claim;
}

-- The label that the flags give.
unfoldable pub tally_ownership : Tally → OutputOwnership
tally_ownership t =
    if t.any_verified
    then verified
    else if t.any_mismatch
    then mismatch
    else if t.any_unverifiable
    then unverifiable
    else third_party

-- Only a verified output counts as change; an output that carries data was passed over.
unfoldable pub add_change : OutputOwnership → Bool → ℕ → ℕ → ℕ
add_change verified data_only total amount = if data_only then total else add_sat total amount
add_change third_party data_only total amount = total
add_change claimed data_only total amount = total
add_change unverifiable data_only total amount = total
add_change mismatch data_only total amount = total

module _ (w : Wally) (key : w.Key) (our_fp : Bytes) where
  -- A keypath entry whose fingerprint is ours.
  unfoldable pub try_derivation :
      Option Bytes → PsbtOutput → Keypath → Bytes → Bytes → Tally → Tally
  try_derivation spk po kp fp path t = elim (keypath_elements kp) [
    | none ↦ cannot_tell t
    | some elems ↦ elim (w.derive_public key elems) [
      | none ↦ cannot_tell t
      | some pub_key ↦
          record_verdict
            (ownership_for_script w.scripts (some pub_key) spk (psbt_field po.redeem_script)
              (psbt_field po.witness_script) (ltb 0 po.taproot_tree))
            fp path t
    ]
  ]

  -- One round over the keypath entries; the loop ends at the first verified entry.
  unfoldable pub try_keypath : Option Bytes → PsbtOutput → Keypath → Tally → Tally
  try_keypath spk po kp t = if t.any_verified then t else elim (keypath_entry w kp) [
    | none ↦ t
    | some entry ↦ if bytes_eq entry.0 our_fp then try_derivation spk po kp entry.0 entry.1 t else t
  ]

  unfoldable pub try_keypaths : Option Bytes → PsbtOutput → List Keypath → Tally → Tally
  try_keypaths spk po [] t = t
  try_keypaths spk po (kp ∷ kps) t = try_keypaths spk po kps (try_keypath spk po kp t)

  -- Both maps of an output.
  unfoldable pub output_tally : Option Bytes → PsbtOutput → Tally
  output_tally spk po =
      try_keypaths spk po po.taproot_leaf_paths (try_keypaths spk po po.keypaths no_tally)

  abbrev pub claim_or : Option Bytes → Bytes → Bytes
  claim_or none old = old
  claim_or (some fp) old = fp

  unfoldable pub label_output : Tally → OutputInfo → OutputInfo
  label_output t out = record {
    address = out.address;
    script_type = out.script_type;
    derivation = if length t.verdict_path == 0 then out.derivation else t.verdict_path;
    claimed_fingerprint = claim_or t.claim out.claimed_fingerprint;
    amount_sat = out.amount_sat;
    ownership = tally_ownership t;
    is_op_return = out.is_op_return;
    op_return_hex = out.op_return_hex;
  }

  -- One round of the loop over the outputs.
  unfoldable pub evaluate_output : TxOut → PsbtOutput → OutputInfo → OutputInfo
  evaluate_output o po out =
      if out.is_op_return then out else label_output (output_tally o.script po) out

  -- The loop ends with the shortest of the three lists.
  unfoldable pub evaluate_outputs : List TxOut → List PsbtOutput → List OutputInfo → List OutputInfo
  evaluate_outputs [] pos outs = outs
  evaluate_outputs (o ∷ os) [] outs = outs
  evaluate_outputs (o ∷ os) (p ∷ ps) [] = []
  evaluate_outputs (o ∷ os) (p ∷ ps) (out ∷ outs) =
      evaluate_output o p out ∷ evaluate_outputs os ps outs

  -- `verifiedChangeSat`, over the outputs that the loop visits.
  unfoldable pub verified_change : ℕ → List TxOut → List PsbtOutput → List OutputInfo → ℕ
  verified_change total [] pos outs = total
  verified_change total (o ∷ os) [] outs = total
  verified_change total (o ∷ os) (p ∷ ps) [] = total
  verified_change total (o ∷ os) (p ∷ ps) (out ∷ outs) =
      verified_change
        (add_change (evaluate_output o p out).ownership out.is_op_return total out.amount_sat) os ps
        outs

  -- The first keypath entry that names our master.
  unfoldable pub our_entry : List Keypath → Option (Bytes × Bytes)
  our_entry [] = none
  our_entry (kp ∷ kps) =
      let rest = our_entry kps in
      elim (keypath_entry w kp) [
        | none ↦ rest
        | some entry ↦ if bytes_eq entry.0 our_fp then some entry else rest
      ]

  abbrev pub with_entry : Option (Bytes × Bytes) → Bool → InputInfo → InputInfo
  with_entry none signs i = record {
    outpoint = i.outpoint;
    address = i.address;
    script_type = i.script_type;
    derivation = i.derivation;
    fingerprint = i.fingerprint;
    amount_sat = i.amount_sat;
    amount_known = i.amount_known;
    can_sign = i.can_sign || signs;
    already_final = i.already_final;
    existing_signatures = i.existing_signatures;
    sequence = i.sequence;
    sighash = i.sighash;
  }
  with_entry (some entry) signs i = record {
    outpoint = i.outpoint;
    address = i.address;
    script_type = i.script_type;
    derivation = entry.1;
    fingerprint = entry.0;
    amount_sat = i.amount_sat;
    amount_known = i.amount_known;
    can_sign = i.can_sign || signs;
    already_final = i.already_final;
    existing_signatures = i.existing_signatures;
    sequence = i.sequence;
    sighash = i.sighash;
  }

  -- The loop over the inputs, from the input number `n`.
  unfoldable pub evaluate_inputs : Psbt → ℕ → List PsbtInput → List InputInfo → List InputInfo
  evaluate_inputs psbt n [] infos = infos
  evaluate_inputs psbt n (p ∷ ps) [] = []
  evaluate_inputs psbt n (p ∷ ps) (i ∷ is) =
      with_entry (our_entry p.keypaths) (w.input_key key psbt n) i
      ∷ evaluate_inputs psbt (suc n) ps is

  -- `signableInputs`
  unfoldable pub count_signable : Psbt → ℕ → List PsbtInput → List InputInfo → ℕ
  count_signable psbt n [] infos = 0
  count_signable psbt n (p ∷ ps) [] = 0
  count_signable psbt n (p ∷ ps) (i ∷ is) =
      let rest = count_signable psbt (suc n) ps is in
      if w.input_key key psbt n then suc rest else rest

-- `masterFingerprint`
unfoldable pub master_fingerprint : (w : Wally) → Option w.Key → Bytes
master_fingerprint w none = []
master_fingerprint w (some key) = elim (w.fingerprint key) [ none ↦ [] | some fp ↦ hex_of w fp ]

-- What stays where no key is loaded.
abbrev pub unchecked : {F : Type 0} → TxSummary F → TxSummary F
unchecked s = record {
  psbt_version = s.psbt_version;
  tx_version = s.tx_version;
  locktime = s.locktime;
  txid = s.txid;
  inputs = s.inputs;
  outputs = s.outputs;
  total_in_sat = s.total_in_sat;
  total_out_sat = s.total_out_sat;
  fee_sat = s.fee_sat;
  fee_known = s.fee_known;
  verified_change_sat = 0;
  leaving_sat = s.total_out_sat;
  ownership_checked = false;
  estimated_vsize = s.estimated_vsize;
  fee_rate = s.fee_rate;
  signable_inputs = 0;
  inputs_with_derivation = s.inputs_with_derivation;
  already_finalised = s.already_finalised;
  findings = s.findings;
  safe_to_sign = s.safe_to_sign;
  block_reason = s.block_reason;
}

-- `evaluateSignability`
unfoldable pub evaluate_signability :
    (w : Wally) {F : Type 0} → Option w.Key → Psbt → Tx → TxSummary F → TxSummary F
evaluate_signability w none psbt tx s = unchecked s
evaluate_signability w (some key) psbt tx s =
    let our_fp = master_fingerprint w (some key) in
    let change = verified_change w key our_fp 0 tx.outputs psbt.outputs s.outputs in
    record {
      psbt_version = s.psbt_version;
      tx_version = s.tx_version;
      locktime = s.locktime;
      txid = s.txid;
      inputs = evaluate_inputs w key our_fp psbt 0 psbt.inputs s.inputs;
      outputs = evaluate_outputs w key our_fp tx.outputs psbt.outputs s.outputs;
      total_in_sat = s.total_in_sat;
      total_out_sat = s.total_out_sat;
      fee_sat = s.fee_sat;
      fee_known = s.fee_known;
      verified_change_sat = change;
      leaving_sat = s.total_out_sat - change;
      ownership_checked = true;
      estimated_vsize = s.estimated_vsize;
      fee_rate = s.fee_rate;
      signable_inputs = count_signable w key our_fp psbt 0 psbt.inputs s.inputs;
      inputs_with_derivation = s.inputs_with_derivation;
      already_finalised = s.already_finalised;
      findings = s.findings;
      safe_to_sign = s.safe_to_sign;
      block_reason = s.block_reason;
    }
