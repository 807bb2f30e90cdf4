-- ===== src/Psbt/Vsize.antt =====
-- `PsbtEngine::estimateVsize` of src/btc_signer_gui/src/core/psbt_engine.cpp: the size that the
-- transaction will have with its signatures.
use signeros.Base.{
  ℕ, suc, ◌+◌, ◌-◌, ◌*◌, ◌/◌, Bool, true, false, ◌&&◌, Option, none, some, List, [], ◌∷◌, Bytes,
  ltb, leb, ◌==◌, if◌then◌else◌, length, get_or,
}
use signeros.Psbt.Wally.{
  Wally, ScriptType, p2pkh, p2sh, p2wpkh, p2wsh, p2tr, multisig, op_return, unknown, TxOut, TxIn,
  Tx, PsbtInput, Psbt,
}
use signeros.Psbt.Ownership.{is_witness_v0_sh}
use signeros.Psbt.Inspect.{previous_output, or_empty}

abbrev pub der_sig_len : ℕ
der_sig_len = 72

abbrev pub compressed_pubkey_len : ℕ
compressed_pubkey_len = 33

-- `pushOverhead`
unfoldable pub push_overhead : ℕ → ℕ
push_overhead data_len = if ltb data_len 76 then 1 else if ltb data_len 256 then 2 else 3

-- `varintLen`
unfoldable pub varint_len : ℕ → ℕ
varint_len v =
    if ltb v 0xfd then 1 else if leb v 0xffff then 3 else if leb v 0xffffffff then 5 else 9

-- `multisigM`
unfoldable pub multisig_m : Bytes → ℕ
multisig_m [] = 0
multisig_m (op ∷ ops) = if leb 0x51 op && leb op 0x60 then op - 0x50 else 0

-- `isWitnessV0Pkh`
unfoldable pub is_witness_v0_pkh : Bytes → Bool
is_witness_v0_pkh s = length s == 22 && get_or s 0 0 == 0 && get_or s 1 0 == 0x14

-- `sigs`: at least one.
unfoldable pub signature_count : Bytes → ℕ
signature_count script = let m = multisig_m script in if ltb 0 m then m else 1

-- `multisigWitness`
unfoldable pub multisig_witness : Bytes → ℕ
multisig_witness script =
    let sigs = signature_count script in
    varint_len (sigs + 2)
    + 1
    + sigs * (1 + der_sig_len)
    + push_overhead (length script)
    + length script

abbrev pub key_witness : ℕ
key_witness = 1 + (1 + der_sig_len) + (1 + compressed_pubkey_len)

abbrev pub script_witness : Bytes → ℕ
script_witness script_code =
    if length script_code == 0
    then 1 + 1 + (1 + der_sig_len) + 1 + 34
    else multisig_witness script_code

-- What one input adds: bytes of its scriptSig and of its witness, and whether it has a witness.
pub record Extra : Type 0 where
  pub script_sig : ℕ
  pub witness : ℕ
  pub segwit : Bool

unfoldable pub extra_of_type : ScriptType → Bytes → Bytes → Extra
extra_of_type p2wpkh signing_script script_code = record {
  script_sig = 0;
  witness = key_witness;
  segwit = true;
}
extra_of_type p2tr signing_script script_code = record {
  script_sig = 0;
  witness = 1 + 1 + 65;
  segwit = true;
}
extra_of_type p2wsh signing_script script_code = record {
  script_sig = 0;
  witness = script_witness script_code;
  segwit = true;
}
extra_of_type p2sh signing_script script_code =
    if is_witness_v0_pkh signing_script
    then record { script_sig = 1 + length signing_script; witness = key_witness; segwit = true }
    else if is_witness_v0_sh signing_script
    then record {
      script_sig = 1 + length signing_script;
      witness = script_witness script_code;
      segwit = true;
    }
    else record {
      script_sig =
          1
          + signature_count signing_script * (1 + der_sig_len)
          + push_overhead (length signing_script)
          + length signing_script;
      witness = 0;
      segwit = false;
    }
extra_of_type p2pkh signing_script script_code = record {
  script_sig = (1 + der_sig_len) + (1 + compressed_pubkey_len);
  witness = 0;
  segwit = false;
}
extra_of_type multisig signing_script script_code = record {
  script_sig = 0;
  witness = key_witness;
  segwit = true;
}
extra_of_type op_return signing_script script_code = record {
  script_sig = 0;
  witness = key_witness;
  segwit = true;
}
extra_of_type unknown signing_script script_code = record {
  script_sig = 0;
  witness = key_witness;
  segwit = true;
}

module _ (w : Wally) (psbt : Psbt) where
  -- The type of the script that an input spends.
  unfoldable pub spent_type : Option TxOut → ScriptType
  spent_type none = unknown
  spent_type (some o) = elim (o.script) [
    | none ↦ unknown
    | some s ↦ if length s == 0 then unknown else w.scripts.script_type s
  ]

  -- The script code is asked for only where there is a signing script.
  unfoldable pub input_extra : ℕ → PsbtInput → Option TxIn → Extra
  input_extra n psbt_in tx_in =
      let signing_script = or_empty (w.signing_script psbt n) in
      let script_code =
        if length signing_script == 0 then [] else or_empty (w.scriptcode psbt n signing_script) in
      extra_of_type (spent_type (previous_output psbt_in tx_in)) signing_script script_code

  abbrev pub add_extra : Extra → Extra → Extra
  add_extra total e = record {
    script_sig = total.script_sig + e.script_sig;
    witness = total.witness + e.witness;
    segwit = if e.segwit then true else total.segwit;
  }

  -- The loop over the inputs, from the input number `n`.
  unfoldable pub add_extras : ℕ → List PsbtInput → List TxIn → Extra → Extra
  add_extras n [] tx_ins total = total
  add_extras n (p ∷ ps) [] total = add_extras (suc n) ps [] (add_extra total (input_extra n p none))
  add_extras n (p ∷ ps) (t ∷ ts) total =
      add_extras (suc n) ps ts (add_extra total (input_extra n p (some t)))

-- The size, rounded up from the weight.
unfoldable pub vsize_of : ℕ → Extra → ℕ
vsize_of base_size e =
    let weight = base_size * 4 + e.script_sig * 4 + (if e.segwit then 2 + e.witness else 0) in
    (weight + 3) / 4

-- `estimateVsize`
unfoldable pub estimate_vsize : (w : Wally) → Psbt → Tx → ℕ
estimate_vsize w psbt tx = elim (w.tx_vsize tx) [
  | none ↦ 0
  | some base_size ↦
      if base_size == 0
      then 0
      else vsize_of base_size (
          add_extras w psbt 0 psbt.inputs tx.inputs
            (record { script_sig = 0; witness = 0; segwit = false }))
]
