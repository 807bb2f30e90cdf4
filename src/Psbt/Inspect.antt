-- ===== src/Psbt/Inspect.antt =====
-- What src/btc_signer_gui/src/core/psbt_engine.cpp reads out of a PSBT without any key.
use signeros.Base.{
  ℕ, suc, ◌+◌, ◌%◌, ◌^◌, Bool, true, false, ◌&&◌, ◌||◌, Option, none, some, List, [], ◌∷◌, ◌++◌,
  Bytes, ltb, leb, ◌==◌, if◌then◌else◌, length, get_elem?, take, codes,
}
use signeros.Text.{format_path, to_string}
use signeros.Psbt.Wally.{
  Wally, Network, ScriptType, p2pkh, p2sh, p2wpkh, p2wsh, p2tr, multisig, op_return, unknown, TxOut,
  TxIn, Keypath, PsbtInput, PsbtOutput,
}
use signeros.Psbt.Ownership.{third_party, claimed}
use signeros.Psbt.Summary.{InputInfo, OutputInfo}

-- `scriptTypeName`
unfoldable pub script_type_name : ScriptType → Bytes
script_type_name p2pkh = codes "p2pkh"
script_type_name p2sh = codes "p2sh"
script_type_name p2wpkh = codes "p2wpkh"
script_type_name p2wsh = codes "p2wsh"
script_type_name p2tr = codes "p2tr"
script_type_name multisig = codes "bare-multisig"
script_type_name op_return = codes "op-return"
script_type_name unknown = codes "non-standard"

unfoldable pub reverse_onto : Bytes → Bytes → Bytes
reverse_onto [] acc = acc
reverse_onto (b ∷ bs) acc = reverse_onto bs (b ∷ acc)

abbrev pub or_empty : Option Bytes → Bytes
or_empty none = []
or_empty (some b) = b

-- The path of a keypath entry; the accessor answers at most 32 elements.
unfoldable pub keypath_path : Keypath → Option (List ℕ)
keypath_path kp = elim kp.path_len [
  | none ↦ none
  | some n ↦ if ltb 0 n && leb n 32 then kp.elements else none
]

-- `keypathElements`
unfoldable pub keypath_elements : Keypath → Option (List ℕ)
unfolding keypath_path
keypath_elements kp = elim (keypath_path kp) [
  | none ↦ none
  | some es ↦ if length es == 0 then none else some es
]

-- The text of a path, empty where the entry has none.
unfoldable pub path_text : Option (List ℕ) → Bytes
path_text none = []
path_text (some es) = format_path es

-- The output that an input spends, of the two places a PSBT can carry it.
unfoldable pub previous_output : PsbtInput → Option TxIn → Option TxOut
previous_output psbt_in tx_in = elim psbt_in.witness_utxo [
  | some u ↦ some u
  | none ↦ elim psbt_in.utxo [
    | none ↦ none
    | some outs ↦ elim tx_in [ none ↦ none | some t ↦ get_elem? outs t.index ]
  ]
]

-- An explicit amount is read only where no previous transaction is looked up.
unfoldable pub stated_amount : PsbtInput → Option TxIn → Option ℕ
stated_amount psbt_in tx_in = elim psbt_in.witness_utxo [
  | some u ↦ none
  | none ↦ elim psbt_in.utxo [
    | none ↦ psbt_in.amount
    | some outs ↦ elim tx_in [ none ↦ psbt_in.amount | some t ↦ none ]
  ]
]

-- The amount that an input spends, `none` where `amountKnown` stays false.
unfoldable pub input_amount : PsbtInput → Option TxIn → Option ℕ
input_amount psbt_in tx_in = elim (previous_output psbt_in tx_in) [
  | some u ↦ some u.satoshi
  | none ↦ stated_amount psbt_in tx_in
]

abbrev pub amount_or_zero : Option ℕ → ℕ
amount_or_zero none = 0
amount_or_zero (some n) = n

abbrev pub is_some : {A : Type 0} → Option A → Bool
is_some none = false
is_some (some a) = true

abbrev pub sequence_of : Option TxIn → ℕ
sequence_of none = 0
sequence_of (some t) = t.sequence

-- An input says which key signs it, in either of its two maps.
unfoldable pub has_derivation : PsbtInput → Bool
has_derivation psbt_in =
    ltb 0 (length psbt_in.keypaths) || ltb 0 (length psbt_in.taproot_leaf_paths)

unfoldable pub count_derivations : List PsbtInput → ℕ
count_derivations [] = 0
count_derivations (p ∷ ps) =
    if has_derivation p then suc (count_derivations ps) else count_derivations ps

-- The output carries data: its script starts with `OP_RETURN`.
unfoldable pub is_op_return_script : Option Bytes → Bool
is_op_return_script none = false
is_op_return_script (some []) = false
is_op_return_script (some (b ∷ bs)) = b == 0x6a

abbrev pub claimed_output : Option (Bytes × Bytes) → TxOut → Bytes × Bytes → OutputInfo
claimed_output none o addressed = record {
  address = addressed.0;
  script_type = addressed.1;
  derivation = [];
  claimed_fingerprint = [];
  amount_sat = o.satoshi;
  ownership = third_party;
  is_op_return = false;
  op_return_hex = [];
}
claimed_output (some entry) o addressed = record {
  address = addressed.0;
  script_type = addressed.1;
  derivation = entry.1;
  claimed_fingerprint = entry.0;
  amount_sat = o.satoshi;
  ownership = claimed;
  is_op_return = false;
  op_return_hex = [];
}

-- `psbtField`: a field with an empty value is none.
unfoldable pub psbt_field : Option Bytes → Option Bytes
psbt_field none = none
psbt_field (some []) = none
psbt_field (some (b ∷ bs)) = some (b ∷ bs)

module _ (w : Wally) where
  -- `hexOf`
  unfoldable pub hex_of : Bytes → Bytes
  hex_of b = if length b == 0 then [] else or_empty (w.hex b)

  -- `txidToDisplay`
  unfoldable pub txid_to_display : Bytes → Bytes
  txid_to_display hash32 = hex_of (reverse_onto hash32 [])

  -- `keypathEntry`: the fingerprint in hexadecimal and the path, empty where it cannot be read.
  unfoldable pub keypath_entry : Keypath → Option (Bytes × Bytes)
  keypath_entry kp = elim kp.fingerprint [
    | none ↦ none
    | some fp ↦ some (hex_of fp, path_text (keypath_path kp))
  ]

  -- The first keypath entry: the path first, then the fingerprint.
  unfoldable pub first_entry : List Keypath → Bytes × Bytes
  first_entry [] = ([], [])
  first_entry (kp ∷ kps) = elim (keypath_entry kp) [
    | none ↦ ([], [])
    | some entry ↦ (entry.1, entry.0)
  ]

  -- `<txid>:<vout>`
  unfoldable pub outpoint_text : Option TxIn → Bytes
  outpoint_text none = []
  outpoint_text (some t) = txid_to_display t.txhash ++ b':' ∷ to_string t.index

  -- What the file claims of an output: the first entry of the first map that has a readable one.
  unfoldable pub output_claim : PsbtOutput → Option (Bytes × Bytes)
  output_claim po = elim (first_of po.keypaths) [
    | some entry ↦ some entry
    | none ↦ first_of po.taproot_leaf_paths
  ]
    where
      first_of : List Keypath → Option (Bytes × Bytes)
      first_of [] = none
      first_of (kp ∷ kps) = keypath_entry kp

  abbrev pub data_hex : Option Bytes → Bytes
  data_hex none = []
  data_hex (some []) = []
  data_hex (some (b ∷ bs)) = hex_of bs

module _ (w : Wally) (network : Network) where
  -- The text of a script that has no address.
  unfoldable pub no_address : Bytes → Bytes
  no_address script = codes "(non-standard script) " ++ hex_of w (take 40 script)

  abbrev pub address_or : Option Bytes → Bytes → Bytes
  address_or none script = no_address script
  address_or (some a) script = a

  unfoldable pub address_of_type : ScriptType → Bytes → Bytes
  address_of_type p2pkh script = address_or (w.scripts.address network script) script
  address_of_type p2sh script = address_or (w.scripts.address network script) script
  address_of_type p2wpkh script = address_or (w.scripts.segwit_address network script) script
  address_of_type p2wsh script = address_or (w.scripts.segwit_address network script) script
  address_of_type p2tr script = address_or (w.scripts.segwit_address network script) script
  address_of_type op_return script = codes "OP_RETURN (unspendable)"
  address_of_type multisig script = no_address script
  address_of_type unknown script = no_address script

  -- `addressForScript`: the address and the name of the script's type.
  unfoldable pub address_for_script : Option Bytes → Bytes × Bytes
  address_for_script none = (codes "(empty script)", codes "empty")
  address_for_script (some script) =
      if length script == 0 then (codes "(empty script)", codes "empty") else (
        address_of_type (w.scripts.script_type script) script,
        script_type_name (w.scripts.script_type script),
      )

  -- The address and the script type of an input.
  unfoldable pub input_address : Option TxOut → Bytes × Bytes
  input_address none = (codes "(previous output not provided)", codes "unknown")
  input_address (some u) = elim u.script [
    | none ↦ (codes "(previous output not provided)", codes "unknown")
    | some s ↦
        if length s == 0
        then (codes "(previous output not provided)", codes "unknown")
        else address_for_script (some s)
  ]

  -- One round of the loop over the inputs.
  unfoldable pub input_info : PsbtInput → Option TxIn → InputInfo
  input_info psbt_in tx_in =
      let addressed = input_address (previous_output psbt_in tx_in) in
      let entry = first_entry w psbt_in.keypaths in
      let amount = input_amount psbt_in tx_in in
      record {
        outpoint = outpoint_text w tx_in;
        address = addressed.0;
        script_type = addressed.1;
        derivation = entry.0;
        fingerprint = entry.1;
        amount_sat = amount_or_zero amount;
        amount_known = is_some amount;
        can_sign = false;
        already_final = psbt_in.final_witness;
        existing_signatures = psbt_in.signatures;
        sequence = sequence_of tx_in;
        sighash = psbt_in.sighash;
      }

  unfoldable pub input_infos : List PsbtInput → List TxIn → List InputInfo
  input_infos [] tx_ins = []
  input_infos (p ∷ ps) [] = input_info p none ∷ input_infos ps []
  input_infos (p ∷ ps) (t ∷ ts) = input_info p (some t) ∷ input_infos ps ts

  abbrev pub claim_on : Option PsbtOutput → Option (Bytes × Bytes)
  claim_on none = none
  claim_on (some po) = output_claim w po

  -- One round of the loop over the outputs.
  unfoldable pub output_info : TxOut → Option PsbtOutput → OutputInfo
  output_info o po =
      if is_op_return_script o.script
      then record {
        address = codes "OP_RETURN (data, unspendable)";
        script_type = codes "op-return";
        derivation = [];
        claimed_fingerprint = [];
        amount_sat = o.satoshi;
        ownership = third_party;
        is_op_return = true;
        op_return_hex = data_hex w o.script;
      }
      else claimed_output (claim_on po) o (address_for_script o.script)

  unfoldable pub output_infos : List TxOut → List PsbtOutput → List OutputInfo
  output_infos [] pos = []
  output_infos (o ∷ os) [] = output_info o none ∷ output_infos os []
  output_infos (o ∷ os) (p ∷ ps) = output_info o (some p) ∷ output_infos os ps

-- `+=` on `std::uint64_t`.
abbrev pub add_sat : ℕ → ℕ → ℕ
add_sat total amount = (total + amount) % 2 ^ 64

unfoldable pub add_inputs : ℕ → List InputInfo → ℕ
add_inputs total [] = total
add_inputs total (i ∷ is) = add_inputs (add_sat total i.amount_sat) is

unfoldable pub add_outputs : ℕ → List OutputInfo → ℕ
add_outputs total [] = total
add_outputs total (o ∷ os) = add_outputs (add_sat total o.amount_sat) os

unfoldable pub all_known : List InputInfo → Bool
all_known [] = true
all_known (i ∷ is) = i.amount_known && all_known is
