-- ===== src/Psbt/Tests.antt =====
-- The theorems on the engine at one PSBT: it spends 1000 sat of a key and sends 900 back to it.
use signeros.Base.{
  ◌^◌, ℕ, ◌-◌, ◌*◌, ◌/◌, ◌<◌, ◌≡◌, ◌↔◌, ◌⊎◌, inr, refl, true, false, none, some, [], ◌∷◌, Bytes,
  arith, ltb, leb, codes,
}
use signeros.Psbt.Wally.{
  Wally, Scripts, Double, mainnet, p2wpkh, TxOut, Tx, Keypath, PsbtOutput, Psbt,
}
use signeros.Psbt.Signability.Totals.{Balanced, amount_sum, evaluate_signability-total}
use signeros.Psbt.Summary.{OutputInfo}
use signeros.Psbt.Ownership.Sound.{Controls, ownership_for_script-Controls}
use signeros.Psbt.Ownership.{verified, claimed}
use signeros.Psbt.Signability.Labels.{Entry, Evidence, evaluate_output-Evidence}
use signeros.Psbt.Findings.Safe.{derive_findings-reason}
use signeros.Psbt.Findings.Silent.{is_none}
use signeros.Psbt.Findings.Gate.{Spendable, derive_findings-Spendable}
use signeros.Psbt.Summarise.{forget_key, incomplete_summary, inspect, summarise}
use signeros.Psbt.Engine.{Engine, magic}
use signeros.Psbt.Engine.Run.{fresh, Reachable, start, then_step, loads}
use signeros.Psbt.Engine.Signing.{Signed, sign-Signed, sign-succeeds}
use signeros.Psbt.Engine.Vetted.{Vetted}
use signeros.Psbt.Engine.Keyless.{Unproven, Reachable-Keyless}
use signeros.Psbt.Ownership.{
  same_script, contains_bytes, is_witness_v0_sh, wsh_ownership, bare_sh_ownership,
  redeem_is_program, nested_ownership, sh_ownership, ownership_of_type, ownership_for_script,
}
use signeros.Psbt.Inspect.{
  script_type_name, reverse_onto, keypath_path, keypath_elements, path_text, previous_output,
  stated_amount, input_amount, has_derivation, count_derivations, is_op_return_script, hex_of,
  txid_to_display, keypath_entry, first_entry, outpoint_text, output_claim, no_address,
  address_of_type, address_for_script, input_address, input_info, input_infos, output_info,
  output_infos, add_inputs, add_outputs, all_known,
}
use signeros.Psbt.Vsize.{
  push_overhead, varint_len, multisig_m, is_witness_v0_pkh, signature_count, multisig_witness,
  extra_of_type, spent_type, input_extra, add_extras, vsize_of, estimate_vsize,
}
use signeros.Psbt.Signability.{
  record_verdict, cannot_tell, tally_ownership, try_derivation, try_keypath, try_keypaths,
  output_tally, label_output, evaluate_output, evaluate_outputs, verified_change, our_entry,
  evaluate_inputs, count_signable, master_fingerprint, evaluate_signability,
}
use signeros.Psbt.Findings.{
  add, block, add_if, block_if, missing_inputs, check_structure, check_derivation, check_fee_share,
  check_fee_rate, check_fee, anyone_can_pay, sighash_severity, check_sighashes, count_inputs,
  note_inputs, check_signable, check_label, check_labels, is_verified, count_verified, find_account,
  input_accounts, check_branch, check_account, check_branches, check_key, verdict, derive_findings,
}
use signeros.Psbt.Engine.{
  strip_base64, count_signatures, base_name_onto, resummarise, unload, parse_with, accept,
  parse_base64, parse, load_parsed, load, clear_key, install_key, set_key_from_mnemonic,
  set_key_from_xprv, set_network, with_psbt, finish_signing, sign,
}
use signeros.Base.Fields.{cut}
use signeros.Base.Equal.{bytes_eq, starts_with, occurs}
use signeros.Text.{
  digits, to_string, format_element, format_elements, format_path, split_path, path_account_prefix,
  path_chain_element,
}

abbrev pub demo_scripts : Scripts
demo_scripts = record {
  script_type = λ s. p2wpkh;
  p2pkh_from_key = λ k. none;
  p2wpkh_from_key = λ k. some k;
  p2tr_from_key = λ k. none;
  p2sh_of_script = λ s. none;
  p2wsh_of_script = λ s. none;
  address = λ n s. none;
  segwit_address = λ n s. some s;
}

abbrev pub demo_script : Bytes
demo_script = 7 ∷ 1 ∷ []

abbrev pub demo_coin : ℕ → TxOut
demo_coin sat = record { satoshi = sat; script = some demo_script }

abbrev pub demo_keypath : Keypath
demo_keypath = record { fingerprint = some (7 ∷ []); path_len = some 1; elements = some (1 ∷ []) }

-- With `n` signatures on its input.
abbrev pub demo_psbt : ℕ → Psbt
demo_psbt n = record {
  version = 0;
  inputs =
      record {
        witness_utxo = some (demo_coin 1000);
        utxo = none;
        amount = none;
        signatures = n;
        final_witness = false;
        sighash = 1;
        keypaths = demo_keypath ∷ [];
        taproot_leaf_paths = [];
      }
      ∷ [];
  outputs =
      record {
        keypaths = demo_keypath ∷ [];
        taproot_leaf_paths = [];
        redeem_script = none;
        witness_script = none;
        taproot_tree = 0;
      }
      ∷ [];
}

abbrev pub demo_tx : Tx
demo_tx = record {
  inputs = record { txhash = 1 ∷ []; index = 0; sequence = 0 } ∷ [];
  outputs = demo_coin 900 ∷ [];
}

abbrev pub demo_wally : Wally
demo_wally = record {
  Key = ℕ;
  scripts = demo_scripts;
  hex = λ b. some b;
  fingerprint = λ k. some (k ∷ []);
  derive_public = λ k path. some (k ∷ path);
  input_key = λ k p n. true;
  sign_bip32 = λ k p. (true, demo_psbt 1);
  mnemonic_validate = λ m. true;
  mnemonic_seed = λ m p. some m;
  seed_key = λ n s. some 7;
  base58_key = λ b. some 7;
  is_private = λ k. true;
  from_bytes = λ strict b. some (demo_psbt 0);
  from_base64 = λ strict b. none;
  is_elements = λ p. false;
  tx_version = λ p. some 2;
  locktime = λ p. some 0;
  is_finalized = λ p. some false;
  extract = λ p. some demo_tx;
  txid = λ t. some (1 ∷ []);
  tx_vsize = λ t. some 100;
  signing_script = λ p n. none;
  scriptcode = λ p n s. none;
}

abbrev pub demo_double : Double
demo_double = record {
  F = ℕ;
  from_nat = λ n. n;
  mul = λ a b. a * b;
  div = λ a b. a / b;
  lt = ltb;
  le = leb;
}

abbrev pub loaded : Engine demo_wally demo_double
loaded =
    (load demo_wally demo_double (codes "a") (some magic) (fresh demo_wally demo_double mainnet)).0

abbrev keyed : Engine demo_wally demo_double
keyed = (set_key_from_xprv demo_wally demo_double [] loaded).0

loaded-Reachable : Reachable demo_wally demo_double loaded
loaded-Reachable = then_step (start mainnet) (loads (codes "a") (some magic))

keyed_safe : keyed.summary.safe_to_sign ≡ true
unfolding same_script contains_bytes is_witness_v0_sh wsh_ownership bare_sh_ownership
    redeem_is_program nested_ownership sh_ownership ownership_of_type ownership_for_script
    script_type_name reverse_onto keypath_path keypath_elements path_text previous_output
    stated_amount input_amount has_derivation count_derivations is_op_return_script hex_of
    txid_to_display keypath_entry first_entry outpoint_text output_claim no_address address_of_type
    address_for_script input_address input_info input_infos output_info output_infos add_inputs
    add_outputs all_known push_overhead varint_len multisig_m is_witness_v0_pkh signature_count
    multisig_witness extra_of_type spent_type input_extra add_extras vsize_of estimate_vsize
    record_verdict cannot_tell tally_ownership try_derivation try_keypath try_keypaths output_tally
    label_output evaluate_output evaluate_outputs verified_change our_entry evaluate_inputs
    count_signable master_fingerprint evaluate_signability add block add_if block_if missing_inputs
    check_structure check_derivation check_fee_share check_fee_rate check_fee anyone_can_pay
    sighash_severity check_sighashes count_inputs note_inputs check_signable check_label
    check_labels is_verified count_verified find_account input_accounts check_branch check_account
    check_branches check_key verdict derive_findings strip_base64 count_signatures base_name_onto
    forget_key incomplete_summary inspect summarise resummarise unload parse_with accept
    parse_base64 parse load_parsed load clear_key install_key set_key_from_mnemonic
    set_key_from_xprv set_network with_psbt finish_signing sign bytes_eq starts_with occurs digits
    to_string format_element format_elements format_path split_path path_account_prefix
    path_chain_element cut
keyed_safe = refl

keyed_signable : 0 < keyed.summary.signable_inputs
unfolding same_script contains_bytes is_witness_v0_sh wsh_ownership bare_sh_ownership
    redeem_is_program nested_ownership sh_ownership ownership_of_type ownership_for_script
    script_type_name reverse_onto keypath_path keypath_elements path_text previous_output
    stated_amount input_amount has_derivation count_derivations is_op_return_script hex_of
    txid_to_display keypath_entry first_entry outpoint_text output_claim no_address address_of_type
    address_for_script input_address input_info input_infos output_info output_infos add_inputs
    add_outputs all_known push_overhead varint_len multisig_m is_witness_v0_pkh signature_count
    multisig_witness extra_of_type spent_type input_extra add_extras vsize_of estimate_vsize
    record_verdict cannot_tell tally_ownership try_derivation try_keypath try_keypaths output_tally
    label_output evaluate_output evaluate_outputs verified_change our_entry evaluate_inputs
    count_signable master_fingerprint evaluate_signability add block add_if block_if missing_inputs
    check_structure check_derivation check_fee_share check_fee_rate check_fee anyone_can_pay
    sighash_severity check_sighashes count_inputs note_inputs check_signable check_label
    check_labels is_verified count_verified find_account input_accounts check_branch check_account
    check_branches check_key verdict derive_findings strip_base64 count_signatures base_name_onto
    forget_key incomplete_summary inspect summarise resummarise unload parse_with accept
    parse_base64 parse load_parsed load clear_key install_key set_key_from_mnemonic
    set_key_from_xprv set_network with_psbt finish_signing sign bytes_eq starts_with occurs digits
    to_string format_element format_elements format_path split_path path_account_prefix
    path_chain_element cut
keyed_signable = omega arith

keyed_psbt : keyed.psbt ≡ some (demo_psbt 0)
unfolding same_script contains_bytes is_witness_v0_sh wsh_ownership bare_sh_ownership
    redeem_is_program nested_ownership sh_ownership ownership_of_type ownership_for_script
    script_type_name reverse_onto keypath_path keypath_elements path_text previous_output
    stated_amount input_amount has_derivation count_derivations is_op_return_script hex_of
    txid_to_display keypath_entry first_entry outpoint_text output_claim no_address address_of_type
    address_for_script input_address input_info input_infos output_info output_infos add_inputs
    add_outputs all_known push_overhead varint_len multisig_m is_witness_v0_pkh signature_count
    multisig_witness extra_of_type spent_type input_extra add_extras vsize_of estimate_vsize
    record_verdict cannot_tell tally_ownership try_derivation try_keypath try_keypaths output_tally
    label_output evaluate_output evaluate_outputs verified_change our_entry evaluate_inputs
    count_signable master_fingerprint evaluate_signability add block add_if block_if missing_inputs
    check_structure check_derivation check_fee_share check_fee_rate check_fee anyone_can_pay
    sighash_severity check_sighashes count_inputs note_inputs check_signable check_label
    check_labels is_verified count_verified find_account input_accounts check_branch check_account
    check_branches check_key verdict derive_findings strip_base64 count_signatures base_name_onto
    forget_key incomplete_summary inspect summarise resummarise unload parse_with accept
    parse_base64 parse load_parsed load clear_key install_key set_key_from_mnemonic
    set_key_from_xprv set_network with_psbt finish_signing sign bytes_eq starts_with occurs digits
    to_string format_element format_elements format_path split_path path_account_prefix
    path_chain_element cut
keyed_psbt = refl

keyed_key : keyed.key ≡ some 7
unfolding same_script contains_bytes is_witness_v0_sh wsh_ownership bare_sh_ownership
    redeem_is_program nested_ownership sh_ownership ownership_of_type ownership_for_script
    script_type_name reverse_onto keypath_path keypath_elements path_text previous_output
    stated_amount input_amount has_derivation count_derivations is_op_return_script hex_of
    txid_to_display keypath_entry first_entry outpoint_text output_claim no_address address_of_type
    address_for_script input_address input_info input_infos output_info output_infos add_inputs
    add_outputs all_known push_overhead varint_len multisig_m is_witness_v0_pkh signature_count
    multisig_witness extra_of_type spent_type input_extra add_extras vsize_of estimate_vsize
    record_verdict cannot_tell tally_ownership try_derivation try_keypath try_keypaths output_tally
    label_output evaluate_output evaluate_outputs verified_change our_entry evaluate_inputs
    count_signable master_fingerprint evaluate_signability add block add_if block_if missing_inputs
    check_structure check_derivation check_fee_share check_fee_rate check_fee anyone_can_pay
    sighash_severity check_sighashes count_inputs note_inputs check_signable check_label
    check_labels is_verified count_verified find_account input_accounts check_branch check_account
    check_branches check_key verdict derive_findings strip_base64 count_signatures base_name_onto
    forget_key incomplete_summary inspect summarise resummarise unload parse_with accept
    parse_base64 parse load_parsed load clear_key install_key set_key_from_mnemonic
    set_key_from_xprv set_network with_psbt finish_signing sign bytes_eq starts_with occurs digits
    to_string format_element format_elements format_path split_path path_account_prefix
    path_chain_element cut
keyed_key = refl

one_more : count_signatures (demo_psbt 0).inputs < count_signatures (demo_psbt 1).inputs
unfolding count_signatures
one_more = omega arith

abbrev signed : Engine demo_wally demo_double
signed = resummarise demo_wally demo_double (with_psbt demo_wally demo_double (demo_psbt 1) keyed)

abbrev added : ℕ
added = count_signatures (demo_psbt 1).inputs - count_signatures (demo_psbt 0).inputs

keyed_signs : sign demo_wally demo_double keyed ≡ (signed, inr added)
keyed_signs =
    sign-succeeds demo_wally demo_double keyed (demo_psbt 0) (demo_psbt 1) 7 keyed_psbt keyed_key
      keyed_safe keyed_signable refl one_more

sign-Signed_example : Signed demo_wally demo_double keyed signed added
sign-Signed_example = sign-Signed demo_wally demo_double keyed signed added keyed_signs

derive_findings-Spendable_example :
    (derive_findings demo_double false none loaded.summary).safe_to_sign ≡ true
    ↔ Spendable none loaded.summary
derive_findings-Spendable_example = derive_findings-Spendable demo_double false none loaded.summary

derive_findings-reason_example :
    (derive_findings demo_double false none loaded.summary).safe_to_sign
    ≡ is_none (derive_findings demo_double false none loaded.summary).block_reason
derive_findings-reason_example = derive_findings-reason demo_double false none loaded.summary

loaded_keyless : loaded.key ≡ none
unfolding same_script contains_bytes is_witness_v0_sh wsh_ownership bare_sh_ownership
    redeem_is_program nested_ownership sh_ownership ownership_of_type ownership_for_script
    script_type_name reverse_onto keypath_path keypath_elements path_text previous_output
    stated_amount input_amount has_derivation count_derivations is_op_return_script hex_of
    txid_to_display keypath_entry first_entry outpoint_text output_claim no_address address_of_type
    address_for_script input_address input_info input_infos output_info output_infos add_inputs
    add_outputs all_known push_overhead varint_len multisig_m is_witness_v0_pkh signature_count
    multisig_witness extra_of_type spent_type input_extra add_extras vsize_of estimate_vsize
    record_verdict cannot_tell tally_ownership try_derivation try_keypath try_keypaths output_tally
    label_output evaluate_output evaluate_outputs verified_change our_entry evaluate_inputs
    count_signable master_fingerprint evaluate_signability add block add_if block_if missing_inputs
    check_structure check_derivation check_fee_share check_fee_rate check_fee anyone_can_pay
    sighash_severity check_sighashes count_inputs note_inputs check_signable check_label
    check_labels is_verified count_verified find_account input_accounts check_branch check_account
    check_branches check_key verdict derive_findings strip_base64 count_signatures base_name_onto
    forget_key incomplete_summary inspect summarise resummarise unload parse_with accept
    parse_base64 parse load_parsed load clear_key install_key set_key_from_mnemonic
    set_key_from_xprv set_network with_psbt finish_signing sign bytes_eq starts_with occurs digits
    to_string format_element format_elements format_path split_path path_account_prefix
    path_chain_element cut
loaded_keyless = refl

Reachable-Keyless_example : Unproven loaded.summary
Reachable-Keyless_example =
    Reachable-Keyless demo_wally demo_double loaded loaded-Reachable loaded_keyless

demo_verdict :
    ownership_for_script demo_scripts (some demo_script) (some demo_script) none none false
    ≡ verified
unfolding same_script contains_bytes is_witness_v0_sh wsh_ownership bare_sh_ownership
    redeem_is_program nested_ownership sh_ownership ownership_of_type ownership_for_script
    script_type_name reverse_onto keypath_path keypath_elements path_text previous_output
    stated_amount input_amount has_derivation count_derivations is_op_return_script hex_of
    txid_to_display keypath_entry first_entry outpoint_text output_claim no_address address_of_type
    address_for_script input_address input_info input_infos output_info output_infos add_inputs
    add_outputs all_known push_overhead varint_len multisig_m is_witness_v0_pkh signature_count
    multisig_witness extra_of_type spent_type input_extra add_extras vsize_of estimate_vsize
    record_verdict cannot_tell tally_ownership try_derivation try_keypath try_keypaths output_tally
    label_output evaluate_output evaluate_outputs verified_change our_entry evaluate_inputs
    count_signable master_fingerprint evaluate_signability add block add_if block_if missing_inputs
    check_structure check_derivation check_fee_share check_fee_rate check_fee anyone_can_pay
    sighash_severity check_sighashes count_inputs note_inputs check_signable check_label
    check_labels is_verified count_verified find_account input_accounts check_branch check_account
    check_branches check_key verdict derive_findings strip_base64 count_signatures base_name_onto
    forget_key incomplete_summary inspect summarise resummarise unload parse_with accept
    parse_base64 parse load_parsed load clear_key install_key set_key_from_mnemonic
    set_key_from_xprv set_network with_psbt finish_signing sign bytes_eq starts_with occurs digits
    to_string format_element format_elements format_path split_path path_account_prefix
    path_chain_element cut
demo_verdict = refl

ownership_for_script-Controls_example :
    (key : Bytes) × (script : Bytes) × (some demo_script ≡ some key)
    × (some demo_script ≡ some script)
    × Controls demo_scripts key script none none
ownership_for_script-Controls_example =
    ownership_for_script-Controls demo_scripts (some demo_script) (some demo_script) none none false
      demo_verdict

abbrev demo_output : PsbtOutput
demo_output = record {
  keypaths = demo_keypath ∷ [];
  taproot_leaf_paths = [];
  redeem_script = none;
  witness_script = none;
  taproot_tree = 0;
}

abbrev demo_info : OutputInfo
demo_info = record {
  address = [];
  script_type = [];
  derivation = [];
  claimed_fingerprint = 7 ∷ [];
  amount_sat = 900;
  ownership = claimed;
  is_op_return = false;
  op_return_hex = [];
}

demo_verified :
    (evaluate_output demo_wally 7 (7 ∷ []) (demo_coin 900) demo_output demo_info).ownership
    ≡ verified
unfolding same_script contains_bytes is_witness_v0_sh wsh_ownership bare_sh_ownership
    redeem_is_program nested_ownership sh_ownership ownership_of_type ownership_for_script
    script_type_name reverse_onto keypath_path keypath_elements path_text previous_output
    stated_amount input_amount has_derivation count_derivations is_op_return_script hex_of
    txid_to_display keypath_entry first_entry outpoint_text output_claim no_address address_of_type
    address_for_script input_address input_info input_infos output_info output_infos add_inputs
    add_outputs all_known push_overhead varint_len multisig_m is_witness_v0_pkh signature_count
    multisig_witness extra_of_type spent_type input_extra add_extras vsize_of estimate_vsize
    record_verdict cannot_tell tally_ownership try_derivation try_keypath try_keypaths output_tally
    label_output evaluate_output evaluate_outputs verified_change our_entry evaluate_inputs
    count_signable master_fingerprint evaluate_signability add block add_if block_if missing_inputs
    check_structure check_derivation check_fee_share check_fee_rate check_fee anyone_can_pay
    sighash_severity check_sighashes count_inputs note_inputs check_signable check_label
    check_labels is_verified count_verified find_account input_accounts check_branch check_account
    check_branches check_key verdict derive_findings strip_base64 count_signatures base_name_onto
    forget_key incomplete_summary inspect summarise resummarise unload parse_with accept
    parse_base64 parse load_parsed load clear_key install_key set_key_from_mnemonic
    set_key_from_xprv set_network with_psbt finish_signing sign bytes_eq starts_with occurs digits
    to_string format_element format_elements format_path split_path path_account_prefix
    path_chain_element cut
demo_verified = refl

evaluate_output-Evidence_example :
    (kp : Keypath) × (Entry kp (demo_keypath ∷ []) ⊎ Entry kp [])
    × Evidence demo_wally 7 (7 ∷ []) (some demo_script) demo_output kp
evaluate_output-Evidence_example =
    evaluate_output-Evidence demo_wally 7 (7 ∷ []) (demo_coin 900) demo_output demo_info refl
      demo_verified

inspected_small :
    amount_sum (inspect demo_wally demo_double mainnet (demo_psbt 0) demo_tx).outputs < 2 ^ 64
unfolding same_script contains_bytes is_witness_v0_sh wsh_ownership bare_sh_ownership
    redeem_is_program nested_ownership sh_ownership ownership_of_type ownership_for_script
    script_type_name reverse_onto keypath_path keypath_elements path_text previous_output
    stated_amount input_amount has_derivation count_derivations is_op_return_script hex_of
    txid_to_display keypath_entry first_entry outpoint_text output_claim no_address address_of_type
    address_for_script input_address input_info input_infos output_info output_infos add_inputs
    add_outputs all_known push_overhead varint_len multisig_m is_witness_v0_pkh signature_count
    multisig_witness extra_of_type spent_type input_extra add_extras vsize_of estimate_vsize
    record_verdict cannot_tell tally_ownership try_derivation try_keypath try_keypaths output_tally
    label_output evaluate_output evaluate_outputs verified_change our_entry evaluate_inputs
    count_signable master_fingerprint evaluate_signability add block add_if block_if missing_inputs
    check_structure check_derivation check_fee_share check_fee_rate check_fee anyone_can_pay
    sighash_severity check_sighashes count_inputs note_inputs check_signable check_label
    check_labels is_verified count_verified find_account input_accounts check_branch check_account
    check_branches check_key verdict derive_findings strip_base64 count_signatures base_name_onto
    forget_key incomplete_summary inspect summarise resummarise unload parse_with accept
    parse_base64 parse load_parsed load clear_key install_key set_key_from_mnemonic
    set_key_from_xprv set_network with_psbt finish_signing sign bytes_eq starts_with occurs digits
    to_string format_element format_elements format_path split_path path_account_prefix
    path_chain_element cut amount_sum
inspected_small = omega arith

evaluate_signability-total_example :
    Balanced (inspect demo_wally demo_double mainnet (demo_psbt 0) demo_tx) (
      evaluate_signability demo_wally
        (some 7)
        (demo_psbt 0)
        demo_tx
        (inspect demo_wally demo_double mainnet (demo_psbt 0) demo_tx))
evaluate_signability-total_example =
    evaluate_signability-total demo_wally demo_double mainnet 7 (demo_psbt 0) demo_tx
      inspected_small
