-- ===== src/Screens/Sign/Flow/Tests.antt =====
-- The theorems on the signing screen at one visit: a letter is typed, the key is checked, reviewed
-- and signed with.
use signeros.Base.{ℕ, ◌≡◌, refl, true, false, none, [], codes}
use signeros.Bip39.{Wordlist, suggestions_of, bip39_suggestions}
use signeros.Disk.{Disk, Written}
use signeros.Files.{Clock}
use signeros.Files.Result.{Serialiser}
use signeros.Psbt.Tests.{demo_wally, demo_double, loaded}
use signeros.Screens.SaveAs.{trimmed, trim_left, trim_right, refresh, with_name, begin_naming}
use signeros.Screens.Secrets.{wipe_all_secrets, passphrase_confirmed, until_nul}
use signeros.Screens.Sign.{
  SignScreen, entry_page, confirm_page, name_page, mnemonic_field, from_mnemonic, found_words,
  refresh_suggestions, drop_confirmation, refresh_displays, usable_field, set_field,
  set_osk_visible, uncheck, new_source, set_key_source, forget_checked, appended, is_allowed,
  active_buffer, with_active, type_character,
}
use signeros.Screens.Sign.Flow.{
  Config, wipe_secrets, derive_from, report_key, keyed, derive_key, check_key, show_confirm,
  on_enter, signed, sign_result, do_sign,
}
use signeros.Screens.Sign.Flow.Run.{
  Reachable, enters, then_step, panel_types, clicks_check, clicks_review, clicks_sign,
}
use signeros.Screens.Sign.Flow.Checked.{Checked}
use signeros.Screens.Sign.Flow.Typed.{Reachable-Checked}
use signeros.Screens.Sign.Flow.Wiped.{Wiped}
use signeros.Screens.Sign.Flow.Naming.{Reachable-Wiped}
use signeros.Screens.Sign.Flow.Signs.{TypedSigning, do_sign-TypedSigning}
use signeros.Secure.{SecureString, append_char, clear}
use signeros.Psbt.Summarise.{forget_key, incomplete_summary, inspect, summarise}
use signeros.Secure.Repr.{zeros}
use signeros.Psbt.Ownership.{
  same_script, contains_bytes, is_witness_v0_sh, wsh_ownership, bare_sh_ownership,
  redeem_is_program, nested_ownership, sh_ownership, ownership_of_type, ownership_for_script,
}
use signeros.Psbt.Inspect.{
  script_type_name, reverse_onto, keypath_path, keypath_elements, path_text, previous_output,
  stated_amount, input_amount, has_derivation, count_derivations, is_op_return_script, hex_of,
  txid_to_display, keypath_entry, first_entry, outpoint_text, output_claim, no_address,
  address_of_type, address_for_script, input_address, input_info, input_infos, output_info,
  output_infos, add_inputs, add_outputs, all_known,
}
use signeros.Psbt.Vsize.{
  push_overhead, varint_len, multisig_m, is_witness_v0_pkh, signature_count, multisig_witness,
  extra_of_type, spent_type, input_extra, add_extras, vsize_of, estimate_vsize,
}
use signeros.Psbt.Signability.{
  record_verdict, cannot_tell, tally_ownership, try_derivation, try_keypath, try_keypaths,
  output_tally, label_output, evaluate_output, evaluate_outputs, verified_change, our_entry,
  evaluate_inputs, count_signable, master_fingerprint, evaluate_signability,
}
use signeros.Psbt.Findings.{
  add, block, add_if, block_if, missing_inputs, check_structure, check_derivation, check_fee_share,
  check_fee_rate, check_fee, anyone_can_pay, sighash_severity, check_sighashes, count_inputs,
  note_inputs, check_signable, check_label, check_labels, is_verified, count_verified, find_account,
  input_accounts, check_branch, check_account, check_branches, check_key as check_key_findings,
  verdict, derive_findings,
}
use signeros.Psbt.Engine.{
  strip_base64, count_signatures, base_name_onto, resummarise, unload, parse_with, accept,
  parse_base64, parse, load_parsed, load, clear_key, install_key, set_key_from_mnemonic,
  set_key_from_xprv, set_network, with_psbt, finish_signing, sign,
}
use signeros.Base.Fields.{cut}
use signeros.Base.Equal.{bytes_eq, starts_with, occurs}
use signeros.Text.{
  digits, to_string, format_element, format_elements, format_path, split_path, path_account_prefix,
  path_chain_element,
}

abbrev demo_buffer : SecureString
demo_buffer = record { buf = zeros 320; len = 0 }

abbrev demo_list : Wordlist
demo_list = record { available = false; get_word = λ n. none }

abbrev demo_disk : Disk
demo_disk = record {
  State = ℕ;
  lookup = λ s p. none;
  exists = λ s p. false;
  open_new = λ s p. none;
  write = λ s p t. (s, Written.failed);
  fsync = λ s p. (s, true);
  patience = λ s. 0;
}

abbrev demo_serialiser : Serialiser
demo_serialiser = record {
  to_base64 = λ p. none;
  clone = λ p. none;
  finalize = λ p. none;
  is_finalized = λ p. none;
  extract_final = λ p. none;
  tx_to_hex = λ t. none;
}

abbrev demo_config : Config
demo_config = record { physical_keyboard = true; data_dir = codes "/data"; write_final_tx = false }

abbrev demo_clock : Clock
demo_clock = record { local = none; uptime = 5 }

abbrev before : SignScreen demo_wally demo_double
before = record {
  page = entry_page;
  field = mnemonic_field;
  source = from_mnemonic;
  key_checked = false;
  sign_enabled = false;
  confirm_enabled = false;
  error = none;
  confirm_error = none;
  status = none;
  osk_visible = false;
  suggestion_words = [];
  row_shown = 0;
  panel_shown = 0;
  naming = record { name = []; accept_enabled = false; error = none };
  signed_inputs = 0;
  signed_total = 0;
  signed_fingerprint = [];
  secrets = record {
    mnemonic = demo_buffer;
    passphrase = demo_buffer;
    verification = demo_buffer;
    again = demo_buffer;
  };
  engine = loaded;
}

abbrev typed : SignScreen demo_wally demo_double
typed =
    type_character demo_wally demo_double demo_list b'a'
      (on_enter demo_wally demo_double demo_list demo_config before)

abbrev checked : SignScreen demo_wally demo_double
checked = check_key demo_wally demo_double demo_list typed

abbrev reviewed : SignScreen demo_wally demo_double
reviewed = show_confirm demo_wally demo_double demo_list checked

typed_page : typed.page ≡ entry_page
unfolding append_char clear same_script contains_bytes is_witness_v0_sh wsh_ownership
    bare_sh_ownership redeem_is_program nested_ownership sh_ownership ownership_of_type
    ownership_for_script script_type_name reverse_onto keypath_path keypath_elements path_text
    previous_output stated_amount input_amount has_derivation count_derivations is_op_return_script
    hex_of txid_to_display keypath_entry first_entry outpoint_text output_claim no_address
    address_of_type address_for_script input_address input_info input_infos output_info output_infos
    add_inputs add_outputs all_known push_overhead varint_len multisig_m is_witness_v0_pkh
    signature_count multisig_witness extra_of_type spent_type input_extra add_extras vsize_of
    estimate_vsize record_verdict cannot_tell tally_ownership try_derivation try_keypath
    try_keypaths output_tally label_output evaluate_output evaluate_outputs verified_change
    our_entry evaluate_inputs count_signable master_fingerprint evaluate_signability add block
    add_if block_if missing_inputs check_structure check_derivation check_fee_share check_fee_rate
    check_fee anyone_can_pay sighash_severity check_sighashes count_inputs note_inputs
    check_signable check_label check_labels is_verified count_verified find_account input_accounts
    check_branch check_account check_branches check_key_findings verdict derive_findings
    strip_base64 count_signatures base_name_onto forget_key incomplete_summary inspect summarise
    resummarise unload parse_with accept parse_base64 parse load_parsed load clear_key install_key
    set_key_from_mnemonic set_key_from_xprv set_network with_psbt finish_signing sign bytes_eq
    starts_with occurs digits to_string format_element format_elements format_path split_path
    path_account_prefix path_chain_element cut found_words refresh_suggestions drop_confirmation
    refresh_displays usable_field set_field set_osk_visible uncheck new_source set_key_source
    forget_checked appended is_allowed active_buffer with_active type_character wipe_all_secrets
    passphrase_confirmed until_nul wipe_secrets derive_from report_key keyed derive_key check_key
    show_confirm on_enter signed sign_result do_sign trimmed trim_left trim_right refresh with_name
    begin_naming suggestions_of bip39_suggestions
typed_page = refl

checked_page : checked.page ≡ entry_page
unfolding append_char clear same_script contains_bytes is_witness_v0_sh wsh_ownership
    bare_sh_ownership redeem_is_program nested_ownership sh_ownership ownership_of_type
    ownership_for_script script_type_name reverse_onto keypath_path keypath_elements path_text
    previous_output stated_amount input_amount has_derivation count_derivations is_op_return_script
    hex_of txid_to_display keypath_entry first_entry outpoint_text output_claim no_address
    address_of_type address_for_script input_address input_info input_infos output_info output_infos
    add_inputs add_outputs all_known push_overhead varint_len multisig_m is_witness_v0_pkh
    signature_count multisig_witness extra_of_type spent_type input_extra add_extras vsize_of
    estimate_vsize record_verdict cannot_tell tally_ownership try_derivation try_keypath
    try_keypaths output_tally label_output evaluate_output evaluate_outputs verified_change
    our_entry evaluate_inputs count_signable master_fingerprint evaluate_signability add block
    add_if block_if missing_inputs check_structure check_derivation check_fee_share check_fee_rate
    check_fee anyone_can_pay sighash_severity check_sighashes count_inputs note_inputs
    check_signable check_label check_labels is_verified count_verified find_account input_accounts
    check_branch check_account check_branches check_key_findings verdict derive_findings
    strip_base64 count_signatures base_name_onto forget_key incomplete_summary inspect summarise
    resummarise unload parse_with accept parse_base64 parse load_parsed load clear_key install_key
    set_key_from_mnemonic set_key_from_xprv set_network with_psbt finish_signing sign bytes_eq
    starts_with occurs digits to_string format_element format_elements format_path split_path
    path_account_prefix path_chain_element cut found_words refresh_suggestions drop_confirmation
    refresh_displays usable_field set_field set_osk_visible uncheck new_source set_key_source
    forget_checked appended is_allowed active_buffer with_active type_character wipe_all_secrets
    passphrase_confirmed until_nul wipe_secrets derive_from report_key keyed derive_key check_key
    show_confirm on_enter signed sign_result do_sign trimmed trim_left trim_right refresh with_name
    begin_naming suggestions_of bip39_suggestions
checked_page = refl

checked_enabled : checked.sign_enabled ≡ true
unfolding append_char clear same_script contains_bytes is_witness_v0_sh wsh_ownership
    bare_sh_ownership redeem_is_program nested_ownership sh_ownership ownership_of_type
    ownership_for_script script_type_name reverse_onto keypath_path keypath_elements path_text
    previous_output stated_amount input_amount has_derivation count_derivations is_op_return_script
    hex_of txid_to_display keypath_entry first_entry outpoint_text output_claim no_address
    address_of_type address_for_script input_address input_info input_infos output_info output_infos
    add_inputs add_outputs all_known push_overhead varint_len multisig_m is_witness_v0_pkh
    signature_count multisig_witness extra_of_type spent_type input_extra add_extras vsize_of
    estimate_vsize record_verdict cannot_tell tally_ownership try_derivation try_keypath
    try_keypaths output_tally label_output evaluate_output evaluate_outputs verified_change
    our_entry evaluate_inputs count_signable master_fingerprint evaluate_signability add block
    add_if block_if missing_inputs check_structure check_derivation check_fee_share check_fee_rate
    check_fee anyone_can_pay sighash_severity check_sighashes count_inputs note_inputs
    check_signable check_label check_labels is_verified count_verified find_account input_accounts
    check_branch check_account check_branches check_key_findings verdict derive_findings
    strip_base64 count_signatures base_name_onto forget_key incomplete_summary inspect summarise
    resummarise unload parse_with accept parse_base64 parse load_parsed load clear_key install_key
    set_key_from_mnemonic set_key_from_xprv set_network with_psbt finish_signing sign bytes_eq
    starts_with occurs digits to_string format_element format_elements format_path split_path
    path_account_prefix path_chain_element cut found_words refresh_suggestions drop_confirmation
    refresh_displays usable_field set_field set_osk_visible uncheck new_source set_key_source
    forget_checked appended is_allowed active_buffer with_active type_character wipe_all_secrets
    passphrase_confirmed until_nul wipe_secrets derive_from report_key keyed derive_key check_key
    show_confirm on_enter signed sign_result do_sign trimmed trim_left trim_right refresh with_name
    begin_naming suggestions_of bip39_suggestions
checked_enabled = refl

reviewed_page : reviewed.page ≡ confirm_page
unfolding append_char clear same_script contains_bytes is_witness_v0_sh wsh_ownership
    bare_sh_ownership redeem_is_program nested_ownership sh_ownership ownership_of_type
    ownership_for_script script_type_name reverse_onto keypath_path keypath_elements path_text
    previous_output stated_amount input_amount has_derivation count_derivations is_op_return_script
    hex_of txid_to_display keypath_entry first_entry outpoint_text output_claim no_address
    address_of_type address_for_script input_address input_info input_infos output_info output_infos
    add_inputs add_outputs all_known push_overhead varint_len multisig_m is_witness_v0_pkh
    signature_count multisig_witness extra_of_type spent_type input_extra add_extras vsize_of
    estimate_vsize record_verdict cannot_tell tally_ownership try_derivation try_keypath
    try_keypaths output_tally label_output evaluate_output evaluate_outputs verified_change
    our_entry evaluate_inputs count_signable master_fingerprint evaluate_signability add block
    add_if block_if missing_inputs check_structure check_derivation check_fee_share check_fee_rate
    check_fee anyone_can_pay sighash_severity check_sighashes count_inputs note_inputs
    check_signable check_label check_labels is_verified count_verified find_account input_accounts
    check_branch check_account check_branches check_key_findings verdict derive_findings
    strip_base64 count_signatures base_name_onto forget_key incomplete_summary inspect summarise
    resummarise unload parse_with accept parse_base64 parse load_parsed load clear_key install_key
    set_key_from_mnemonic set_key_from_xprv set_network with_psbt finish_signing sign bytes_eq
    starts_with occurs digits to_string format_element format_elements format_path split_path
    path_account_prefix path_chain_element cut found_words refresh_suggestions drop_confirmation
    refresh_displays usable_field set_field set_osk_visible uncheck new_source set_key_source
    forget_checked appended is_allowed active_buffer with_active type_character wipe_all_secrets
    passphrase_confirmed until_nul wipe_secrets derive_from report_key keyed derive_key check_key
    show_confirm on_enter signed sign_result do_sign trimmed trim_left trim_right refresh with_name
    begin_naming suggestions_of bip39_suggestions
reviewed_page = refl

reviewed_enabled : reviewed.confirm_enabled ≡ true
unfolding append_char clear same_script contains_bytes is_witness_v0_sh wsh_ownership
    bare_sh_ownership redeem_is_program nested_ownership sh_ownership ownership_of_type
    ownership_for_script script_type_name reverse_onto keypath_path keypath_elements path_text
    previous_output stated_amount input_amount has_derivation count_derivations is_op_return_script
    hex_of txid_to_display keypath_entry first_entry outpoint_text output_claim no_address
    address_of_type address_for_script input_address input_info input_infos output_info output_infos
    add_inputs add_outputs all_known push_overhead varint_len multisig_m is_witness_v0_pkh
    signature_count multisig_witness extra_of_type spent_type input_extra add_extras vsize_of
    estimate_vsize record_verdict cannot_tell tally_ownership try_derivation try_keypath
    try_keypaths output_tally label_output evaluate_output evaluate_outputs verified_change
    our_entry evaluate_inputs count_signable master_fingerprint evaluate_signability add block
    add_if block_if missing_inputs check_structure check_derivation check_fee_share check_fee_rate
    check_fee anyone_can_pay sighash_severity check_sighashes count_inputs note_inputs
    check_signable check_label check_labels is_verified count_verified find_account input_accounts
    check_branch check_account check_branches check_key_findings verdict derive_findings
    strip_base64 count_signatures base_name_onto forget_key incomplete_summary inspect summarise
    resummarise unload parse_with accept parse_base64 parse load_parsed load clear_key install_key
    set_key_from_mnemonic set_key_from_xprv set_network with_psbt finish_signing sign bytes_eq
    starts_with occurs digits to_string format_element format_elements format_path split_path
    path_account_prefix path_chain_element cut found_words refresh_suggestions drop_confirmation
    refresh_displays usable_field set_field set_osk_visible uncheck new_source set_key_source
    forget_checked appended is_allowed active_buffer with_active type_character wipe_all_secrets
    passphrase_confirmed until_nul wipe_secrets derive_from report_key keyed derive_key check_key
    show_confirm on_enter signed sign_result do_sign trimmed trim_left trim_right refresh with_name
    begin_naming suggestions_of bip39_suggestions
reviewed_enabled = refl

signed_page :
    (do_sign demo_wally demo_double demo_list demo_disk demo_serialiser demo_clock demo_config 0
      reviewed).page
    ≡ name_page
unfolding append_char clear same_script contains_bytes is_witness_v0_sh wsh_ownership
    bare_sh_ownership redeem_is_program nested_ownership sh_ownership ownership_of_type
    ownership_for_script script_type_name reverse_onto keypath_path keypath_elements path_text
    previous_output stated_amount input_amount has_derivation count_derivations is_op_return_script
    hex_of txid_to_display keypath_entry first_entry outpoint_text output_claim no_address
    address_of_type address_for_script input_address input_info input_infos output_info output_infos
    add_inputs add_outputs all_known push_overhead varint_len multisig_m is_witness_v0_pkh
    signature_count multisig_witness extra_of_type spent_type input_extra add_extras vsize_of
    estimate_vsize record_verdict cannot_tell tally_ownership try_derivation try_keypath
    try_keypaths output_tally label_output evaluate_output evaluate_outputs verified_change
    our_entry evaluate_inputs count_signable master_fingerprint evaluate_signability add block
    add_if block_if missing_inputs check_structure check_derivation check_fee_share check_fee_rate
    check_fee anyone_can_pay sighash_severity check_sighashes count_inputs note_inputs
    check_signable check_label check_labels is_verified count_verified find_account input_accounts
    check_branch check_account check_branches check_key_findings verdict derive_findings
    strip_base64 count_signatures base_name_onto forget_key incomplete_summary inspect summarise
    resummarise unload parse_with accept parse_base64 parse load_parsed load clear_key install_key
    set_key_from_mnemonic set_key_from_xprv set_network with_psbt finish_signing sign bytes_eq
    starts_with occurs digits to_string format_element format_elements format_path split_path
    path_account_prefix path_chain_element cut found_words refresh_suggestions drop_confirmation
    refresh_displays usable_field set_field set_osk_visible uncheck new_source set_key_source
    forget_checked appended is_allowed active_buffer with_active type_character wipe_all_secrets
    passphrase_confirmed until_nul wipe_secrets derive_from report_key keyed derive_key check_key
    show_confirm on_enter signed sign_result do_sign trimmed trim_left trim_right refresh with_name
    begin_naming suggestions_of bip39_suggestions
signed_page = refl

reviewed-Reachable :
    Reachable demo_wally demo_double demo_list demo_disk demo_serialiser demo_config (0, reviewed)
reviewed-Reachable =
    then_step
      (then_step (then_step (enters 0 before) (panel_types b'a' 0 _))
        (clicks_check 0 typed typed_page))
      (clicks_review 0 checked checked_page checked_enabled)

do_sign-TypedSigning_example : TypedSigning demo_wally demo_double demo_list reviewed (
    do_sign demo_wally demo_double demo_list demo_disk demo_serialiser demo_clock demo_config 0
      reviewed)
do_sign-TypedSigning_example =
    do_sign-TypedSigning demo_wally demo_double demo_list demo_disk demo_serialiser demo_config
      demo_clock 0 reviewed reviewed-Reachable reviewed_page signed_page

Reachable-Checked_example : Checked demo_wally demo_double demo_list reviewed
Reachable-Checked_example =
    Reachable-Checked demo_wally demo_double demo_list demo_disk demo_serialiser demo_config
      reviewed-Reachable

Reachable-Wiped_example : Wiped demo_wally demo_double demo_list (
    do_sign demo_wally demo_double demo_list demo_disk demo_serialiser demo_clock demo_config 0
      reviewed)
Reachable-Wiped_example =
    Reachable-Wiped demo_wally demo_double demo_list demo_disk demo_serialiser demo_config
      (then_step reviewed-Reachable
        (clicks_sign demo_clock 0 reviewed reviewed_page reviewed_enabled))
      signed_page
