-- ===== src/Psbt/Engine.antt =====
-- `class PsbtEngine` of src/btc_signer_gui/src/core/psbt_engine.cpp: its state and its operations.
-- The master key of the process is a member of the state here.
pub mod Run
pub mod Keyless
pub mod Gated
pub mod Vetted
pub mod Signing
use signeros.Base.{
  ℕ, zero, suc, ◌+◌, ◌-◌, Bool, true, false, ◌&&◌, ◌||◌, not, Option, none, some, List, [], ◌∷◌,
  ◌++◌, ◌⊎◌, inl, inr, map, Bytes, ltb, leb, ◌==◌, if◌then◌else◌, length, get_or, take, drop, codes,
}
use signeros.Base.Equal.{starts_with}
use signeros.Psbt.Wally.{Wally, Network, Double, Psbt, PsbtInput, Tx}
use signeros.Psbt.Ownership.{OutputOwnership, third_party, claimed}
use signeros.Psbt.Summary.{
  InputInfo, OutputInfo, TxSummary, Finding, danger, incomplete, because, empty_summary,
}
use signeros.Psbt.Inspect.{
  input_infos, output_infos, count_derivations, add_inputs, add_outputs, all_known, txid_to_display,
  or_empty,
}
use signeros.Psbt.Vsize.{estimate_vsize}
use signeros.Psbt.Signability.{evaluate_signability, master_fingerprint}
use signeros.Psbt.Findings.{derive_findings}
use signeros.Psbt.Summarise.{
  drop_sign, drop_label, drop_signs, drop_labels, forget_key, number_or_zero, flag_or_false,
  txid_text, incomplete_summary, inspect, key_fingerprint, summarise, summary_of,
}

-- What the operations report when they answer `false`.
pub data Failure : Type 0 where
  unreadable empty_file not_psbt no_data unparsable is_pset bad_mnemonic no_seed no_master bad_xprv
        public_key not_loaded no_key refused nothing_to_sign rejected nothing_added :
      Failure

pub record Engine (w : Wally) (d : Double) : Type 0 where
  pub network : Network
  pub psbt : Option Psbt
  pub source_path : Bytes
  pub source_name : Bytes
  pub summary : TxSummary d.F
  pub loose_parse : Bool
  pub key : Option w.Key

-- The magic bytes of a binary PSBT.
abbrev pub magic : Bytes
magic = b'p' ∷ b's' ∷ b'b' ∷ b't' ∷ 0xff ∷ []

abbrev pub is_blank_byte : ℕ → Bool
is_blank_byte c = c == b' ' || c == 10 || c == 13 || c == 9 || c == 0

abbrev pub is_base64 : ℕ → Bool
is_base64 c =
    (leb b'A' c && leb c b'Z')
    || (leb b'a' c && leb c b'z')
    || (leb b'0' c && leb c b'9')
    || c == b'+'
    || c == b'/'
    || c == b'='

-- The text without its blanks, `none` at a byte that is not base64.
unfoldable pub strip_base64 : Bytes → Option Bytes
strip_base64 [] = some []
strip_base64 (c ∷ cs) =
    let rest = strip_base64 cs in
    if is_blank_byte c
    then rest
    else if is_base64 c
    then elim rest [ none ↦ none | some t ↦ some (c ∷ t) ]
    else none

-- The number of signatures of all inputs.
unfoldable pub count_signatures : List PsbtInput → ℕ
count_signatures [] = 0
count_signatures (p ∷ ps) = p.signatures + count_signatures ps

-- The name behind the last slash of a path.
unfoldable pub base_name_onto : Bytes → Bytes → Bytes
base_name_onto [] seen = seen
base_name_onto (c ∷ cs) seen =
    if c == b'/' then base_name_onto cs [] else base_name_onto cs (seen ++ c ∷ [])

module _ (w : Wally) (d : Double) where
  unfoldable pub resummarise : Engine w d → Engine w d
  resummarise e = record {
    network = e.network;
    psbt = e.psbt;
    source_path = e.source_path;
    source_name = e.source_name;
    summary = summary_of w d e.network e.key e.loose_parse e.psbt;
    loose_parse = e.loose_parse;
    key = e.key;
  }

  -- `unload`
  unfoldable pub unload : Engine w d → Engine w d
  unload e = record {
    network = e.network;
    psbt = none;
    source_path = [];
    source_name = [];
    summary = empty_summary (d.from_nat 0);
    loose_parse = false;
    key = e.key;
  }

  -- Strict first, then permissively.
  unfoldable pub parse_with : (Bool → Option Psbt) → Option (Psbt × Bool)
  parse_with from = elim (from true) [
    | some p ↦ some (p, false)
    | none ↦ elim (from false) [ some p ↦ some (p, true) | none ↦ none ]
  ]

  -- The end of `parse`: a PSET is refused.
  unfoldable pub accept : Option (Psbt × Bool) → Failure ⊎ (Psbt × Bool)
  accept none = inl unparsable
  accept (some (p, loose)) = if w.is_elements p then inl is_pset else inr (p, loose)

  unfoldable pub parse_base64 : Option Bytes → Failure ⊎ (Psbt × Bool)
  parse_base64 none = inl not_psbt
  parse_base64 (some b64) =
      if length b64 == 0
      then inl no_data
      else accept (parse_with (λ strict. w.from_base64 strict b64))

  -- `parse`: the PSBT and `looseParse_`.
  unfoldable pub parse : Bytes → Failure ⊎ (Psbt × Bool)
  parse data_bytes =
      if starts_with magic data_bytes
      then accept (parse_with (λ strict. w.from_bytes strict data_bytes))
      else parse_base64 (strip_base64 data_bytes)

  -- `load`, given what `readFileCapped` reads from the path.
  unfoldable pub load_parsed :
      Bytes → Failure ⊎ (Psbt × Bool) → Engine w d → Engine w d × Option Failure
  load_parsed path (inl f) e = (e, some f)
  load_parsed path (inr (p, loose)) e = (
    resummarise (record {
      network = e.network;
      psbt = some p;
      source_path = path;
      source_name = base_name_onto path [];
      summary = e.summary;
      loose_parse = loose;
      key = e.key;
    }),
    none,
  )

  unfoldable pub load : Bytes → Option Bytes → Engine w d → Engine w d × Option Failure
  load path none e = (unload e, some unreadable)
  load path (some raw) e =
      if length raw == 0
      then (unload e, some empty_file)
      else load_parsed path (parse raw) (unload e)

  -- `clearKey`
  unfoldable pub clear_key : Engine w d → Engine w d
  clear_key e = record {
    network = e.network;
    psbt = e.psbt;
    source_path = e.source_path;
    source_name = e.source_name;
    summary = forget_key e.summary;
    loose_parse = e.loose_parse;
    key = none;
  }

  -- `markValid`
  abbrev pub mark_valid : w.Key → Engine w d → Engine w d
  mark_valid k e = record {
    network = e.network;
    psbt = e.psbt;
    source_path = e.source_path;
    source_name = e.source_name;
    summary = e.summary;
    loose_parse = e.loose_parse;
    key = some k;
  }

  -- `markValid` and what follows it; without a PSBT the summary is left as it is.
  unfoldable pub install_key : w.Key → Engine w d → Engine w d
  install_key k e = elim (e.psbt) [ none ↦ mark_valid k e | some p ↦ resummarise (mark_valid k e) ]

  -- `setKeyFromMnemonic`
  unfoldable pub set_key_from_mnemonic : Bytes → Bytes → Engine w d → Engine w d × Option Failure
  set_key_from_mnemonic mnemonic passphrase e =
      let cleared = clear_key e in
      if w.mnemonic_validate mnemonic
      then elim (w.mnemonic_seed mnemonic passphrase) [
        | none ↦ (cleared, some no_seed)
        | some seed ↦ elim (w.seed_key e.network seed) [
          | none ↦ (cleared, some no_master)
          | some k ↦ (install_key k cleared, none)
        ]
      ]
      else (cleared, some bad_mnemonic)

  -- `setKeyFromXprv`
  unfoldable pub set_key_from_xprv : Bytes → Engine w d → Engine w d × Option Failure
  set_key_from_xprv xprv e =
      let cleared = clear_key e in
      elim (w.base58_key xprv) [
        | none ↦ (cleared, some bad_xprv)
        | some k ↦
            if w.is_private k then (install_key k cleared, none) else (cleared, some public_key)
      ]

  -- `setNetwork`
  unfoldable pub set_network : Network → Engine w d → Engine w d
  set_network n e = record {
    network = n;
    psbt = e.psbt;
    source_path = e.source_path;
    source_name = e.source_name;
    summary = e.summary;
    loose_parse = e.loose_parse;
    key = e.key;
  }

  -- The PSBT as libwally left it.
  unfoldable pub with_psbt : Psbt → Engine w d → Engine w d
  with_psbt p e = record {
    network = e.network;
    psbt = some p;
    source_path = e.source_path;
    source_name = e.source_name;
    summary = e.summary;
    loose_parse = e.loose_parse;
    key = e.key;
  }

  -- The end of `sign`, after libwally: `after <= before` is a failure.
  unfoldable pub finish_signing : ℕ → Bool × Psbt → Engine w d → Engine w d × (Failure ⊎ ℕ)
  finish_signing before result e =
      let after = count_signatures (result.1).inputs in
      if not result.0
      then (with_psbt result.1 e, inl rejected)
      else if leb after before
      then (with_psbt result.1 e, inl nothing_added)
      else (resummarise (with_psbt result.1 e), inr (after - before))

  -- `sign`, with the number of signatures added.
  unfoldable pub sign : Engine w d → Engine w d × (Failure ⊎ ℕ)
  sign e = elim (e.psbt) [
    | none ↦ (e, inl not_loaded)
    | some p ↦ elim (e.key) [
      | none ↦ (e, inl no_key)
      | some k ↦
          if not e.summary.safe_to_sign
          then (e, inl refused)
          else if e.summary.signable_inputs == 0
          then (e, inl nothing_to_sign)
          else finish_signing (count_signatures p.inputs) (w.sign_bip32 k p) e
    ]
  ]
