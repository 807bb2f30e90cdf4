-- ===== src/Psbt/Engine/Keyless.antt =====
-- Without a key nothing is called verified.
use signeros.Base.{
  ◌≡◌, ◌⊎◌, inl, inr, refl, Bool, true, false, Option, none, some, List, [], ◌∷◌, Bytes, ◌==◌,
  length, All, if◌then◌else◌,
}
use signeros.Psbt.Wally.{Wally, Double, Psbt, PsbtInput, PsbtOutput, TxIn, TxOut, Tx, Network}
use signeros.Psbt.Ownership.{third_party, claimed}
use signeros.Psbt.Summary.{InputInfo, OutputInfo, TxSummary}
use signeros.Psbt.Inspect.{
  input_info, input_infos, output_info, output_infos, is_op_return_script, claimed_output, claim_on,
  address_for_script,
}
use signeros.Psbt.Signability.{evaluate_signability}
use signeros.Psbt.Findings.{derive_findings}
use signeros.Psbt.Summarise.{
  summarise, summary_of, incomplete_summary, forget_key, drop_signs, drop_labels, inspect,
}
use signeros.Psbt.Engine.{Engine, resummarise, unload, clear_key, set_network, with_psbt}
use signeros.Files.Result.{note_clock}
use signeros.Psbt.Engine.Run.{Reachable, Follows, Reachable-Follows}

-- What a screen may show of a PSBT that no key was checked against: no input is ours to sign, no
-- output is more than claimed, and all of it is leaving.
pub record Unproven {F : Type 0} (s : TxSummary F) : Type 0 where
  pub signs_none : All (λ i. i.can_sign ≡ false) s.inputs
  pub proves_none : All (λ o. (o.ownership ≡ third_party) ⊎ (o.ownership ≡ claimed)) s.outputs
  pub no_change : s.verified_change_sat ≡ 0
  pub no_signable : s.signable_inputs ≡ 0
  pub all_leaving : s.leaving_sat ≡ s.total_out_sat
  pub not_checked : s.ownership_checked ≡ false

abbrev pub Modest : OutputInfo → Type 0
Modest o = (o.ownership ≡ third_party) ⊎ (o.ownership ≡ claimed)

if-Modest : (b : Bool) (x y : OutputInfo) → Modest x → Modest y → Modest (if b then x else y)
if-Modest true x y p q = p
if-Modest false x y p q = q

drop_signs-false : (is : List InputInfo) → All (λ i. i.can_sign ≡ false) (drop_signs is)
drop_signs-false [] = tt
drop_signs-false (i ∷ is) = (refl, drop_signs-false is)

drop_labels-Modest : (os : List OutputInfo) → All Modest (drop_labels os)
drop_labels-Modest [] = tt
drop_labels-Modest (o ∷ os) = (modest (length o.claimed_fingerprint == 0), drop_labels-Modest os)
  where
    modest :
        (b : Bool)
        → ((if b then third_party else claimed) ≡ third_party)
          ⊎ ((if b then third_party else claimed) ≡ claimed)
    modest true = inl refl
    modest false = inr refl

forget_key-Unproven : {F : Type 0} (s : TxSummary F) → Unproven (forget_key s)
unfolding forget_key
forget_key-Unproven s = record {
  signs_none = drop_signs-false s.inputs;
  proves_none = drop_labels-Modest s.outputs;
  no_change = refl;
  no_signable = refl;
  all_leaving = refl;
  not_checked = refl;
}

module _ (w : Wally) (network : Network) where
  input_infos-false :
      (ps : List PsbtInput) (ts : List TxIn)
      → All (λ i. i.can_sign ≡ false) (input_infos w network ps ts)
  unfolding input_infos input_info
  input_infos-false [] ts = tt
  input_infos-false (p ∷ ps) [] = (refl, input_infos-false ps [])
  input_infos-false (p ∷ ps) (t ∷ ts) = (refl, input_infos-false ps ts)

  claimed_output-Modest :
      (claim : Option (Bytes × Bytes)) (o : TxOut) (addressed : Bytes × Bytes)
      → Modest (claimed_output claim o addressed)
  claimed_output-Modest none o addressed = inl refl
  claimed_output-Modest (some entry) o addressed = inr refl

  output_info-Modest : (o : TxOut) (po : Option PsbtOutput) → Modest (output_info w network o po)
  unfolding output_info
  output_info-Modest o po =
      if-Modest (is_op_return_script o.script) _ _ (inl refl)
        (claimed_output-Modest (claim_on w network po) o (address_for_script w network o.script))

  output_infos-Modest :
      (os : List TxOut) (pos : List PsbtOutput) → All Modest (output_infos w network os pos)
  unfolding output_infos
  output_infos-Modest [] pos = tt
  output_infos-Modest (o ∷ os) [] = (output_info-Modest o none, output_infos-Modest os [])
  output_infos-Modest (o ∷ os) (p ∷ ps) = (output_info-Modest o (some p), output_infos-Modest os ps)

module _ (w : Wally) (d : Double) where
  pub Keyless : Engine w d → Type 0
  Keyless e = e.key ≡ none → Unproven e.summary

  summarise-Unproven :
      (network : Network) (loose : Bool) (psbt : Psbt)
      → Unproven (summarise w d network none loose psbt)
  unfolding summarise incomplete_summary derive_findings evaluate_signability inspect
  summarise-Unproven network loose psbt = extracted (w.extract psbt)
    where
      extracted :
          (o : Option Tx)
          → Unproven (elim o as (λ x. TxSummary d.F) [
            | none ↦ incomplete_summary w d psbt
            | some tx ↦
                derive_findings d loose none
                  (evaluate_signability w none psbt tx (inspect w d network psbt tx))
          ])
      extracted none = record {
        signs_none = tt;
        proves_none = tt;
        no_change = refl;
        no_signable = refl;
        all_leaving = refl;
        not_checked = refl;
      }
      extracted (some tx) = record {
        signs_none = input_infos-false w network psbt.inputs tx.inputs;
        proves_none = output_infos-Modest w network tx.outputs psbt.outputs;
        no_change = refl;
        no_signable = refl;
        all_leaving = refl;
        not_checked = refl;
      }

  summary_of-Unproven :
      (network : Network) (key : Option w.Key) (loose : Bool) (psbt : Option Psbt)
      → key ≡ none
      → Unproven (summary_of w d network key loose psbt)
  summary_of-Unproven network key loose none e = record {
    signs_none = tt;
    proves_none = tt;
    no_change = refl;
    no_signable = refl;
    all_leaving = refl;
    not_checked = refl;
  }
  summary_of-Unproven network none loose (some psbt) e = summarise-Unproven network loose psbt
  summary_of-Unproven network (some k) loose (some psbt) e = cc

  noted : (unset : Bool) (e : Engine w d) → Keyless e → Keyless (note_clock w d unset e)
  unfolding Keyless note_clock
  noted false e p = p
  noted true e p = λ h.
      let s = p h in
      record {
        signs_none = s.signs_none;
        proves_none = s.proves_none;
        no_change = s.no_change;
        no_signable = s.no_signable;
        all_leaving = s.all_leaving;
        not_checked = s.not_checked;
      }

  Keyless-Follows : Follows w d Keyless
  unfolding Keyless resummarise unload clear_key set_network with_psbt
  Keyless-Follows = record {
    refreshes = λ e. summary_of-Unproven e.network e.key e.loose_parse e.psbt;
    forgets = λ e p h. forget_key-Unproven e.summary;
    empties = λ e h. summary_of-Unproven e.network none false none refl;
    marks = λ k e unloaded p h. forget_key-Unproven e.summary;
    relabels = λ n e p. p;
    replaces = λ q k e held p. p;
    notes = noted;
  }

  -- In every engine that the public operations reach: while no key is loaded, no input counts as
  -- signable, no output is more than claimed, and the whole sum counts as leaving the wallet. A label
  -- that a key earned does not outlive it.
  pub Reachable-Keyless : (e : Engine w d) → Reachable w d e → e.key ≡ none → Unproven e.summary
  unfolding Keyless
  Reachable-Keyless =
      Reachable-Follows w d Keyless Keyless-Follows
        (λ n h. summary_of-Unproven n none false none refl)
