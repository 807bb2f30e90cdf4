-- ===== src/Psbt/Engine/Gated.antt =====
-- The safety gate holds for every engine that its operations can reach.
use signeros.Base.{
  ℕ, suc, ◌<◌, ◌≡◌, ◌≢◌, inr, refl, ap, subst, sym, Bool, true, false, Option, none, some, List, [],
  ◌∷◌, Bytes, ◌==◌, length, All, arith, if◌then◌else◌,
}
use signeros.Psbt.Wally.{Wally, Double, Psbt, Tx, Network}
use signeros.Psbt.Ownership.{third_party, claimed, mismatch}
use signeros.Psbt.Summary.{InputInfo, OutputInfo, TxSummary}
use signeros.Psbt.Signability.{evaluate_signability}
use signeros.Psbt.Findings.{derive_findings}
use signeros.Psbt.Findings.Gate.{Spendable, derive_findings-Spendable}
use signeros.Psbt.Summarise.{
  key_fingerprint, summarise, summary_of, incomplete_summary, forget_key, drop_signs, drop_labels,
  inspect,
}
use signeros.Psbt.Engine.{Engine, resummarise, unload, clear_key, set_network, with_psbt, sign}
use signeros.Files.Result.{note_clock}
use signeros.Psbt.Engine.Run.{Reachable, Follows, Reachable-Follows}
use signeros.Psbt.Engine.Signing.{sign-Signed}

length-drop_signs : (is : List InputInfo) → length (drop_signs is) ≡ length is
length-drop_signs [] = refl
length-drop_signs (i ∷ is) = ap suc (length-drop_signs is)

length-drop_labels : (os : List OutputInfo) → length (drop_labels os) ≡ length os
length-drop_labels [] = refl
length-drop_labels (o ∷ os) = ap suc (length-drop_labels os)

amounts-drop_signs :
    (is : List InputInfo)
    → All (λ i. i.amount_known ≡ true) is
    → All (λ i. i.amount_known ≡ true) (drop_signs is)
amounts-drop_signs [] h = tt
amounts-drop_signs (i ∷ is) h = (h.0, amounts-drop_signs is h.1)

drop_labels-honest : (os : List OutputInfo) → All (λ o. o.ownership ≢ mismatch) (drop_labels os)
drop_labels-honest [] = tt
drop_labels-honest (o ∷ os) = (honest (length o.claimed_fingerprint == 0), drop_labels-honest os)
  where
    honest : (b : Bool) → (if b then third_party else claimed) ≢ mismatch
    honest true = λ e. cc
    honest false = λ e. cc

forget_key-Spendable :
    {F : Type 0} (old new : Option Bytes) (s : TxSummary F)
    → Spendable old s
    → Spendable new (forget_key s)
unfolding forget_key
forget_key-Spendable old new s p = record {
  has_inputs = subst (λ n. 0 < n) (sym (length-drop_signs s.inputs)) p.has_inputs;
  has_outputs = subst (λ n. 0 < n) (sym (length-drop_labels s.outputs)) p.has_outputs;
  not_final = p.not_final;
  amounts = amounts-drop_signs s.inputs p.amounts;
  covered = p.covered;
  derivable = p.derivable;
  labels = λ fp e. drop_labels-honest s.outputs;
}

module _ (w : Wally) (d : Double) where
  -- Where the engine lets the transaction be signed, the transaction is spendable.
  pub Gated : Engine w d → Type 0
  Gated e = e.summary.safe_to_sign ≡ true → Spendable (key_fingerprint w d e.key) e.summary

  derived-Spendable :
      (loose : Bool) (key_fp : Option Bytes) (s : TxSummary d.F)
      → (derive_findings d loose key_fp s).safe_to_sign ≡ true
      → Spendable key_fp (derive_findings d loose key_fp s)
  unfolding derive_findings
  derived-Spendable loose key_fp s h =
      let p = (derive_findings-Spendable d loose key_fp s).0 h in
      record {
        has_inputs = p.has_inputs;
        has_outputs = p.has_outputs;
        not_final = p.not_final;
        amounts = p.amounts;
        covered = p.covered;
        derivable = p.derivable;
        labels = p.labels;
      }

  summarise-Spendable :
      (network : Network) (key : Option w.Key) (loose : Bool) (psbt : Psbt)
      → (summarise w d network key loose psbt).safe_to_sign ≡ true
      → Spendable (key_fingerprint w d key) (summarise w d network key loose psbt)
  unfolding summarise incomplete_summary
  summarise-Spendable network key loose psbt = extracted (w.extract psbt)
    where
      summary : Option Tx → TxSummary d.F
      summary o = elim o [
        | none ↦ incomplete_summary w d psbt
        | some tx ↦
            derive_findings d loose (key_fingerprint w d key)
              (evaluate_signability w key psbt tx (inspect w d network psbt tx))
      ]

      extracted :
          (o : Option Tx)
          → (summary o).safe_to_sign ≡ true
          → Spendable (key_fingerprint w d key) (summary o)
      extracted none h = absurd (ground (arith, h))
      extracted (some tx) h = derived-Spendable loose (key_fingerprint w d key) _ h

  summary_of-Spendable :
      (network : Network) (key : Option w.Key) (loose : Bool) (psbt : Option Psbt)
      → (summary_of w d network key loose psbt).safe_to_sign ≡ true
      → Spendable (key_fingerprint w d key) (summary_of w d network key loose psbt)
  summary_of-Spendable network key loose none h = absurd (ground (arith, h))
  summary_of-Spendable network key loose (some psbt) h =
      summarise-Spendable network key loose psbt h

  noted : (unset : Bool) (e : Engine w d) → Gated e → Gated (note_clock w d unset e)
  unfolding Gated note_clock
  noted false e p = p
  noted true e p = λ h.
      let s = p h in
      record {
        has_inputs = s.has_inputs;
        has_outputs = s.has_outputs;
        not_final = s.not_final;
        amounts = s.amounts;
        covered = s.covered;
        derivable = s.derivable;
        labels = s.labels;
      }

  Gated-Follows : Follows w d Gated
  unfolding Gated forget_key resummarise unload clear_key set_network with_psbt
  Gated-Follows = record {
    refreshes = λ e. summary_of-Spendable e.network e.key e.loose_parse e.psbt;
    forgets = λ e p h. forget_key-Spendable (key_fingerprint w d e.key) none e.summary (p h);
    empties = λ e h. absurd (ground (arith, h));
    marks = λ k e unloaded p h. forget_key-Spendable (key_fingerprint w d e.key) _ e.summary (p h);
    relabels = λ n e p. p;
    replaces = λ q k e held p. p;
    notes = noted;
  }

  -- For every engine that the public operations reach: if it lets the transaction be signed, the
  -- transaction is spendable, with the labels that the key in it has been shown to give.
  pub Reachable-Gated : (e : Engine w d) → Reachable w d e → Gated e
  unfolding Gated
  Reachable-Gated = Reachable-Follows w d Gated Gated-Follows (λ n h. absurd (ground (arith, h)))

  -- In every engine that the public operations reach, a `sign` that answers success was for a
  -- spendable transaction under the key in the engine: nothing blocked it.
  pub sign-Spendable :
      (e e' : Engine w d) (n : ℕ)
      → Reachable w d e
      → sign w d e ≡ (e', inr n)
      → Spendable (key_fingerprint w d e.key) e.summary
  unfolding Gated
  sign-Spendable e e' n r h = let s = sign-Signed w d e e' n h in Reachable-Gated e r s.was_safe
