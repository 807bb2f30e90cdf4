-- ===== src/Psbt/Findings/Gate.antt =====
-- The transactions that `deriveFindings` lets be signed, described without the code.
use signeros.Base.{
  ◌≤◌, ◌<◌, ◌≡◌, ◌≢◌, ◌↔◌, refl, ◌∙◌, sym, Bool, true, false, ◌&&◌, Option, none, some, List, arith,
  Bytes, length, All,
}
use signeros.Psbt.Wally.{Double}
use signeros.Psbt.Ownership.{mismatch}
use signeros.Psbt.Summary.{OutputInfo, TxSummary}
use signeros.Psbt.Findings.{derive_findings, missing_inputs, verdict}
use signeros.Psbt.Findings.Safe.{
  structure_ok, derivation_ok, labels_ok, verdict-safe, missing-All, no_mismatch-All,
}

-- What is asked of the transaction: it spends and pays something, it is not finalised, every amount
-- that it spends is known and covers what it pays, some input says which key signs it, and where a
-- key is loaded no output is falsely called change.
pub record Spendable {F : Type 0} (key_fp : Option Bytes) (s : TxSummary F) : Type 0 where
  pub has_inputs : 0 < length s.inputs
  pub has_outputs : 0 < length s.outputs
  pub not_final : s.already_finalised ≡ false
  pub amounts : All (λ i. i.amount_known ≡ true) s.inputs
  pub covered : s.total_out_sat ≤ s.total_in_sat
  pub derivable : 0 < s.inputs_with_derivation
  pub labels : (fp : Bytes) → key_fp ≡ some fp → All (λ o. o.ownership ≢ mismatch) s.outputs

structure_ok_sound :
    {F : Type 0} (s : TxSummary F)
    → structure_ok s ≡ true
    → (0 < length s.inputs)
      × (0 < length s.outputs)
      × (s.already_finalised ≡ false)
      × (missing_inputs s.inputs ≡ 0)
      × (s.total_out_sat ≤ s.total_in_sat)
unfolding structure_ok
structure_ok_sound s h =
    (ground (arith, h), ground (arith, h), ground (arith, h), ground (arith, h), ground (arith, h))

structure_ok_complete :
    {F : Type 0} (s : TxSummary F)
    → 0 < length s.inputs
    → 0 < length s.outputs
    → s.already_finalised ≡ false
    → missing_inputs s.inputs ≡ 0
    → s.total_out_sat ≤ s.total_in_sat
    → structure_ok s ≡ true
unfolding structure_ok
structure_ok_complete s a b c e f = ground (arith, a, b, c, e, f)

derivation_ok_sound :
    {F : Type 0} (s : TxSummary F)
    → derivation_ok s ≡ true
    → 0 < length s.inputs
    → 0 < s.inputs_with_derivation
unfolding derivation_ok
derivation_ok_sound s h a = ground (arith, h, a)

derivation_ok_complete :
    {F : Type 0} (s : TxSummary F) → 0 < s.inputs_with_derivation → derivation_ok s ≡ true
unfolding derivation_ok
derivation_ok_complete s a = ground (arith, a)

labels_ok_sound :
    (key_fp : Option Bytes) (os : List OutputInfo)
    → labels_ok key_fp os ≡ true
    → (fp : Bytes) → key_fp ≡ some fp
    → All (λ o. o.ownership ≢ mismatch) os
unfolding labels_ok
labels_ok_sound none os h fp e = cc
labels_ok_sound (some fp') os h fp e = (no_mismatch-All os).0 h

labels_ok_complete :
    (key_fp : Option Bytes) (os : List OutputInfo)
    → ((fp : Bytes) → key_fp ≡ some fp → All (λ o. o.ownership ≢ mismatch) os)
    → labels_ok key_fp os ≡ true
unfolding labels_ok
labels_ok_complete none os h = refl
labels_ok_complete (some fp) os h = (no_mismatch-All os).1 (h fp refl)

and-split : (a b : Bool) → (a && b) ≡ true → (a ≡ true) × (b ≡ true)
and-split true b h = (refl, h)
and-split false b h = absurd (ground (arith, h))

and-join : {a b : Bool} → a ≡ true → b ≡ true → (a && b) ≡ true
and-join p q = rw (p, q) refl

-- A transaction is safe to sign exactly when it is spendable: it has inputs and outputs, it is not
-- finalised, every input amount is known and together they cover the outputs, some input carries a
-- derivation path, and with a key loaded no output falsely claims to be change.
pub derive_findings-Spendable :
    (d : Double) (loose : Bool) (key_fp : Option Bytes) (s : TxSummary d.F)
    → (derive_findings d loose key_fp s).safe_to_sign ≡ true ↔ Spendable key_fp s
unfolding derive_findings
derive_findings-Spendable d loose key_fp s = (to, from)
  where
    to : (verdict d loose key_fp s).safe ≡ true → Spendable key_fp s
    to h =
        let (l, r) = and-split _ _ (sym (verdict-safe d loose key_fp s) ∙ h) in
        let (k, t) = and-split _ _ r in
        let (a, b, c, e, f) = structure_ok_sound s t in
        record {
          has_inputs = a;
          has_outputs = b;
          not_final = c;
          amounts = (missing-All s.inputs).0 e;
          covered = f;
          derivable = derivation_ok_sound s k a;
          labels = labels_ok_sound key_fp s.outputs l;
        }

    from : Spendable key_fp s → (verdict d loose key_fp s).safe ≡ true
    from p =
        verdict-safe d loose key_fp s
        ∙ and-join (labels_ok_complete key_fp s.outputs p.labels) (
            and-join (derivation_ok_complete s p.derivable) (
              structure_ok_complete s p.has_inputs p.has_outputs p.not_final
                ((missing-All s.inputs).1 p.amounts) p.covered))
