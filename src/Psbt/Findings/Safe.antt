-- ===== src/Psbt/Findings/Safe.antt =====
-- When `deriveFindings` lets the transaction be signed.
use signeros.Base.{
  ℕ, suc, ◌≡◌, ◌≢◌, inl, inr, refl, ap, ◌∙◌, Bool, true, false, not, ◌&&◌, Option, none, some, List,
  [], ◌∷◌, arith, Bytes, ltb, ◌==◌, if◌then◌else◌, length, All, Bool-cases,
}
use signeros.Psbt.Wally.{Double}
use signeros.Psbt.Ownership.{
  OutputOwnership, third_party, claimed, verified, unverifiable, mismatch,
}
use signeros.Psbt.Summary.{InputInfo, OutputInfo, TxSummary}
use signeros.Psbt.Findings.{
  Verdict, add, block, missing_inputs, check_structure, check_derivation, check_fee,
  check_sighashes, note_inputs, check_signable, check_label, check_labels, check_key, verdict,
  derive_findings,
}
use signeros.Psbt.Findings.Silent.{
  is_none, Explained, add_if-safe, block_if-safe, add_if-Explained, block-Explained,
  block_if-Explained, Silent, add-Silent, after-Silent, Silent-Explained, check_fee-Silent,
  check_sighashes-Silent, note_inputs-Silent, check_signable-Silent, check_branches-Silent,
}

abbrev pub is_mismatch : OutputOwnership → Bool
is_mismatch third_party = false
is_mismatch claimed = false
is_mismatch verified = false
is_mismatch unverifiable = false
is_mismatch mismatch = true

unfoldable pub no_mismatch : List OutputInfo → Bool
no_mismatch [] = true
no_mismatch (o ∷ os) = not (is_mismatch o.ownership) && no_mismatch os

check_label-safe :
    (l : OutputOwnership) (n : ℕ) (o : OutputInfo) (v : Verdict)
    → (check_label l n o v).safe ≡ (not (is_mismatch l) && v.safe)
unfolding check_label add block
check_label-safe third_party n o v = refl
check_label-safe claimed n o v = refl
check_label-safe verified n o v = refl
check_label-safe unverifiable n o v = refl
check_label-safe mismatch n o v = refl

check_label-Explained :
    (l : OutputOwnership) (n : ℕ) (o : OutputInfo) (v : Verdict)
    → Explained v
    → Explained (check_label l n o v)
unfolding check_label
check_label-Explained third_party n o v e = e
check_label-Explained claimed n o v e = e
check_label-Explained verified n o v e = e
check_label-Explained unverifiable n o v e = Silent-Explained (add-Silent _ _) v e
check_label-Explained mismatch n o v e = block-Explained _ _ v e

check_labels-safe :
    (os : List OutputInfo) (n : ℕ) (v : Verdict)
    → (check_labels n os v).safe ≡ (no_mismatch os && v.safe)
unfolding check_labels no_mismatch
check_labels-safe [] n v = refl
check_labels-safe (o ∷ os) n v =
    check_labels-safe os (suc n) (check_label o.ownership n o v)
    ∙ ap (λ b. no_mismatch os && b) (check_label-safe o.ownership n o v)
    ∙ swap (no_mismatch os) (not (is_mismatch o.ownership)) v.safe
  where
    swap : (a b c : Bool) → (a && (b && c)) ≡ ((b && a) && c)
    swap true true c = refl
    swap true false c = refl
    swap false true c = refl
    swap false false c = refl

check_labels-Explained :
    (os : List OutputInfo) (n : ℕ) (v : Verdict) → Explained v → Explained (check_labels n os v)
unfolding check_labels
check_labels-Explained [] n v e = e
check_labels-Explained (o ∷ os) n v e =
    check_labels-Explained os (suc n) _ (check_label-Explained o.ownership n o v e)

unfoldable pub structure_ok : {F : Type 0} → TxSummary F → Bool
structure_ok s =
    not (ltb s.total_in_sat s.total_out_sat && missing_inputs s.inputs == 0)
    && (not (ltb 0 (missing_inputs s.inputs))
        && (not s.already_finalised
            && (not (length s.outputs == 0) && (not (length s.inputs == 0) && true))))

check_structure-safe :
    {F : Type 0} (loose : Bool) (s : TxSummary F) (v : Verdict)
    → v.safe ≡ true
    → (check_structure loose s v).safe ≡ structure_ok s
unfolding check_structure structure_ok
check_structure-safe loose s v e =
    rw (block_if-safe, block_if-safe, block_if-safe, block_if-safe, block_if-safe, add_if-safe, e)
      refl

check_structure-Explained :
    {F : Type 0} (loose : Bool) (s : TxSummary F) (v : Verdict)
    → Explained v
    → Explained (check_structure loose s v)
unfolding check_structure
check_structure-Explained loose s v e = block_if-Explained _ _ _ _ (
    block_if-Explained _ _ _ _ (
      block_if-Explained _ _ _ _
        (block_if-Explained _ _ _ _ (block_if-Explained _ _ _ _ (add_if-Explained _ _ _ v e)))))

unfoldable pub derivation_ok : {F : Type 0} → TxSummary F → Bool
derivation_ok s = not (not (length s.inputs == 0) && s.inputs_with_derivation == 0)

either :
    (c : Bool) (x y : Verdict) {b : Bool}
    → x.safe ≡ false
    → y.safe ≡ b
    → (if c then x else y).safe ≡ (not c && b)
either true x y p q = p
either false x y p q = q

if-Explained :
    (c : Bool) (x y : Verdict) → Explained x → Explained y → Explained (if c then x else y)
if-Explained true x y p q = p
if-Explained false x y p q = q

check_derivation-safe :
    {F : Type 0} (s : TxSummary F) (v : Verdict)
    → (check_derivation s v).safe ≡ (derivation_ok s && v.safe)
unfolding check_derivation derivation_ok block
check_derivation-safe s v =
    either (not (length s.inputs == 0) && s.inputs_with_derivation == 0) _ _ refl
      (add_if-safe _ _ _ v)

check_derivation-Explained :
    {F : Type 0} (s : TxSummary F) (v : Verdict) → Explained v → Explained (check_derivation s v)
unfolding check_derivation
check_derivation-Explained s v e =
    if-Explained (not (length s.inputs == 0) && s.inputs_with_derivation == 0) _ _
      (block-Explained _ _ v e) (add_if-Explained _ _ _ v e)

unfoldable pub labels_ok : Option Bytes → List OutputInfo → Bool
labels_ok none outs = true
labels_ok (some fp) outs = no_mismatch outs

check_key-safe :
    {F : Type 0} (key_fp : Option Bytes) (s : TxSummary F) (v : Verdict)
    → (check_key key_fp s v).safe ≡ (labels_ok key_fp s.outputs && v.safe)
unfolding check_key labels_ok
check_key-safe none s v = refl
check_key-safe (some fp) s v =
    (check_branches-Silent s.outputs 0 _).same_safe _
    ∙ add_if-safe _ _ _ _
    ∙ check_labels-safe s.outputs 0 (check_signable fp s v)
    ∙ ap (λ b. no_mismatch s.outputs && b) ((check_signable-Silent fp s).same_safe v)

check_key-Explained :
    {F : Type 0} (key_fp : Option Bytes) (s : TxSummary F) (v : Verdict)
    → Explained v
    → Explained (check_key key_fp s v)
unfolding check_key
check_key-Explained none s v e = e
check_key-Explained (some fp) s v e = Silent-Explained (check_branches-Silent s.outputs 0 _) _ (
    add_if-Explained _ _ _ _
      (check_labels-Explained s.outputs 0 _ (Silent-Explained (check_signable-Silent fp s) v e)))

-- The stages between the structure and the key change nothing but the messages.
notes-Silent :
    (d : Double) (s : TxSummary d.F)
    → Silent (λ v. note_inputs s (check_sighashes 0 s.inputs (check_fee d s v)))
notes-Silent d s =
    after-Silent (note_inputs s) (λ v. check_sighashes 0 s.inputs (check_fee d s v))
      (note_inputs-Silent s)
      (after-Silent (check_sighashes 0 s.inputs) (check_fee d s) (check_sighashes-Silent s.inputs 0)
        (check_fee-Silent d s))

pub verdict-safe :
    (d : Double) (loose : Bool) (key_fp : Option Bytes) (s : TxSummary d.F)
    → (verdict d loose key_fp s).safe
      ≡ (labels_ok key_fp s.outputs && (derivation_ok s && structure_ok s))
unfolding verdict
verdict-safe d loose key_fp s =
    check_key-safe key_fp s _
    ∙ ap (λ b. labels_ok key_fp s.outputs && b)
        ((notes-Silent d s).same_safe _
          ∙ check_derivation-safe s _
          ∙ ap (λ b. derivation_ok s && b) (check_structure-safe loose s _ refl))

-- A refusal to sign always gives its reason, and a reason is given only with a refusal.
pub derive_findings-reason :
    (d : Double) (loose : Bool) (key_fp : Option Bytes) (s : TxSummary d.F)
    → (derive_findings d loose key_fp s).safe_to_sign
      ≡ is_none (derive_findings d loose key_fp s).block_reason
unfolding derive_findings verdict
derive_findings-reason d loose key_fp s = check_key-Explained key_fp s _ (
    Silent-Explained (notes-Silent d s) _
      (check_derivation-Explained s _ (check_structure-Explained loose s _ refl)))

pub missing-All :
    (is : List InputInfo)
    → (missing_inputs is ≡ 0 → All (λ i. i.amount_known ≡ true) is)
      × (All (λ i. i.amount_known ≡ true) is → missing_inputs is ≡ 0)
unfolding missing_inputs
missing-All [] = ((λ e. tt), (λ h. refl))
missing-All (i ∷ is) = elim (Bool-cases i.amount_known) [
  | inl k ↦ (
    (λ e. (k, (missing-All is).0 (ground (arith, e, k)))),
    (λ h. rw (k, if◌then◌else◌) ((missing-All is).1 h.1)),
  )
  | inr k ↦ ((λ e. absurd (ground (arith, e, k))), (λ h. absurd (ground (arith, h.0, k))))
]

labelled :
    (l : OutputOwnership)
    → (is_mismatch l ≡ false → l ≢ mismatch) × (l ≢ mismatch → is_mismatch l ≡ false)
labelled third_party = ((λ e. cc), (λ h. refl))
labelled claimed = ((λ e. cc), (λ h. refl))
labelled verified = ((λ e. cc), (λ h. refl))
labelled unverifiable = ((λ e. cc), (λ h. refl))
labelled mismatch = ((λ e. absurd (ground (arith, e))), (λ h. absurd (h refl)))

pub no_mismatch-All :
    (os : List OutputInfo)
    → (no_mismatch os ≡ true → All (λ o. o.ownership ≢ mismatch) os)
      × (All (λ o. o.ownership ≢ mismatch) os → no_mismatch os ≡ true)
unfolding no_mismatch
no_mismatch-All [] = ((λ e. tt), (λ h. refl))
no_mismatch-All (o ∷ os) = elim (Bool-cases (is_mismatch o.ownership)) [
  | inl k ↦ (
    (λ e. absurd (ground (arith, e, k))),
    (λ h. let n = (labelled o.ownership).1 h.0 in absurd (ground (arith, n, k))),
  )
  | inr k ↦ (
    (λ e. ((labelled o.ownership).0 k, (no_mismatch-All os).0 (ground (arith, e, k)))),
    (λ h. rw (k, not, ◌&&◌) ((no_mismatch-All os).1 h.1)),
  )
]
