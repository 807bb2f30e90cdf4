-- ===== src/Psbt/Signability/Totals.antt =====
-- The sums that the confirmation screen shows.
use signeros.Base.{
  ℕ, ◌+◌, ◌≤◌, ◌<◌, ◌^◌, ◌≡◌, inl, inr, refl, ◌∙◌, Option, none, some, Bool, true, false, List, [],
  ◌∷◌, Bytes, arith, All, if◌then◌else◌, Bool-cases,
}
use signeros.Psbt.Wally.{Wally, Double, Network, Psbt, PsbtOutput, Tx, TxOut}
use signeros.Psbt.Ownership.{
  OutputOwnership, third_party, claimed, verified, unverifiable, mismatch,
}
use signeros.Psbt.Summary.{OutputInfo, TxSummary}
use signeros.Psbt.Inspect.{
  add_sat, add_outputs, output_info, output_infos, is_op_return_script, claimed_output, claim_on,
  address_for_script,
}
use signeros.Psbt.Summarise.{inspect}
use signeros.Psbt.Signability.{
  evaluate_output, evaluate_outputs, label_output, verified_change, evaluate_signability,
  master_fingerprint, add_change,
}

-- The sum of the amounts, without a bound.
unfoldable pub amount_sum : List OutputInfo → ℕ
amount_sum [] = 0
amount_sum (o ∷ os) = o.amount_sat + amount_sum os

add_sat-small : (total amount : ℕ) → total + amount < 2 ^ 64 → add_sat total amount ≡ total + amount
add_sat-small total amount h = omega (arith, h)

add_change-bound :
    (l : OutputOwnership) (data_only : Bool) (total amount : ℕ)
    → total + amount < 2 ^ 64
    → add_change l data_only total amount ≤ total + amount
unfolding add_change
add_change-bound verified true total amount h = omega arith
add_change-bound verified false total amount h = omega (arith, add_sat-small total amount h)
add_change-bound third_party data_only total amount h = omega arith
add_change-bound claimed data_only total amount h = omega arith
add_change-bound unverifiable data_only total amount h = omega arith
add_change-bound mismatch data_only total amount h = omega arith

module _ (w : Wally) (key : w.Key) (our_fp : Bytes) where
  verified_change-bound :
      (outs : List OutputInfo) (os : List TxOut) (ps : List PsbtOutput) (total : ℕ)
      → total + amount_sum outs < 2 ^ 64
      → verified_change w key our_fp total os ps outs ≤ total + amount_sum outs
  unfolding verified_change amount_sum
  verified_change-bound outs [] ps total h = omega arith
  verified_change-bound outs (o ∷ os) [] total h = omega arith
  verified_change-bound [] (o ∷ os) (p ∷ ps) total h = omega arith
  verified_change-bound (out ∷ outs) (o ∷ os) (p ∷ ps) total h =
      let label = (evaluate_output w key our_fp o p out).ownership in
      let next = add_change label out.is_op_return total out.amount_sat in
      let b = add_change-bound label out.is_op_return total out.amount_sat (omega (arith, h)) in
      let r = verified_change-bound outs os ps next (omega (arith, h, b)) in omega (arith, b, r)

add_outputs-sum :
    (outs : List OutputInfo) (total : ℕ)
    → total + amount_sum outs < 2 ^ 64
    → add_outputs total outs ≡ total + amount_sum outs
unfolding add_outputs amount_sum
add_outputs-sum [] total h = omega arith
add_outputs-sum (o ∷ os) total h =
    let e = add_sat-small total o.amount_sat (omega (arith, h)) in
    let r = add_outputs-sum os (add_sat total o.amount_sat) (omega (arith, h, e)) in
    omega (arith, e, r)

unfoldable pub is_verified : OutputOwnership → Bool
is_verified verified = true
is_verified third_party = false
is_verified claimed = false
is_verified unverifiable = false
is_verified mismatch = false

-- The amounts of the outputs labelled as verified change, and of all others.
unfoldable pub verified_sum : List OutputInfo → ℕ
verified_sum [] = 0
verified_sum (o ∷ os) = (if is_verified o.ownership then o.amount_sat else 0) + verified_sum os

unfoldable pub other_sum : List OutputInfo → ℕ
other_sum [] = 0
other_sum (o ∷ os) = (if is_verified o.ownership then 0 else o.amount_sat) + other_sum os

verified_sum-other_sum : (os : List OutputInfo) → verified_sum os + other_sum os ≡ amount_sum os
unfolding verified_sum other_sum amount_sum
verified_sum-other_sum [] = refl
verified_sum-other_sum (o ∷ os) = elim (Bool-cases (is_verified o.ownership)) [
  | inl v ↦ rw v (omega (arith, verified_sum-other_sum os))
  | inr n ↦ rw n (omega (arith, verified_sum-other_sum os))
]

-- No output is called verified before a key is asked.
abbrev pub Unverified : OutputInfo → Type 0
Unverified o = is_verified o.ownership ≡ false

summed_none : (os : List OutputInfo) → All Unverified os → verified_sum os ≡ 0
unfolding verified_sum
summed_none [] h = refl
summed_none (o ∷ os) (ho, h) = rw ho (omega (arith, summed_none os h))

add_change-label :
    (l : OutputOwnership) (total amount : ℕ)
    → total + amount < 2 ^ 64
    → add_change l false total amount ≡ total + (if is_verified l then amount else 0)
unfolding add_change is_verified
add_change-label verified total amount h = add_sat-small total amount h
add_change-label third_party total amount h = omega arith
add_change-label claimed total amount h = omega arith
add_change-label unverifiable total amount h = omega arith
add_change-label mismatch total amount h = omega arith

add_change-unverified :
    (l : OutputOwnership) (data_only : Bool) (total amount : ℕ)
    → is_verified l ≡ false
    → add_change l data_only total amount ≡ total
unfolding add_change is_verified
add_change-unverified verified data_only total amount h = absurd (ground (arith, h))
add_change-unverified third_party data_only total amount h = refl
add_change-unverified claimed data_only total amount h = refl
add_change-unverified unverifiable data_only total amount h = refl
add_change-unverified mismatch data_only total amount h = refl

module _ (w : Wally) (key : w.Key) (our_fp : Bytes) where
  evaluated_amount :
      (o : TxOut) (po : PsbtOutput) (out : OutputInfo)
      → (evaluate_output w key our_fp o po out).amount_sat ≡ out.amount_sat
  unfolding evaluate_output label_output
  evaluated_amount o po out = elim (Bool-cases out.is_op_return) [
    | inl d ↦ rw (d, evaluate_output) refl
    | inr d ↦ rw (d, evaluate_output) refl
  ]

  -- What one output adds to the change.
  one_change :
      (o : TxOut) (po : PsbtOutput) (out : OutputInfo) (total : ℕ)
      → Unverified out
      → total + out.amount_sat < 2 ^ 64
      → add_change
          (evaluate_output w key our_fp o po out).ownership
          out.is_op_return
          total
          out.amount_sat
        ≡ total
          + (if is_verified (evaluate_output w key our_fp o po out).ownership
              then out.amount_sat
              else 0)
  unfolding evaluate_output
  one_change o po out total u h = elim (Bool-cases out.is_op_return) [
    | inl d ↦
        rw (d, evaluate_output, u)
          (add_change-unverified out.ownership true total out.amount_sat u ∙ omega arith)
    | inr d ↦ rw (d, evaluate_output) (add_change-label _ total out.amount_sat h)
  ]

  verified_change-sum :
      (outs : List OutputInfo) (os : List TxOut) (ps : List PsbtOutput) (total : ℕ)
      → All Unverified outs
      → total + amount_sum outs < 2 ^ 64
      → verified_change w key our_fp total os ps outs
        ≡ total + verified_sum (evaluate_outputs w key our_fp os ps outs)
  unfolding verified_change evaluate_outputs verified_sum amount_sum
  verified_change-sum outs [] ps total u h = omega (arith, summed_none outs u)
  verified_change-sum outs (o ∷ os) [] total u h = omega (arith, summed_none outs u)
  verified_change-sum [] (o ∷ os) (p ∷ ps) total u h = omega arith
  verified_change-sum (out ∷ outs) (o ∷ os) (p ∷ ps) total (u, us) h =
      let label = (evaluate_output w key our_fp o p out).ownership in
      let next = add_change label out.is_op_return total out.amount_sat in
      let step = one_change o p out total u (omega (arith, h)) in
      let b = add_change-bound label out.is_op_return total out.amount_sat (omega (arith, h)) in
      let r = verified_change-sum outs os ps next us (omega (arith, h, b)) in
      rw (evaluated_amount o p out) (omega (arith, step, r))

  evaluated_total :
      (outs : List OutputInfo) (os : List TxOut) (ps : List PsbtOutput)
      → amount_sum (evaluate_outputs w key our_fp os ps outs) ≡ amount_sum outs
  unfolding evaluate_outputs amount_sum
  evaluated_total outs [] ps = refl
  evaluated_total outs (o ∷ os) [] = refl
  evaluated_total [] (o ∷ os) (p ∷ ps) = refl
  evaluated_total (out ∷ outs) (o ∷ os) (p ∷ ps) =
      omega (arith, evaluated_amount o p out, evaluated_total outs os ps)

module _ (w : Wally) (network : Network) where
  claimed_output-Unverified :
      (claim : Option (Bytes × Bytes)) (o : TxOut) (addressed : Bytes × Bytes)
      → Unverified (claimed_output claim o addressed)
  unfolding is_verified
  claimed_output-Unverified none o addressed = refl
  claimed_output-Unverified (some entry) o addressed = refl

  output_info-Unverified :
      (o : TxOut) (po : Option PsbtOutput) → Unverified (output_info w network o po)
  unfolding output_info is_verified
  output_info-Unverified o po = elim (Bool-cases (is_op_return_script o.script)) [
    | inl d ↦ rw (d, output_info) refl
    | inr d ↦
        rw (d, output_info)
          (claimed_output-Unverified (claim_on w network po) o
            (address_for_script w network o.script))
  ]

  output_infos-Unverified :
      (os : List TxOut) (pos : List PsbtOutput) → All Unverified (output_infos w network os pos)
  unfolding output_infos
  output_infos-Unverified [] pos = tt
  output_infos-Unverified (o ∷ os) [] =
      (output_info-Unverified o none, output_infos-Unverified os [])
  output_infos-Unverified (o ∷ os) (p ∷ ps) =
      (output_info-Unverified o (some p), output_infos-Unverified os ps)

-- What the two sums of a summary stand for, against the summary before the key was asked.
pub record Balanced {F : Type 0} (before s : TxSummary F) : Type 0 where
  pub verified_shown : s.verified_change_sat ≡ verified_sum s.outputs
  pub others_shown : s.leaving_sat ≡ other_sum s.outputs
  pub all_shown : s.leaving_sat + s.verified_change_sat ≡ amount_sum before.outputs

-- With a key loaded, and where the amounts of the outputs of the file add up below 2 ^ 64: the sum
-- that is shown as verified change is the sum of the outputs that the summary labels as verified, the
-- sum that is shown as leaving is the sum of all the others, and together they are the total.
pub evaluate_signability-total :
    (w : Wally) (d : Double) (network : Network) (key : w.Key) (psbt : Psbt) (tx : Tx)
    → amount_sum (inspect w d network psbt tx).outputs < 2 ^ 64
    → Balanced
        (inspect w d network psbt tx)
        (evaluate_signability w (some key) psbt tx (inspect w d network psbt tx))
unfolding evaluate_signability inspect
evaluate_signability-total w d network key psbt tx h =
    let fp = master_fingerprint w (some key) in
    let outs = output_infos w network tx.outputs psbt.outputs in
    let change =
      verified_change-sum w key fp outs tx.outputs psbt.outputs 0
        (output_infos-Unverified w network tx.outputs psbt.outputs) (omega (arith, h)) in
    let b = verified_change-bound w key fp outs tx.outputs psbt.outputs 0 (omega (arith, h)) in
    let total = add_outputs-sum outs 0 (omega (arith, h)) in
    let split = verified_sum-other_sum (evaluate_outputs w key fp tx.outputs psbt.outputs outs) in
    let kept = evaluated_total w key fp outs tx.outputs psbt.outputs in
    record {
      verified_shown = omega (arith, change);
      others_shown = omega (arith, change, total, split, kept);
      all_shown = omega (arith, b, total);
    }
