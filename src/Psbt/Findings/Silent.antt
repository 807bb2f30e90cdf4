-- ===== src/Psbt/Findings/Silent.antt =====
-- The stages of `deriveFindings` that only add messages, and those that refuse with a reason.
use signeros.Base.{
  ℕ, suc, ◌≡◌, refl, sym, ap, ◌∙◌, Bool, true, false, not, ◌&&◌, Option, none, some, List, [], ◌∷◌,
  Bytes, ltb, if◌then◌else◌,
}
use signeros.Psbt.Wally.{Double}
use signeros.Psbt.Summary.{
  InputInfo, OutputInfo, TxSummary, Severity, Message, Reason, danger, warning, very_high_rate,
  high_rate, low_rate,
}
use signeros.Psbt.Findings.{
  Verdict, add, block, add_if, block_if, first_reason, check_fee_share, check_fee_rate, check_fee,
  check_sighashes, note_inputs, check_signable, check_branch, check_account, check_branches,
}

-- A refusal has a reason, and only a refusal.
abbrev pub is_none : Option Reason → Bool
is_none none = true
is_none (some r) = false

abbrev pub Explained : Verdict → Type 0
Explained v = v.safe ≡ is_none v.reason

pub add_if-safe :
    (c : Bool) (s : Severity) (m : Message) (v : Verdict) → (add_if c s m v).safe ≡ v.safe
unfolding add_if add
add_if-safe true s m v = refl
add_if-safe false s m v = refl

pub add_if-reason :
    (c : Bool) (s : Severity) (m : Message) (v : Verdict) → (add_if c s m v).reason ≡ v.reason
unfolding add_if add
add_if-reason true s m v = refl
add_if-reason false s m v = refl

pub block_if-safe :
    (c : Bool) (r : Reason) (m : Message) (v : Verdict)
    → (block_if c r m v).safe ≡ (not c && v.safe)
unfolding block_if block
block_if-safe true r m v = refl
block_if-safe false r m v = refl

pub add_if-Explained :
    (c : Bool) (s : Severity) (m : Message) (v : Verdict) → Explained v → Explained (add_if c s m v)
unfolding add_if add
add_if-Explained true s m v e = e
add_if-Explained false s m v e = e

pub block-Explained :
    (r : Reason) (m : Message) (v : Verdict) → Explained v → Explained (block r m v)
unfolding block
block-Explained r m v e = blocked v.reason
  where
    blocked : (o : Option Reason) → false ≡ is_none (first_reason o r)
    blocked none = refl
    blocked (some old) = refl

pub block_if-Explained :
    (c : Bool) (r : Reason) (m : Message) (v : Verdict) → Explained v → Explained (block_if c r m v)
unfolding block_if
block_if-Explained true r m v e = block-Explained r m v e
block_if-Explained false r m v e = e

-- A stage that only adds messages.
pub record Silent (f : Verdict → Verdict) : Type 0 where
  pub same_safe : (v : Verdict) → (f v).safe ≡ v.safe
  pub same_reason : (v : Verdict) → (f v).reason ≡ v.reason

pub add-Silent : (s : Severity) (m : Message) → Silent (add s m)
unfolding add
add-Silent s m = record { same_safe = λ v. refl; same_reason = λ v. refl }

pub add_if-Silent : (c : Bool) (s : Severity) (m : Message) → Silent (add_if c s m)
add_if-Silent c s m = record { same_safe = add_if-safe c s m; same_reason = add_if-reason c s m }

pub if-Silent :
    (c : Bool) (f g : Verdict → Verdict)
    → Silent f
    → Silent g
    → Silent (λ v. if c then f v else g v)
if-Silent true f g p q = p
if-Silent false f g p q = q

pub after-Silent : (f g : Verdict → Verdict) → Silent f → Silent g → Silent (λ v. f (g v))
after-Silent f g p q = record {
  same_safe = λ v. p.same_safe (g v) ∙ q.same_safe v;
  same_reason = λ v. p.same_reason (g v) ∙ q.same_reason v;
}

pub id-Silent : Silent (λ v. v)
id-Silent = record { same_safe = λ v. refl; same_reason = λ v. refl }

pub Silent-Explained :
    {f : Verdict → Verdict} → Silent f → (v : Verdict) → Explained v → Explained (f v)
Silent-Explained p v e = p.same_safe v ∙ e ∙ ap is_none (sym (p.same_reason v))

pub check_fee_share-Silent : (d : Double) (fee total : ℕ) → Silent (check_fee_share d fee total)
unfolding check_fee_share
check_fee_share-Silent d fee total = if-Silent _ _ _ (add-Silent _ _) (add_if-Silent _ _ _)

pub check_fee_rate-Silent : (d : Double) (rate : d.F) → Silent (check_fee_rate d rate)
unfolding check_fee_rate
check_fee_rate-Silent d rate =
    let low = d.lt (d.from_nat 0) rate && d.lt rate (d.from_nat 1) in
    if-Silent (d.lt (d.from_nat 1000) rate) (add danger very_high_rate)
      (λ v.
        if d.lt (d.from_nat 100) rate
        then add warning high_rate v
        else add_if low warning low_rate v)
      (add-Silent danger very_high_rate)
      (if-Silent (d.lt (d.from_nat 100) rate) (add warning high_rate) (add_if low warning low_rate)
        (add-Silent warning high_rate) (add_if-Silent low warning low_rate))

pub check_fee-Silent : (d : Double) (s : TxSummary d.F) → Silent (check_fee d s)
unfolding check_fee
check_fee-Silent d s =
    if-Silent _ _ _
      (after-Silent _ _ (check_fee_rate-Silent d s.fee_rate) (
        after-Silent
          (λ v. if ltb 0 s.total_in_sat then check_fee_share d s.fee_sat s.total_in_sat v else v) _
          (if-Silent _ _ _ (check_fee_share-Silent d _ _) id-Silent) (add_if-Silent _ _ _)))
      id-Silent

pub check_sighashes-Silent : (is : List InputInfo) (n : ℕ) → Silent (check_sighashes n is)
unfolding check_sighashes
check_sighashes-Silent [] n = id-Silent
check_sighashes-Silent (i ∷ is) n =
    after-Silent _ _ (check_sighashes-Silent is (suc n))
      (if-Silent _ _ _ id-Silent (add-Silent _ _))

pub note_inputs-Silent : {F : Type 0} (s : TxSummary F) → Silent (note_inputs s)
unfolding note_inputs
note_inputs-Silent s = after-Silent _ _ (add_if-Silent _ _ _) (
    after-Silent _ _ (add_if-Silent _ _ _) (
      after-Silent _ _ (add_if-Silent _ _ _)
        (after-Silent _ _ (add_if-Silent _ _ _) (add_if-Silent _ _ _))))

pub check_signable-Silent :
    {F : Type 0} (fp : Bytes) (s : TxSummary F) → Silent (check_signable fp s)
unfolding check_signable
check_signable-Silent fp s = if-Silent _ _ _ (add-Silent _ _) (add_if-Silent _ _ _)

pub check_branches-Silent :
    (os : List OutputInfo) (n : ℕ) (accounts : List Bytes) → Silent (check_branches n accounts os)
unfolding check_branches check_branch check_account
check_branches-Silent [] n accounts = id-Silent
check_branches-Silent (o ∷ os) n accounts =
    after-Silent _ _ (check_branches-Silent os (suc n) accounts)
      (if-Silent _ _ _ id-Silent (after-Silent _ _ (add_if-Silent _ _ _) (add_if-Silent _ _ _)))
