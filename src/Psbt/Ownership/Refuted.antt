-- ===== src/Psbt/Ownership/Refuted.antt =====
-- The scripts that `ownershipForScript` shows to be none of the key's.
use signeros.Base.{
  ◌<◌, ◌≡◌, ◌≢◌, inl, inr, refl, ◌∙◌, Bool, false, Option, some, Bytes, arith, ◌==◌, length,
  Bool-cases, if_false,
}
use signeros.Psbt.Wally.{Scripts, p2pkh, p2sh, p2wpkh, p2wsh, p2tr}
use signeros.Psbt.Ownership.{
  mismatch, same_script, wsh_ownership, sh_ownership, ownership_of_type, ownership_for_script,
}
use signeros.Psbt.Ownership.Sound.{same_script_sound}

same_script_other : (a : Option Bytes) (b : Bytes) → a ≢ some b → same_script a b ≡ false
same_script_other a b ne = elim (Bool-cases (same_script a b)) [
  | inl h ↦ absurd (ne (same_script_sound a b h))
  | inr h ↦ h
]

module _ (w : Scripts) (k spk : Bytes) where
  -- The script is another one than what the key, or the script that the file states, makes.
  pub data Denies (redeem witness : Option Bytes) (has_leaves : Bool) : Type 0 where
    pkh :
        w.script_type spk ≡ p2pkh → w.p2pkh_from_key k ≢ some spk → Denies redeem witness has_leaves
    wpkh :
        w.script_type spk ≡ p2wpkh
        → w.p2wpkh_from_key k ≢ some spk
        → Denies redeem witness has_leaves
    tr :
        w.script_type spk ≡ p2tr
        → has_leaves ≡ false
        → w.p2tr_from_key k ≢ some spk
        → Denies redeem witness has_leaves
    wsh :
        (ws : Bytes)
        → w.script_type spk ≡ p2wsh
        → witness ≡ some ws
        → w.p2wsh_of_script ws ≢ some spk
        → Denies redeem witness has_leaves
    sh :
        (rs : Bytes)
        → w.script_type spk ≡ p2sh
        → redeem ≡ some rs
        → w.p2sh_of_script rs ≢ some spk
        → Denies redeem witness has_leaves

  of_type-Denies :
      (redeem witness : Option Bytes) (has_leaves : Bool)
      → Denies redeem witness has_leaves
      → ownership_of_type w (w.script_type spk) k spk redeem witness has_leaves ≡ mismatch
  unfolding ownership_of_type wsh_ownership sh_ownership
  of_type-Denies redeem witness has_leaves (pkh t ne) =
      rw (t, ownership_of_type, same_script_other (w.p2pkh_from_key k) spk ne) refl
  of_type-Denies redeem witness has_leaves (wpkh t ne) =
      rw (t, ownership_of_type, same_script_other (w.p2wpkh_from_key k) spk ne) refl
  of_type-Denies redeem witness has_leaves (tr t bare ne) =
      rw (t, ownership_of_type, same_script_other (w.p2tr_from_key k) spk ne, bare) refl
  of_type-Denies redeem witness has_leaves (wsh ws t there ne) =
      rw
        (
          t,
          there,
          ownership_of_type,
          wsh_ownership,
          same_script_other (w.p2wsh_of_script ws) spk ne,
        )
        refl
  of_type-Denies redeem witness has_leaves (sh rs t there ne) =
      rw (t, there, ownership_of_type, sh_ownership, same_script_other (w.p2sh_of_script rs) spk ne)
        refl

  pub ownership_for_script-Denies :
      (redeem witness : Option Bytes) (has_leaves : Bool)
      → 0 < length spk
      → Denies redeem witness has_leaves
      → ownership_for_script w (some k) (some spk) redeem witness has_leaves ≡ mismatch
  unfolding ownership_for_script
  ownership_for_script-Denies redeem witness has_leaves filled h =
      if_false {b = length spk == 0} _ _ (ground (arith, filled))
      ∙ of_type-Denies redeem witness has_leaves h
