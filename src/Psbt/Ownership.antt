-- ===== src/Psbt/Ownership.antt =====
-- `ownershipForScript` of src/btc_signer_gui/src/core/psbt_engine.cpp: what an output script really
-- is, given a public key that this device derived itself.
pub mod Sound
pub mod Refuted
use signeros.Base.{
  ℕ, Bool, true, false, ◌&&◌, ◌||◌, Option, none, some, [], ◌∷◌, Bytes, ltb, ◌==◌, if◌then◌else◌,
  length, get_or,
}
use signeros.Base.Equal.{bytes_eq, occurs}
use signeros.Psbt.Wally.{
  Scripts, ScriptType, p2pkh, p2sh, p2wpkh, p2wsh, p2tr, multisig, op_return, unknown,
}

-- `enum class OutputOwnership`
pub data OutputOwnership : Type 0 where
  third_party claimed verified unverifiable mismatch : OutputOwnership

-- `sameScript`; a `BuiltScript` is `none` where it is not `ok`.
unfoldable pub same_script : Option Bytes → Bytes → Bool
same_script none b = false
same_script (some a) b = ltb 0 (length a) && bytes_eq a b

unfoldable pub contains_bytes : Bytes → Bytes → Bool
contains_bytes h needle =
    if length needle == 0 || ltb (length h) (length needle) then false else occurs needle h

-- `is (redeem->value_len == 34 && value[0] == 0x00 && value[1] == 0x20)`
unfoldable pub is_witness_v0_sh : Bytes → Bool
is_witness_v0_sh s = length s == 34 && get_or s 0 0 == 0 && get_or s 1 0 == 0x20

abbrev pub verified_if : Bool → OutputOwnership → OutputOwnership
verified_if b other = if b then verified else other

module _ (w : Scripts) where
  -- The branch of a witness script hash.
  unfoldable pub wsh_ownership : Bytes → Bytes → Option Bytes → OutputOwnership
  wsh_ownership pub_key spk none = unverifiable
  wsh_ownership pub_key spk (some ws) =
      if same_script (w.p2wsh_of_script ws) spk
      then verified_if (contains_bytes ws pub_key) mismatch
      else mismatch

  -- A script hash whose redeem script the file leaves out.
  unfoldable pub bare_sh_ownership : Bytes → Bytes → OutputOwnership
  bare_sh_ownership pub_key spk = elim (w.p2wpkh_from_key pub_key) [
    | none ↦ unverifiable
    | some wp ↦ verified_if (same_script (w.p2sh_of_script wp) spk) unverifiable
  ]

  -- `p2sh-p2wpkh`: the redeem script is the witness program of the key.
  unfoldable pub redeem_is_program : Bytes → Bytes → Bool
  redeem_is_program pub_key rs = elim (w.p2wpkh_from_key pub_key) [
    | none ↦ false
    | some wp ↦ bytes_eq wp rs
  ]

  -- `p2sh-p2wsh`: the redeem script is the program of a witness script that names the key.
  unfoldable pub nested_ownership : Bytes → Bytes → Option Bytes → OutputOwnership
  nested_ownership pub_key rs none = unverifiable
  nested_ownership pub_key rs (some ws) = elim (w.p2wsh_of_script ws) [
    | none ↦ mismatch
    | some prog ↦
        if bytes_eq prog rs then verified_if (contains_bytes ws pub_key) mismatch else mismatch
  ]

  -- A script hash with the redeem script `rs`.
  unfoldable pub sh_ownership : Bytes → Bytes → Bytes → Option Bytes → OutputOwnership
  sh_ownership pub_key spk rs witness =
      if same_script (w.p2sh_of_script rs) spk
      then if redeem_is_program pub_key rs
        then verified
        else if is_witness_v0_sh rs
        then nested_ownership pub_key rs witness
        else verified_if (contains_bytes rs pub_key) mismatch
      else mismatch

  unfoldable pub ownership_of_type :
      ScriptType → Bytes → Bytes → Option Bytes → Option Bytes → Bool → OutputOwnership
  ownership_of_type p2pkh pub_key spk redeem witness has_tree =
      verified_if (same_script (w.p2pkh_from_key pub_key) spk) mismatch
  ownership_of_type p2wpkh pub_key spk redeem witness has_tree =
      verified_if (same_script (w.p2wpkh_from_key pub_key) spk) mismatch
  ownership_of_type p2tr pub_key spk redeem witness has_tree =
      verified_if (same_script (w.p2tr_from_key pub_key) spk)
        (if has_tree then unverifiable else mismatch)
  ownership_of_type p2wsh pub_key spk redeem witness has_tree = wsh_ownership pub_key spk witness
  ownership_of_type p2sh pub_key spk none witness has_tree = bare_sh_ownership pub_key spk
  ownership_of_type p2sh pub_key spk (some rs) witness has_tree =
      sh_ownership pub_key spk rs witness
  ownership_of_type multisig pub_key spk redeem witness has_tree = unverifiable
  ownership_of_type op_return pub_key spk redeem witness has_tree = unverifiable
  ownership_of_type unknown pub_key spk redeem witness has_tree = unverifiable

  -- `ownershipForScript`
  unfoldable pub ownership_for_script :
      Option Bytes → Option Bytes → Option Bytes → Option Bytes → Bool → OutputOwnership
  ownership_for_script none spk redeem witness has_tree = unverifiable
  ownership_for_script (some pub_key) none redeem witness has_tree = unverifiable
  ownership_for_script (some pub_key) (some spk) redeem witness has_tree =
      if length spk == 0
      then unverifiable
      else ownership_of_type (w.script_type spk) pub_key spk redeem witness has_tree
