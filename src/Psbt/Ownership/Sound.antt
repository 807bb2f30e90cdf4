-- ===== src/Psbt/Ownership/Sound.antt =====
-- What it takes for an output to be called verified.
use signeros.Base.{
  ◌≡◌, inl, inr, refl, ap, ◌∙◌, Bool, true, false, ◌&&◌, Option, none, some, arith, Bytes, ltb,
  ◌==◌, if◌then◌else◌, length, Bool-cases,
}
use signeros.Base.Equal.{bytes_eq, bytes_eq→eq, occurs_sound, Contains}
use signeros.Psbt.Wally.{
  Scripts, ScriptType, p2pkh, p2sh, p2wpkh, p2wsh, p2tr, multisig, op_return, unknown,
}
use signeros.Psbt.Ownership.{
  OutputOwnership, verified, same_script, contains_bytes, wsh_ownership, bare_sh_ownership,
  redeem_is_program, nested_ownership, sh_ownership, ownership_of_type, ownership_for_script,
  is_witness_v0_sh,
}

-- How the key `k` can be tied to the output script `spk`: the script is the one that the key
-- builds, or a hash of a script that names the key.
module _ (w : Scripts) (k : Bytes) where
  pub data Controls (spk : Bytes) (redeem witness : Option Bytes) : Type 0 where
    pkh : w.p2pkh_from_key k ≡ some spk → Controls spk redeem witness
    wpkh : w.p2wpkh_from_key k ≡ some spk → Controls spk redeem witness
    tr : w.p2tr_from_key k ≡ some spk → Controls spk redeem witness
    wsh :
        (ws : Bytes)
        → witness ≡ some ws
        → w.p2wsh_of_script ws ≡ some spk
        → Contains ws k
        → Controls spk redeem witness
    sh_wpkh :
        (wp : Bytes)
        → w.p2wpkh_from_key k ≡ some wp
        → w.p2sh_of_script wp ≡ some spk
        → Controls spk redeem witness
    sh_wsh :
        (rs ws : Bytes)
        → redeem ≡ some rs
        → witness ≡ some ws
        → w.p2sh_of_script rs ≡ some spk
        → w.p2wsh_of_script ws ≡ some rs
        → Contains ws k
        → Controls spk redeem witness
    sh :
        (rs : Bytes)
        → redeem ≡ some rs
        → w.p2sh_of_script rs ≡ some spk
        → Contains rs k
        → Controls spk redeem witness

pub same_script_sound : (a : Option Bytes) (b : Bytes) → same_script a b ≡ true → a ≡ some b
unfolding same_script
same_script_sound none b h = cc
same_script_sound (some a) b h = elim (Bool-cases (ltb 0 (length a))) [
  | inl p ↦ ap some (bytes_eq→eq a b (ground (arith, h, p)))
  | inr p ↦ absurd (impossible _ _ p h)
]
  where
    impossible : (p q : Bool) → p ≡ false → (p && q) ≡ true → ⊥
    impossible p q u v = ground arith

contains_bytes_sound : (h needle : Bytes) → contains_bytes h needle ≡ true → Contains h needle
unfolding contains_bytes
contains_bytes_sound h needle e = occurs_sound needle h (ground (arith, e))

module _ (w : Scripts) (k spk : Bytes) where
  wsh_sound :
      (redeem witness : Option Bytes)
      → wsh_ownership w k spk witness ≡ verified
      → Controls w k spk redeem witness
  unfolding wsh_ownership
  wsh_sound redeem none h = cc
  wsh_sound redeem (some ws) h = elim (Bool-cases (same_script (w.p2wsh_of_script ws) spk)) [
    | inl p ↦ elim (Bool-cases (contains_bytes ws k)) [
      | inl q ↦ wsh ws refl (same_script_sound _ spk p) (contains_bytes_sound ws k q)
      | inr q ↦ absurd (ground (arith, h, p, q))
    ]
    | inr p ↦ absurd (ground (arith, h, p))
  ]

  bare_sound :
      (witness : Option Bytes)
      → bare_sh_ownership w k spk ≡ verified
      → Controls w k spk none witness
  unfolding bare_sh_ownership
  bare_sound witness h = go (w.p2wpkh_from_key k) refl
    where
      go : (o : Option Bytes) → w.p2wpkh_from_key k ≡ o → Controls w k spk none witness
      go none e = absurd (ground (arith, h, e))
      go (some wp) e = elim (Bool-cases (same_script (w.p2sh_of_script wp) spk)) [
        | inl p ↦ sh_wpkh wp e (same_script_sound _ spk p)
        | inr p ↦ absurd (ground (arith, h, e, p))
      ]

  program_sound : (rs : Bytes) → redeem_is_program w k rs ≡ true → w.p2wpkh_from_key k ≡ some rs
  unfolding redeem_is_program
  program_sound rs h = go (w.p2wpkh_from_key k) refl
    where
      go : (o : Option Bytes) → w.p2wpkh_from_key k ≡ o → w.p2wpkh_from_key k ≡ some rs
      go none e = absurd (ground (arith, h, e))
      go (some wp) e = e ∙ ap some (bytes_eq→eq wp rs (ground (arith, h, e)))

  nested_sound :
      (rs : Bytes) (witness : Option Bytes)
      → nested_ownership w k rs witness ≡ verified
      → (ws : Bytes) × (witness ≡ some ws) × (w.p2wsh_of_script ws ≡ some rs) × Contains ws k
  unfolding nested_ownership
  nested_sound rs none h = cc
  nested_sound rs (some ws) h = go (w.p2wsh_of_script ws) refl
    where
      go :
          (o : Option Bytes)
          → w.p2wsh_of_script ws ≡ o
          → (ws' : Bytes) × (some ws ≡ some ws')
            × (w.p2wsh_of_script ws' ≡ some rs)
            × Contains ws' k
      go none e = absurd (ground (arith, h, e))
      go (some prog) e = elim (Bool-cases (bytes_eq prog rs)) [
        | inl p ↦ elim (Bool-cases (contains_bytes ws k)) [
          | inl q ↦ (ws, refl, e ∙ ap some (bytes_eq→eq prog rs p), contains_bytes_sound ws k q)
          | inr q ↦ absurd (ground (arith, h, e, p, q))
        ]
        | inr p ↦ absurd (ground (arith, h, e, p))
      ]

  sh_sound :
      (rs : Bytes) (witness : Option Bytes)
      → sh_ownership w k spk rs witness ≡ verified
      → Controls w k spk (some rs) witness
  unfolding sh_ownership
  sh_sound rs witness h = elim (Bool-cases (same_script (w.p2sh_of_script rs) spk)) [
    | inr p ↦ absurd (ground (arith, h, p))
    | inl p ↦ elim (Bool-cases (redeem_is_program w k rs)) [
      | inl q ↦ sh_wpkh rs (program_sound rs q) (same_script_sound _ spk p)
      | inr q ↦ elim (Bool-cases (is_witness_v0_sh rs)) [
        | inl n ↦
            let (ws, ew, ep, c) = nested_sound rs witness (ground (arith, h, p, q, n)) in
            sh_wsh rs ws refl ew (same_script_sound _ spk p) ep c
        | inr n ↦ elim (Bool-cases (contains_bytes rs k)) [
          | inl c ↦ sh rs refl (same_script_sound _ spk p) (contains_bytes_sound rs k c)
          | inr c ↦ absurd (ground (arith, h, p, q, n, c))
        ]
      ]
    ]
  ]

  tree_not_verified :
      (b has_tree : Bool)
      → (if b
          then verified
          else (if has_tree then OutputOwnership.unverifiable else OutputOwnership.mismatch))
        ≡ verified
      → b ≡ true
  tree_not_verified true has_tree h = refl
  tree_not_verified false true h = cc
  tree_not_verified false false h = cc

  of_type_sound :
      (t : ScriptType) (redeem witness : Option Bytes) (has_tree : Bool)
      → ownership_of_type w t k spk redeem witness has_tree ≡ verified
      → Controls w k spk redeem witness
  unfolding ownership_of_type
  of_type_sound p2pkh redeem witness has_tree h = pkh (same_script_sound _ spk (ground (arith, h)))
  of_type_sound p2wpkh redeem witness has_tree h =
      wpkh (same_script_sound _ spk (ground (arith, h)))
  of_type_sound p2tr redeem witness has_tree h =
      tr (same_script_sound _ spk (tree_not_verified _ has_tree h))
  of_type_sound p2wsh redeem witness has_tree h = wsh_sound redeem witness h
  of_type_sound p2sh none witness has_tree h = bare_sound witness h
  of_type_sound p2sh (some rs) witness has_tree h = sh_sound rs witness h
  of_type_sound multisig redeem witness has_tree h = cc
  of_type_sound op_return redeem witness has_tree h = cc
  of_type_sound unknown redeem witness has_tree h = cc

-- An output is called verified only if the derived key builds its script, byte for byte, or the
-- script is the hash of a script that names that key.
pub ownership_for_script-Controls :
    (w : Scripts) (k spk redeem witness : Option Bytes) (has_tree : Bool)
    → ownership_for_script w k spk redeem witness has_tree ≡ verified
    → (key : Bytes) × (script : Bytes) × (k ≡ some key)
      × (spk ≡ some script)
      × Controls w key script redeem witness
unfolding ownership_for_script
ownership_for_script-Controls w none spk redeem witness has_tree h = cc
ownership_for_script-Controls w (some key) none redeem witness has_tree h = cc
ownership_for_script-Controls w (some key) (some script) redeem witness has_tree h =
    elim (Bool-cases (length script == 0)) [
      | inl p ↦ absurd (ground (arith, h, p))
      | inr p ↦ (
        key,
        script,
        refl,
        refl,
        of_type_sound w key script (w.script_type script) redeem witness has_tree
            (ground (arith, h, p)),
      )
    ]
