-- ===== src/Psbt/Signability/Honest.antt =====
-- What a summary without a forged change label says of the file: a keypath that names us and a script
-- that the key denies do not go together, but where another entry proves the output ours.
use signeros.Base.{ℕ, ◌<◌, ◌≡◌, ◌⊎◌, true, false, Option, some, List, [], ◌∷◌, Bytes, ltb, length}
use signeros.Psbt.Wally.{Wally, Keypath, PsbtOutput, TxOut}
use signeros.Psbt.Ownership.Refuted.{Denies}
use signeros.Psbt.Inspect.{keypath_entry, keypath_elements, psbt_field, is_op_return_script}
use signeros.Psbt.Signability.{Tally}
use signeros.Psbt.Signability.Labels.{Entry, Evidence}

-- The label is decided: verified or mismatch.
abbrev Settled : Tally → Type 0
Settled t = (t.any_verified ≡ true) ⊎ (t.any_mismatch ≡ true)

module _ (w : Wally) (key : w.Key) (our_fp : Bytes) where
  -- An entry that names our master, whose derived key the script denies.
  pub record Forged (spk : Option Bytes) (po : PsbtOutput) (kp : Keypath) : Type 0 where
    pub path : Bytes
    pub elements : List ℕ
    pub pub_key : Bytes
    pub script : Bytes
    pub names_us : keypath_entry w kp ≡ some (our_fp, path)
    pub has_elements : keypath_elements kp ≡ some elements
    pub derived : w.derive_public key elements ≡ some pub_key
    pub has_script : spk ≡ some script
    pub filled : 0 < length script
    pub denied :
        Denies w.scripts pub_key script
          (psbt_field po.redeem_script)
          (psbt_field po.witness_script)
          (ltb 0 po.taproot_tree)

  abbrev pub InOutput : Keypath → PsbtOutput → Type 0
  InOutput kp po = Entry kp po.keypaths ⊎ Entry kp po.taproot_leaf_paths

  -- Where an entry of the output is forged, another entry proves that the output is ours.
  pub HonestOutput : TxOut → PsbtOutput → Type 0
  HonestOutput o po =
      (kp : Keypath)
      → InOutput kp po
      → Forged o.script po kp
      → (kp' : Keypath) × InOutput kp' po × Evidence w key our_fp o.script po kp'

  -- Every output of the transaction that has an entry in the file, but those that carry data.
  pub HonestOutputs : List TxOut → List PsbtOutput → Type 0
  HonestOutputs [] pos = Unit
  HonestOutputs (o ∷ os) [] = Unit
  HonestOutputs (o ∷ os) (po ∷ pos) =
      (is_op_return_script o.script ≡ false → HonestOutput o po) × HonestOutputs os pos
