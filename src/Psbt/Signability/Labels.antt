-- ===== src/Psbt/Signability/Labels.antt =====
-- What stands behind a label: an output is called change only on the proof of its script.
use signeros.Base.{
  ℕ, ◌≡◌, ◌⊎◌, inl, inr, refl, ap, subst, ◌∙◌, Bool, true, false, Option, some, List, [], ◌∷◌,
  arith, Bytes, ltb, if◌then◌else◌, Bool-cases, Option-cases,
}
use signeros.Base.Equal.{bytes_eq, bytes_eq→eq}
use signeros.Psbt.Wally.{Wally, Keypath, PsbtOutput, TxOut}
use signeros.Psbt.Ownership.{
  OutputOwnership, third_party, claimed, verified, unverifiable, mismatch, ownership_for_script,
}
use signeros.Psbt.Ownership.Sound.{Controls, ownership_for_script-Controls}
use signeros.Psbt.Summary.{OutputInfo}
use signeros.Psbt.Inspect.{keypath_entry, keypath_elements, psbt_field}
use signeros.Psbt.Signability.{
  Tally, no_tally, record_verdict, cannot_tell, tally_ownership, try_derivation, try_keypath,
  try_keypaths, output_tally, label_output, evaluate_output,
}

-- `kp` is an entry of `kps`.
pub data Entry (kp : Keypath) : List Keypath → Type 0 where
  here : {kps : List Keypath} → Entry kp (kp ∷ kps)
  there : {other : Keypath} {kps : List Keypath} → Entry kp kps → Entry kp (other ∷ kps)

module _ (w : Wally) (key : w.Key) (our_fp : Bytes) where
  -- The evidence for one output: a keypath entry with our fingerprint, the public key that our
  -- master derives along its path, and that this key controls the script.
  pub record Evidence (spk : Option Bytes) (po : PsbtOutput) (kp : Keypath) : Type 0 where
    pub path : Bytes
    pub elements : List ℕ
    pub pub_key : Bytes
    pub script : Bytes
    pub names_us : keypath_entry w kp ≡ some (our_fp, path)
    pub has_elements : keypath_elements kp ≡ some elements
    pub derived : w.derive_public key elements ≡ some pub_key
    pub has_script : spk ≡ some script
    pub controlled :
        Controls w.scripts pub_key script
          (psbt_field po.redeem_script)
          (psbt_field po.witness_script)

  module _ (spk : Option Bytes) (po : PsbtOutput) where
    record_verdict-verified :
        (l : OutputOwnership) (fp path : Bytes) (t : Tally)
        → (record_verdict l fp path t).any_verified ≡ true
        → t.any_verified ≡ false
        → l ≡ verified
    unfolding record_verdict
    record_verdict-verified third_party fp path t h n = absurd (ground (arith, h, n))
    record_verdict-verified claimed fp path t h n = absurd (ground (arith, h, n))
    record_verdict-verified verified fp path t h n = refl
    record_verdict-verified unverifiable fp path t h n = absurd (ground (arith, h, n))
    record_verdict-verified mismatch fp path t h n = absurd (ground (arith, h, n))

    try_derivation-Evidence :
        (kp : Keypath) (fp path : Bytes) (t : Tally)
        → keypath_entry w kp ≡ some (our_fp, path)
        → t.any_verified ≡ false
        → (try_derivation w key our_fp spk po kp fp path t).any_verified ≡ true
        → Evidence spk po kp
    unfolding try_derivation cannot_tell
    try_derivation-Evidence kp fp path t e n h = elim (Option-cases (keypath_elements kp)) [
      | inl p ↦ absurd (ground (arith, h, n, p))
      | inr (es, p) ↦ elim (Option-cases (w.derive_public key es)) [
        | inl q ↦ absurd (ground (arith, h, n, p, q))
        | inr (k, q) ↦
            let tree = ltb 0 po.taproot_tree in
            let v : ownership_for_script w.scripts (some k) spk (psbt_field po.redeem_script)
                  (psbt_field po.witness_script) tree
                ≡ verified =
              record_verdict-verified _ fp path t (ground (arith, h, p, q)) n in
            let (pub_key, script, ek, es', c) =
              ownership_for_script-Controls w.scripts (some k) spk (psbt_field po.redeem_script)
                (psbt_field po.witness_script) tree v in
            record {
              path = path;
              elements = es;
              pub_key = pub_key;
              script = script;
              names_us = e;
              has_elements = p;
              derived = q ∙ ek;
              has_script = es';
              controlled = c;
            }
      ]
    ]

    try_keypath-Evidence :
        (kp : Keypath) (t : Tally)
        → (try_keypath w key our_fp spk po kp t).any_verified ≡ true
        → (t.any_verified ≡ true) ⊎ Evidence spk po kp
    unfolding try_keypath
    try_keypath-Evidence kp t h = elim (Bool-cases t.any_verified) [
      | inl v ↦ inl v
      | inr v ↦ elim (Option-cases (keypath_entry w kp)) [
        | inl p ↦ absurd (ground (arith, h, v, p))
        | inr ((fp, path), p) ↦ elim (Bool-cases (bytes_eq fp our_fp)) [
          | inl b ↦ inr (
              try_derivation-Evidence kp fp path t
                (p ∙ ap (λ x. some (x, path)) (bytes_eq→eq fp our_fp b)) v
                (ground (arith, h, v, p, b)))
          | inr b ↦ absurd (ground (arith, h, v, p, b))
        ]
      ]
    ]

    try_keypaths-Evidence :
        (kps : List Keypath) (t : Tally)
        → (try_keypaths w key our_fp spk po kps t).any_verified ≡ true
        → (t.any_verified ≡ true) ⊎ ((kp : Keypath) × Entry kp kps × Evidence spk po kp)
    unfolding try_keypaths
    try_keypaths-Evidence [] t h = inl h
    try_keypaths-Evidence (kp ∷ kps) t h =
        elim (try_keypaths-Evidence kps (try_keypath w key our_fp spk po kp t) h) [
          | inr (kp', at, e) ↦ inr (kp', there at, e)
          | inl v ↦ elim (try_keypath-Evidence kp t v) [ inl u ↦ inl u | inr e ↦ inr (kp, here, e) ]
        ]

  tally_ownership-verified : (t : Tally) → tally_ownership t ≡ verified → t.any_verified ≡ true
  unfolding tally_ownership
  tally_ownership-verified t h = by_flags t.any_verified t.any_mismatch t.any_unverifiable h
    where
      by_flags :
          (a b c : Bool)
          → (if a
              then verified
              else if b
              then mismatch
              else if c
              then unverifiable
              else third_party)
            ≡ verified
          → a ≡ true
      by_flags true b c e = refl
      by_flags false true c e = absurd (ground (arith, e))
      by_flags false false true e = absurd (ground (arith, e))
      by_flags false false false e = absurd (ground (arith, e))

  -- With a key loaded, an output is called verified change only if one of its keypath entries, in
  -- either map, names our fingerprint, and the public key that our master derives along the path of
  -- that entry controls the script of the output.
  pub evaluate_output-Evidence :
      (o : TxOut) (po : PsbtOutput) (out : OutputInfo)
      → out.is_op_return ≡ false
      → (evaluate_output w key our_fp o po out).ownership ≡ verified
      → (kp : Keypath) × (Entry kp po.keypaths ⊎ Entry kp po.taproot_leaf_paths)
        × Evidence o.script po kp
  unfolding evaluate_output label_output output_tally
  evaluate_output-Evidence o po out data_free h =
      elim (try_keypaths-Evidence o.script po po.taproot_leaf_paths
        (try_keypaths w key our_fp o.script po po.keypaths no_tally)
        (tally_ownership-verified _ (
          subst
            (λ b.
              (if b
                then out
                else label_output w key our_fp (output_tally w key our_fp o.script po)
                    out).ownership
              ≡ verified)
            data_free h))) [
              | inr (kp, at, e) ↦ (kp, inr at, e)
              | inl v ↦ elim (try_keypaths-Evidence o.script po po.keypaths no_tally v) [
                | inr (kp, at, e) ↦ (kp, inl at, e)
                | inl u ↦ absurd (ground (arith, u))
              ]
            ]
