-- ===== src/Psbt/Engine/Signing.antt =====
-- What `sign` does on each of its ways out.
use signeros.Base.{
  ℕ, ◌+◌, ◌-◌, ◌<◌, ◌≡◌, inl, inr, refl, Bool, true, false, Option, none, some, arith, leb, ◌==◌,
  Bool-cases,
}
use signeros.Psbt.Wally.{Wally, Double, Psbt}
use signeros.Psbt.Engine.{
  Engine, Failure, count_signatures, sign, finish_signing, with_psbt, resummarise, refused,
  not_loaded, no_key,
}

module _ (w : Wally) (d : Double) where
  -- What is true before and after a signing that went through.
  pub record Signed (e e' : Engine w d) (n : ℕ) : Type 0 where
    pub before : Psbt
    pub after : Psbt
    pub signing_key : w.Key
    pub was_loaded : e.psbt ≡ some before
    pub had_key : e.key ≡ some signing_key
    pub was_safe : e.summary.safe_to_sign ≡ true
    pub had_inputs : 0 < e.summary.signable_inputs
    pub by_wally : w.sign_bip32 signing_key before ≡ (true, after)
    pub counted : count_signatures after.inputs ≡ count_signatures before.inputs + n
    pub some_added : 0 < n
    pub refreshed : e' ≡ resummarise w d (with_psbt w d after e)

  finish_signing-inr :
      (before : ℕ) (ok : Bool) (after : Psbt) (e e' : Engine w d) (n : ℕ)
      → finish_signing w d before (ok, after) e ≡ (e', inr n)
      → (ok ≡ true)
        × (count_signatures after.inputs ≡ before + n)
        × (0 < n)
        × (e' ≡ resummarise w d (with_psbt w d after e))
  unfolding finish_signing
  finish_signing-inr before ok after e e' n h = elim (Bool-cases ok) [
    | inr p ↦ absurd (ground (arith, h, p))
    | inl p ↦ elim (Bool-cases (leb (count_signatures after.inputs) before)) [
      | inl q ↦ absurd (ground (arith, h, p, q))
      | inr q ↦ (p, ground (arith, h, p, q), ground (arith, h, p, q), ground (arith, h, p, q))
    ]
  ]

  -- `sign` answers success only for a loaded PSBT that passed the safety checks, with a key that
  -- signs some input, and only if libwally signed it and there are more signatures than before;
  -- the number reported is the difference, and the summary is made again.
  pub sign-Signed : (e e' : Engine w d) (n : ℕ) → sign w d e ≡ (e', inr n) → Signed e e' n
  unfolding sign
  sign-Signed e e' n h = loaded e.psbt refl
    where
      signs : (p : Psbt) (k : w.Key) → e.psbt ≡ some p → e.key ≡ some k → Signed e e' n
      signs p k ep ek = elim (Bool-cases e.summary.safe_to_sign) [
        | inr s ↦ absurd (ground (arith, h, ep, ek, s))
        | inl s ↦ elim (Bool-cases (e.summary.signable_inputs == 0)) [
          | inl z ↦ absurd (ground (arith, h, ep, ek, s, z))
          | inr z ↦
              let (ok, c, m, r) =
                finish_signing-inr (count_signatures p.inputs) (w.sign_bip32 k p).0
                  (w.sign_bip32 k p).1 e e' n (ground (arith, h, ep, ek, s, z)) in
              record {
                before = p;
                after = (w.sign_bip32 k p).1;
                signing_key = k;
                was_loaded = ep;
                had_key = ek;
                was_safe = s;
                had_inputs = ground (arith, z);
                by_wally = λ i. (ok i, (w.sign_bip32 k p).1);
                counted = c;
                some_added = m;
                refreshed = r;
              }
        ]
      ]

      keyed : (p : Psbt) (o : Option w.Key) → e.psbt ≡ some p → e.key ≡ o → Signed e e' n
      keyed p none ep ek = absurd (ground (arith, h, ep, ek))
      keyed p (some k) ep ek = signs p k ep ek

      loaded : (o : Option Psbt) → e.psbt ≡ o → Signed e e' n
      loaded none ep = absurd (ground (arith, h, ep))
      loaded (some p) ep = keyed p e.key ep refl

  -- A PSBT that failed the safety checks is never handed to libwally: the engine stays as it is,
  -- and the answer is a failure.
  pub sign-unsafe :
      (e : Engine w d) → e.summary.safe_to_sign ≡ false → (f : Failure) × (sign w d e ≡ (e, inl f))
  unfolding sign
  sign-unsafe e u = loaded e.psbt refl
    where
      keyed :
          (p : Psbt) (o : Option w.Key)
          → e.psbt ≡ some p
          → e.key ≡ o
          → (f : Failure) × (sign w d e ≡ (e, inl f))
      keyed p none ep ek = (no_key, ground (arith, ep, ek, u))
      keyed p (some k) ep ek = (refused, ground (arith, ep, ek, u))

      loaded : (o : Option Psbt) → e.psbt ≡ o → (f : Failure) × (sign w d e ≡ (e, inl f))
      loaded none ep = (not_loaded, ground (arith, ep, u))
      loaded (some p) ep = keyed p e.key ep refl

  -- And conversely: with a PSBT that passed the safety checks, a key that signs some input, and a
  -- signing of libwally that goes through and leaves more signatures than before, `sign` succeeds,
  -- reports the difference, keeps the PSBT that libwally left, and makes the summary again.
  pub sign-succeeds :
      (e : Engine w d) (p p' : Psbt) (k : w.Key)
      → e.psbt ≡ some p
      → e.key ≡ some k
      → e.summary.safe_to_sign ≡ true
      → 0 < e.summary.signable_inputs
      → w.sign_bip32 k p ≡ (true, p')
      → count_signatures p.inputs < count_signatures p'.inputs
      → sign w d e ≡ (
        resummarise w d (with_psbt w d p' e),
        inr (count_signatures p'.inputs - count_signatures p.inputs),
      )
  unfolding sign finish_signing
  sign-succeeds e p p' k ep ek s z by more = ground (arith, ep, ek, s, z, by, more)
