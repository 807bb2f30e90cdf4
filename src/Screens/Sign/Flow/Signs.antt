-- ===== src/Screens/Sign/Flow/Signs.antt =====
-- What a signing on the confirmation page takes, and what it leaves.
use signeros.Base.{
  ℕ, ◌≡◌, ◌⊎◌, inl, inr, refl, sym, subst, Bool, true, false, some, Bool-cases, if◌then◌else◌,
}
use signeros.Bip39.{Wordlist}
use signeros.Disk.{Disk}
use signeros.Files.{Clock}
use signeros.Files.Result.{Serialiser}
use signeros.Psbt.Wally.{Wally, Double}
use signeros.Psbt.Engine.{Engine, Failure, sign}
use signeros.Psbt.Engine.Signing.{Signed, sign-Signed}
use signeros.Screens.Secrets.{c_str}
use signeros.Screens.Sign.{SignScreen, Page, confirm_page, name_page}
use signeros.Screens.Sign.Flow.{Config, is_ready, do_sign, sign_result}
use signeros.Screens.Sign.Flow.Checked.{Checked, typed_key}
use signeros.Screens.Sign.Flow.Run.{Reachable}
use signeros.Screens.Sign.Flow.Typed.{Reachable-Checked}
use signeros.Screens.Sign.Flow.Naming.{signed-Wiped}
use signeros.Screens.Sign.Flow.Wiped.{Wiped}

module _ (w : Wally) (d : Double) (list : Wordlist) where
  -- The engine signed with the key of the typed text, and nothing of it is left.
  pub record TypedSigning (s s' : SignScreen w d) : Type 0 where
    pub signing_key : w.Key
    pub engine : Engine w d
    pub added : ℕ
    pub is_typed :
        typed_key w s.engine.network s.source
          (c_str s.secrets.mnemonic)
          (c_str s.secrets.passphrase)
        ≡ some signing_key
    pub confirmed : is_ready w d list s ≡ true
    pub used : s.engine.key ≡ some signing_key
    pub by_engine : Signed w d s.engine engine added
    pub wiped : Wiped w d list s'

  module _ (disk : Disk) (z : Serialiser) (config : Config) (clock : Clock) (t : disk.State) where
    sign_result-TypedSigning :
        (s : SignScreen w d) (r : Engine w d × (Failure ⊎ ℕ))
        → sign w d s.engine ≡ r
        → s.page ≡ confirm_page
        → s.key_checked ≡ true
        → Checked w d list s
        → (sign_result w d list disk z clock config t s r).page ≡ name_page
        → TypedSigning s (sign_result w d list disk z clock config t s r)
    unfolding sign_result Checked
    sign_result-TypedSigning s (e, inl f) by at_confirm checked c named =
        absurd (clash at_confirm named)
      where
        clash : {p : Page} → p ≡ confirm_page → p ≡ name_page → ⊥
        clash x y = cc
    sign_result-TypedSigning s (e, inr added) by at_confirm checked c named =
        let ((k, held, typed, net), ready) = c checked in
        record {
          signing_key = k;
          engine = e;
          added = added;
          is_typed = typed;
          confirmed = ready;
          used = held;
          by_engine = sign-Signed w d s.engine e added by;
          wiped = signed-Wiped w d list disk z config clock t added _;
        }

    -- In every state that the operator can reach, "Sign now" comes to the page that names the file
    -- only by a signature that libwally made under the key of the text in the buffers, with a
    -- passphrase that is empty or was typed twice and a transaction that passed the safety checks;
    -- and then the buffers are cleared and the engine holds no key.
    pub do_sign-TypedSigning :
        (s : SignScreen w d)
        → Reachable w d list disk z config (t, s)
        → s.page ≡ confirm_page
        → (do_sign w d list disk z clock config t s).page ≡ name_page
        → TypedSigning s (do_sign w d list disk z clock config t s)
    unfolding do_sign
    do_sign-TypedSigning s r at_confirm = elim (Bool-cases s.key_checked) [
      | inl checked ↦
          subst (λ s'. s'.page ≡ name_page → TypedSigning s s') (sym (chosen _ checked))
            (sign_result-TypedSigning s (sign w d s.engine) refl at_confirm checked
              (Reachable-Checked w d list disk z config r))
      | inr unchecked ↦ λ named. absurd (clash at_confirm (stays unchecked named))
    ]
      where
        chosen :
            {b : Bool} {x : SignScreen w d} (y : SignScreen w d)
            → b ≡ true
            → (if b then x else y) ≡ x
        chosen y e = rw e refl

        stays :
            s.key_checked ≡ false
            → (do_sign w d list disk z clock config t s).page ≡ name_page
            → s.page ≡ name_page
        stays e = rw e (λ p. p)

        clash : {p : Page} → p ≡ confirm_page → p ≡ name_page → ⊥
        clash x y = cc
