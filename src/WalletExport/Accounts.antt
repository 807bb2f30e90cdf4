-- ===== src/WalletExport/Accounts.antt =====
-- What a successful `buildWalletExport` exports, and that no key stays behind.
mod Pairs
mod Keys
mod Shape
mod Exact
use signeros.Base.{
  ℕ, ◌+◌, ◌^◌, ◌<◌, ◌≡◌, ◌++◌, append_assoc, arith, codes, inl, inr, refl, sym, ap, subst, ◌∙◌,
  true, false, not, Option, none, some, List, [], ◌∷◌, Bytes, ◌==◌, if◌then◌else◌, length,
  Bool-cases, Option-cases,
}
use signeros.Psbt.Wally.{Network, mainnet, testnet, signet, regtest}
use signeros.Text.{to_string}
use signeros.WalletExport.{
  ExportWally, Standard, MultisigStandard, AccountExport, CosignerKey, WalletExport, ExportError,
  empty_export, standards, cosigner_standards, hardened, harden, marked, coin_type, bech32_hrp,
  invalid_mnemonic, is_mainnet,
}
use signeros.WalletExport.Build.{
  derive_account_pub, strip, publish, account_export, account_numbers, derive_accounts,
  cosigner_key, cosigner_numbers, derive_cosigners, Built, failed_with, with_keys, with_fingerprint,
  with_master, with_seed, build_wallet_export, hex_bytes, with_checksum, address_of, or_empty,
  first_address_of,
}
use signeros.WalletExport.Accounts.Pairs.{Pairwise, nil, cons}
use signeros.WalletExport.Accounts.Keys.{
  Published, Unpublished, derive_account_pub-Published, derive_account_pub-Unpublished,
}
use signeros.WalletExport.Accounts.Shape.{AllAccounts, AllCosigners}
use signeros.WalletExport.Accounts.Exact.{
  Exported, Cosigned, accounts-AllAccounts, cosigners-AllCosigners,
}

module _ (x : ExportWally) where
  module _ (master : x.Key) (fp : Bytes) (network : Network) (account : ℕ) where
    derive_accounts-Pairwise :
        (stds : List Standard) (as' : List AccountExport)
        → derive_accounts x master fp network account stds ≡ some as'
        → Pairwise (Exported x master fp network account) stds as'
    unfolding derive_accounts
    derive_accounts-Pairwise [] [] = λ h. nil
    derive_accounts-Pairwise [] (a ∷ as') = λ h. absurd cc
    derive_accounts-Pairwise (std ∷ stds) as' =
        elim (Option-cases (derive_account_pub x master path network)) [
          | inl e ↦ rw (e, derive_accounts) (λ h. absurd cc)
          | inr (d, e) ↦ elim (Option-cases (derive_accounts x master fp network account stds)) [
            | inl e' ↦ rw (e, e', derive_accounts) (λ h. absurd cc)
            | inr (rest, e') ↦
                rw (e, e', derive_accounts)
                  (λ h.
                    subst (Pairwise (Exported x master fp network account) (std ∷ stds)) (inside h)
                      (cons (d, derive_account_pub-Published x master path network d e, refl)
                        (derive_accounts-Pairwise stds rest e')))
          ]
        ]
      where
        path : List ℕ
        path = hardened (account_numbers x network account std)

        inside : {l l' : List AccountExport} → some l ≡ some l' → l ≡ l'
        inside h = cc

    derive_cosigners-Pairwise :
        (mss : List MultisigStandard) (cs : List CosignerKey)
        → derive_cosigners x master fp network account mss ≡ some cs
        → Pairwise (Cosigned x master fp network account) mss cs
    unfolding derive_cosigners
    derive_cosigners-Pairwise [] [] = λ h. nil
    derive_cosigners-Pairwise [] (c ∷ cs) = λ h. absurd cc
    derive_cosigners-Pairwise (ms ∷ mss) cs =
        elim (Option-cases (derive_account_pub x master path network)) [
          | inl e ↦ rw (e, derive_cosigners) (λ h. absurd cc)
          | inr (d, e) ↦ elim (Option-cases (derive_cosigners x master fp network account mss)) [
            | inl e' ↦ rw (e, e', derive_cosigners) (λ h. absurd cc)
            | inr (rest, e') ↦
                rw (e, e', derive_cosigners)
                  (λ h.
                    subst (Pairwise (Cosigned x master fp network account) (ms ∷ mss)) (inside h) (
                      cons (d, derive_account_pub-Published x master path network d e, refl)
                        (derive_cosigners-Pairwise mss rest e')))
          ]
        ]
      where
        path : List ℕ
        path = hardened (cosigner_numbers x network account ms)

        inside : {l l' : List CosignerKey} → some l ≡ some l' → l ≡ l'
        inside h = cc

    derive_accounts-Unpublished :
        (stds : List Standard)
        → derive_accounts x master fp network account stds ≡ none
        → (path : List ℕ) × Unpublished x master path network
    unfolding derive_accounts
    derive_accounts-Unpublished [] = λ h. absurd cc
    derive_accounts-Unpublished (std ∷ stds) =
        elim (Option-cases (derive_account_pub x master path network)) [
          | inl e ↦ λ h. (path, derive_account_pub-Unpublished x master path network e)
          | inr (d, e) ↦ elim (Option-cases (derive_accounts x master fp network account stds)) [
            | inl e' ↦ λ h. derive_accounts-Unpublished stds e'
            | inr (rest, e') ↦ rw (e, e', derive_accounts) (λ h. absurd cc)
          ]
        ]
      where
        path : List ℕ
        path = hardened (account_numbers x network account std)

    derive_cosigners-Unpublished :
        (mss : List MultisigStandard)
        → derive_cosigners x master fp network account mss ≡ none
        → (path : List ℕ) × Unpublished x master path network
    unfolding derive_cosigners
    derive_cosigners-Unpublished [] = λ h. absurd cc
    derive_cosigners-Unpublished (ms ∷ mss) =
        elim (Option-cases (derive_account_pub x master path network)) [
          | inl e ↦ λ h. (path, derive_account_pub-Unpublished x master path network e)
          | inr (d, e) ↦ elim (Option-cases (derive_cosigners x master fp network account mss)) [
            | inl e' ↦ λ h. derive_cosigners-Unpublished mss e'
            | inr (rest, e') ↦ rw (e, e', derive_cosigners) (λ h. absurd cc)
          ]
        ]
      where
        path : List ℕ
        path = hardened (cosigner_numbers x network account ms)

  module _ (mnemonic passphrase : Bytes) (network : Network) (account : ℕ) (slot : Option x.Key)
      (small : account < 2 ^ 31) where
    abbrev pub bare : WalletExport
    bare = record empty_export {
      network = network;
      account = account;
      passphrase_used = not (length passphrase == 0);
    }

    abbrev pub given_passphrase : Option Bytes
    given_passphrase = if length passphrase == 0 then none else some passphrase

    -- A call of libwally that answers nothing, behind a mnemonic that is valid.
    pub data Stuck : Type 0 where
      no_seed : x.mnemonic_to_seed mnemonic given_passphrase ≡ none → Stuck
      no_master :
          (seed : Bytes)
          → x.mnemonic_to_seed mnemonic given_passphrase ≡ some seed
          → x.key_from_seed (is_mainnet network) seed ≡ none
          → Stuck
      no_fingerprint :
          (seed : Bytes) (master : x.Key)
          → x.mnemonic_to_seed mnemonic given_passphrase ≡ some seed
          → x.key_from_seed (is_mainnet network) seed ≡ some master
          → x.fingerprint master ≡ none
          → Stuck
      no_public_key :
          (seed : Bytes) (master : x.Key) (path : List ℕ)
          → x.mnemonic_to_seed mnemonic given_passphrase ≡ some seed
          → x.key_from_seed (is_mainnet network) seed ≡ some master
          → Unpublished x master path network
          → Stuck

    -- The ways that `buildWalletExport` ends.
    pub data Outcome : Built x → Type 0 where
      refused :
          x.mnemonic_validate mnemonic ≡ false
          → Outcome (record { slot = slot; export = bare; error = some invalid_mnemonic })
      failed :
          (e : ExportError)
          → x.mnemonic_validate mnemonic ≡ true
          → Stuck
          → Outcome (failed_with x e)
      exported :
          (seed : Bytes) (master : x.Key) (raw : Bytes) (accounts : List AccountExport)
          (cosigners : List CosignerKey)
          → x.mnemonic_validate mnemonic ≡ true
          → x.mnemonic_to_seed mnemonic given_passphrase ≡ some seed
          → x.key_from_seed (is_mainnet network) seed ≡ some master
          → x.fingerprint master ≡ some raw
          → AllAccounts x master (hex_bytes raw) network account accounts
          → AllCosigners x master (hex_bytes raw) network account cosigners
          → Outcome (record {
            slot = none;
            export = record bare {
              fingerprint = hex_bytes raw;
              accounts = accounts;
              cosigners = cosigners;
            };
            error = none;
          })

    module _ (valid : x.mnemonic_validate mnemonic ≡ true) where
      with_keys-Outcome :
          (seed : Bytes) (master : x.Key) (raw : Bytes) (oa : Option (List AccountExport))
          (oc : Option (List CosignerKey))
          → x.mnemonic_to_seed mnemonic given_passphrase ≡ some seed
          → x.key_from_seed (is_mainnet network) seed ≡ some master
          → x.fingerprint master ≡ some raw
          → derive_accounts x master (hex_bytes raw) network account standards ≡ oa
          → derive_cosigners x master (hex_bytes raw) network account cosigner_standards ≡ oc
          → Outcome (with_keys x (record bare { fingerprint = hex_bytes raw }) oa oc)
      unfolding with_keys
      with_keys-Outcome seed master raw none oc s k f a c =
          let (path, u) =
            derive_accounts-Unpublished master (hex_bytes raw) network account standards a in
          failed _ valid (no_public_key seed master path s k u)
      with_keys-Outcome seed master raw (some as') none s k f a c =
          let (path, u) =
            derive_cosigners-Unpublished master (hex_bytes raw) network account cosigner_standards
              c in
          failed _ valid (no_public_key seed master path s k u)
      with_keys-Outcome seed master raw (some []) (some cs) s k f a c =
          elim (derive_accounts-Pairwise master (hex_bytes raw) network account standards [] a) [ ]
      with_keys-Outcome seed master raw (some (a' ∷ as')) (some []) s k f a c =
          elim (derive_cosigners-Pairwise master (hex_bytes raw) network account cosigner_standards
            [] c) [ ]
      with_keys-Outcome seed master raw (some (a' ∷ as')) (some (c' ∷ cs)) s k f a c =
          exported seed master raw (a' ∷ as') (c' ∷ cs) valid s k f
            (accounts-AllAccounts x master (hex_bytes raw) network account small (a' ∷ as') (
              derive_accounts-Pairwise master (hex_bytes raw) network account standards (a' ∷ as')
                a))
            (cosigners-AllCosigners x master (hex_bytes raw) network account small (c' ∷ cs) (
              derive_cosigners-Pairwise master (hex_bytes raw) network account cosigner_standards
                (c' ∷ cs) c))

      with_fingerprint-Outcome :
          (seed : Bytes) (master : x.Key) (o : Option Bytes)
          → x.mnemonic_to_seed mnemonic given_passphrase ≡ some seed
          → x.key_from_seed (is_mainnet network) seed ≡ some master
          → x.fingerprint master ≡ o
          → Outcome (with_fingerprint x bare master o)
      unfolding with_fingerprint
      with_fingerprint-Outcome seed master none s k f =
          failed _ valid (no_fingerprint seed master s k f)
      with_fingerprint-Outcome seed master (some raw) s k f =
          with_keys-Outcome seed master raw _ _ s k f refl refl

      with_master-Outcome :
          (seed : Bytes) (o : Option x.Key)
          → x.mnemonic_to_seed mnemonic given_passphrase ≡ some seed
          → x.key_from_seed (is_mainnet network) seed ≡ o
          → Outcome (with_master x bare o)
      unfolding with_master
      with_master-Outcome seed none s k = failed _ valid (no_master seed s k)
      with_master-Outcome seed (some master) s k =
          with_fingerprint-Outcome seed master (x.fingerprint master) s k refl

      with_seed-Outcome :
          (o : Option Bytes)
          → x.mnemonic_to_seed mnemonic given_passphrase ≡ o
          → Outcome (with_seed x bare o)
      unfolding with_seed
      with_seed-Outcome none s = failed _ valid (no_seed s)
      with_seed-Outcome (some seed) s =
          with_master-Outcome seed (x.key_from_seed (is_mainnet network) seed) s refl

    -- `buildWalletExport` ends in one of three ways. A mnemonic that is refused leaves the key slot
    -- as it was and no account. Behind a valid one a call of libwally that gives no seed, no master
    -- key, no fingerprint or no public key clears the slot and the export. A success clears the
    -- slot and exports, under the master key of the mnemonic and the passphrase, the public halves of
    -- the four keys at 84h, 86h, 49h and 44h, then the coin, 0h or 1h, then the account, with their
    -- paths, the three descriptors around each key and its first address; and the two cosigner keys
    -- at 48h, the coin, the account and 2h or 1h. The account is below 2 ^ 31.
    pub build_wallet_export-Outcome :
        Outcome (build_wallet_export x mnemonic passphrase network account slot)
    unfolding build_wallet_export
    build_wallet_export-Outcome = elim (Bool-cases (x.mnemonic_validate mnemonic)) [
      | inl e ↦ rw e (with_seed-Outcome e (x.mnemonic_to_seed mnemonic given_passphrase) refl)
      | inr e ↦ rw e (refused e)
    ]
