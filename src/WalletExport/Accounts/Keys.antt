-- ===== src/WalletExport/Accounts/Keys.antt =====
-- `deriveAccountPub` of core/wallet_export.cpp: what it publishes, and why it publishes nothing.
use signeros.Base.{ℕ, ◌≡◌, inl, inr, sym, ap, ◌∙◌, none, some, List, Bytes, Option-cases}
use signeros.Psbt.Wally.{Network}
use signeros.WalletExport.{ExportWally, is_mainnet}
use signeros.WalletExport.Build.{derive_account_pub, strip, publish}

module _ (x : ExportWally) where
  -- `public` is the key at the path below `master` without its private half, under the network's
  -- version, and `xpub` is its base58 text.
  pub record Published (master : x.Key) (path : List ℕ) (network : Network) (d : x.Key × Bytes)
      : Type 0 where
    pub private : x.Key
    pub stripped : x.Key
    pub derived : x.derive_private master path ≡ some private
    pub was_stripped : x.strip_private private ≡ some stripped
    pub version : d.0 ≡ x.set_version (is_mainnet network) stripped
    pub encoded : x.to_base58_public d.0 ≡ some d.1

  pub derive_account_pub-Published :
      (master : x.Key) (path : List ℕ) (network : Network) (d : x.Key × Bytes)
      → derive_account_pub x master path network ≡ some d
      → Published master path network d
  unfolding derive_account_pub strip publish
  derive_account_pub-Published master path network d =
      elim (Option-cases (x.derive_private master path)) [
        | inl e ↦ rw (e, derive_account_pub) (λ h. absurd cc)
        | inr (private, e) ↦ elim (Option-cases (x.strip_private private)) [
          | inl e' ↦ rw (e, e', derive_account_pub, strip) (λ h. absurd cc)
          | inr (stripped, e') ↦
              elim (Option-cases
                (x.to_base58_public (x.set_version (is_mainnet network) stripped))) [
                  | inl e'' ↦ rw (e, e', e'', derive_account_pub, strip, publish) (λ h. absurd cc)
                  | inr (b58, e'') ↦ λ h.
                      let q : (x.set_version (is_mainnet network) stripped, b58) ≡ d =
                        found e e' e'' h in
                      record {
                        private = private;
                        stripped = stripped;
                        derived = e;
                        was_stripped = e';
                        version = sym (ap (λ u. u.0) q);
                        encoded =
                            ap (λ u. x.to_base58_public u.0) (sym q) ∙ e'' ∙ ap (λ u. some u.1) q;
                      }
                ]
        ]
      ]
    where
      found :
          {private stripped : x.Key} {b58 : Bytes}
          → x.derive_private master path ≡ some private
          → x.strip_private private ≡ some stripped
          → x.to_base58_public (x.set_version (is_mainnet network) stripped) ≡ some b58
          → derive_account_pub x master path network ≡ some d
          → (x.set_version (is_mainnet network) stripped, b58) ≡ d
      found e e' e'' = rw (e, e', e'', derive_account_pub, strip, publish) (λ h. cc)

  -- libwally gives no public key for the path.
  pub data Unpublished (master : x.Key) (path : List ℕ) (network : Network) : Type 0 where
    underivable : x.derive_private master path ≡ none → Unpublished master path network
    unstripped :
        {private : x.Key}
        → x.derive_private master path ≡ some private
        → x.strip_private private ≡ none
        → Unpublished master path network
    unencoded :
        {private stripped : x.Key}
        → x.derive_private master path ≡ some private
        → x.strip_private private ≡ some stripped
        → x.to_base58_public (x.set_version (is_mainnet network) stripped) ≡ none
        → Unpublished master path network

  pub derive_account_pub-Unpublished :
      (master : x.Key) (path : List ℕ) (network : Network)
      → derive_account_pub x master path network ≡ none
      → Unpublished master path network
  unfolding derive_account_pub strip publish
  derive_account_pub-Unpublished master path network =
      elim (Option-cases (x.derive_private master path)) [
        | inl e ↦ λ h. underivable e
        | inr (private, e) ↦ elim (Option-cases (x.strip_private private)) [
          | inl e' ↦ λ h. unstripped e e'
          | inr (stripped, e') ↦
              elim (Option-cases
                (x.to_base58_public (x.set_version (is_mainnet network) stripped))) [
                  | inl e'' ↦ λ h. unencoded e e' e''
                  | inr (b58, e'') ↦
                      rw (e, e', e'', derive_account_pub, strip, publish) (λ h. absurd cc)
                ]
        ]
      ]
