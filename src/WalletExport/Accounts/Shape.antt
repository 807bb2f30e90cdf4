-- ===== src/WalletExport/Accounts/Shape.antt =====
-- The accounts and cosigner keys of an export, by their paths, described without the code.
use signeros.Base.{ℕ, ◌+◌, ◌^◌, ◌≡◌, ◌++◌, codes, Option, none, some, List, [], ◌∷◌, Bytes}
use signeros.Psbt.Wally.{Network, mainnet, testnet, signet, regtest}
use signeros.Text.{to_string}
use signeros.WalletExport.{ExportWally, AccountExport, CosignerKey, bech32_hrp, is_mainnet}
use signeros.WalletExport.Build.{with_checksum, or_empty}
use signeros.WalletExport.Accounts.Keys.{Published}

-- The coin of the paths: 0 for bitcoin, 1 for every network of tests.
abbrev pub coin : Network → ℕ
coin mainnet = 0
coin testnet = 1
coin signet = 1
coin regtest = 1

-- A hardened step of a path is the number above 2 ^ 31.
abbrev pub above : ℕ → ℕ
above n = 2 ^ 31 + n

-- The steps of a path as they are written, with a mark behind each.
abbrev pub steps_text : ℕ → List ℕ → Bytes
steps_text mark [] = []
steps_text mark (n ∷ []) = to_string n ++ mark ∷ []
steps_text mark (n ∷ n' ∷ ns) = (to_string n ++ mark ∷ []) ++ b'/' ∷ steps_text mark (n' ∷ ns)

-- `[fingerprint/path]xpub`
abbrev pub origin_text : Bytes → List ℕ → Bytes → Bytes
origin_text fp steps xpub = b'[' ∷ fp ++ (b'/' ∷ steps_text b'h' steps) ++ b']' ∷ xpub

module _ (x : ExportWally) where
  -- The address of the key at 0/0 below the account, empty where there is none.
  abbrev pub first_text : (x.Key → Option Bytes) → Option x.Key → Bytes
  first_text address none = []
  first_text address (some child) = or_empty (address child)

  -- The account of one script type: the steps purpose, coin and account, all hardened, under the
  -- master key; and the descriptors around that key.
  pub record IsAccount (master : x.Key) (fp : Bytes) (network : Network) (account purpose : ℕ)
      (standard before behind : Bytes) (address : x.Key → Option Bytes) (a : AccountExport)
      : Type 0 where
    pub public : x.Key
    pub published :
        Published x master
          (above purpose ∷ above (coin network) ∷ above account ∷ [])
          network
          (public, a.xpub)
    pub named : a.standard ≡ standard
    pub path : a.path ≡ codes "m/" ++ steps_text b'\'' (purpose ∷ coin network ∷ account ∷ [])
    pub path_hardened : a.path_hardened ≡ steps_text b'h' (purpose ∷ coin network ∷ account ∷ [])
    pub descriptor :
        a.descriptor
        ≡ with_checksum x
            (before
              ++ origin_text fp (purpose ∷ coin network ∷ account ∷ []) a.xpub
              ++ codes "/<0;1>/*"
              ++ behind)
            network
    pub receive :
        a.receive_descriptor
        ≡ with_checksum x
            (before
              ++ origin_text fp (purpose ∷ coin network ∷ account ∷ []) a.xpub
              ++ codes "/0/*"
              ++ behind)
            network
    pub change :
        a.change_descriptor
        ≡ with_checksum x
            (before
              ++ origin_text fp (purpose ∷ coin network ∷ account ∷ []) a.xpub
              ++ codes "/1/*"
              ++ behind)
            network
    pub first_address : a.first_address ≡ first_text address (x.derive_public public (0 ∷ 0 ∷ []))

  -- The cosigner key of one script type of BIP48: one step more.
  pub record IsCosigner (master : x.Key) (fp : Bytes) (network : Network) (account script_type : ℕ)
      (standard : Bytes) (c : CosignerKey) : Type 0 where
    pub public : x.Key
    pub published :
        Published x master
          (above 48 ∷ above (coin network) ∷ above account ∷ above script_type ∷ [])
          network
          (public, c.xpub)
    pub named : c.standard ≡ standard
    pub path :
        c.path ≡ codes "m/" ++ steps_text b'\'' (48 ∷ coin network ∷ account ∷ script_type ∷ [])
    pub path_hardened :
        c.path_hardened ≡ steps_text b'h' (48 ∷ coin network ∷ account ∷ script_type ∷ [])
    pub key_origin :
        c.key_origin ≡ origin_text fp (48 ∷ coin network ∷ account ∷ script_type ∷ []) c.xpub

  -- Taproot has no address of its own in libwally: script first, then the text.
  abbrev pub taproot_address : Network → x.Key → Option Bytes
  taproot_address network child = elim (x.p2tr_script child) [
    | none ↦ none
    | some script ↦ x.segwit_from_script script (bech32_hrp network)
  ]

  -- The four accounts, in this order, and the two cosigner keys.
  pub record AllAccounts (master : x.Key) (fp : Bytes) (network : Network) (account : ℕ)
      (as' : List AccountExport) : Type 0 where
    pub bip84 : AccountExport
    pub bip86 : AccountExport
    pub bip49 : AccountExport
    pub bip44 : AccountExport
    pub listed : as' ≡ bip84 ∷ bip86 ∷ bip49 ∷ bip44 ∷ []
    pub segwit :
        IsAccount master fp network account 84
          (codes "BIP84")
          (codes "wpkh(")
          (codes ")")
          (x.to_segwit (bech32_hrp network))
          bip84
    pub taproot :
        IsAccount master fp network account 86
          (codes "BIP86")
          (codes "tr(")
          (codes ")")
          (taproot_address network)
          bip86
    pub nested :
        IsAccount master fp network account 49
          (codes "BIP49")
          (codes "sh(wpkh(")
          (codes "))")
          (x.to_p2sh_p2wpkh (is_mainnet network))
          bip49
    pub legacy :
        IsAccount master fp network account 44
          (codes "BIP44")
          (codes "pkh(")
          (codes ")")
          (x.to_p2pkh (is_mainnet network))
          bip44

  pub record AllCosigners (master : x.Key) (fp : Bytes) (network : Network) (account : ℕ)
      (cs : List CosignerKey) : Type 0 where
    pub native_key : CosignerKey
    pub nested_key : CosignerKey
    pub listed : cs ≡ native_key ∷ nested_key ∷ []
    pub native : IsCosigner master fp network account 2 (codes "BIP48/2h") native_key
    pub nested : IsCosigner master fp network account 1 (codes "BIP48/1h") nested_key
