-- ===== src/WalletExport/Accounts/Exact.antt =====
-- The accounts and cosigner keys that the loops of `buildWalletExport` make are the described ones.
use signeros.Base.{
  ℕ, ◌^◌, ◌<◌, ◌≡◌, ◌++◌, append_assoc, arith, codes, refl, sym, ap, subst, ◌∙◌, Option, none, some,
  List, [], ◌∷◌, Bytes,
}
use signeros.Psbt.Wally.{Network, mainnet, testnet, signet, regtest}
use signeros.Text.{to_string}
use signeros.WalletExport.{
  ExportWally, Standard, MultisigStandard, AccountExport, CosignerKey, standards,
  cosigner_standards, hardened, harden, marked, coin_type,
}
use signeros.WalletExport.Build.{
  account_export, account_numbers, cosigner_key, cosigner_numbers, with_checksum, address_of,
  or_empty, first_address_of,
}
use signeros.WalletExport.Accounts.Pairs.{Pairwise, nil, cons}
use signeros.WalletExport.Accounts.Keys.{Published}
use signeros.WalletExport.Accounts.Shape.{
  coin, above, steps_text, first_text, IsAccount, IsCosigner, AllAccounts, AllCosigners,
}

coin_type-coin : (network : Network) → coin_type network ≡ coin network
unfolding coin_type
coin_type-coin mainnet = refl
coin_type-coin testnet = refl
coin_type-coin signet = refl
coin_type-coin regtest = refl

marked-steps_text : (mark : ℕ) (ns : List ℕ) → marked mark ns ≡ steps_text mark ns
unfolding marked
marked-steps_text mark [] = refl
marked-steps_text mark (n ∷ []) = refl
marked-steps_text mark (n ∷ n' ∷ ns) =
    ap (λ t. to_string n ++ (mark ∷ b'/' ∷ t)) (marked-steps_text mark (n' ∷ ns))
    ∙ sym (append_assoc (to_string n) (mark ∷ []) (b'/' ∷ steps_text mark (n' ∷ ns)))

harden-above : (n : ℕ) → n < 2 ^ 31 → harden n ≡ above n
unfolding harden
harden-above n h = ground (arith, h)

coin_small : (network : Network) → coin network < 2 ^ 31
coin_small mainnet = omega arith
coin_small testnet = omega arith
coin_small signet = omega arith
coin_small regtest = omega arith

module _ (x : ExportWally) where
  -- What the loops make, in the words of the code.
  abbrev pub Exported : x.Key → Bytes → Network → ℕ → Standard → AccountExport → Type 0
  Exported master fp network account std a =
      (d : x.Key × Bytes) × Published x master (hardened (account_numbers x network account std))
        network d
      × (a ≡ account_export x fp network account std d)

  abbrev pub Cosigned : x.Key → Bytes → Network → ℕ → MultisigStandard → CosignerKey → Type 0
  Cosigned master fp network account ms c =
      (d : x.Key × Bytes) × Published x master (hardened (cosigner_numbers x network account ms))
        network d
      × (c ≡ cosigner_key x fp network account ms d.1)

  module _ (master : x.Key) (fp : Bytes) (network : Network) (account : ℕ)
      (small : account < 2 ^ 31) where
    account_steps : ℕ → ℕ → List ℕ
    account_steps purpose c = purpose ∷ c ∷ account ∷ []

    account-IsAccount :
        (std : Standard) (address : x.Key → Option Bytes) (a : AccountExport)
        → std.purpose < 2 ^ 31
        → ((child : x.Key) → address_of x std.purpose network child ≡ address child)
        → Exported master fp network account std a
        → IsAccount x master fp network account std.purpose std.name std.descriptor_open
            std.descriptor_close address a
    unfolding account_export hardened first_address_of
    account-IsAccount std address a low same ((key, b58), p, e) =
        subst
          (IsAccount x master fp network account std.purpose std.name std.descriptor_open
            std.descriptor_close address)
          (sym e)
          (record {
            public = key;
            published = subst (λ ns. Published x master ns network (key, b58)) steps p;
            named = refl;
            path = ap (λ t. codes "m/" ++ t) (text b'\'');
            path_hardened = text b'h';
            descriptor = ap (described (codes "/<0;1>/*")) (text b'h');
            receive = ap (described (codes "/0/*")) (text b'h');
            change = ap (described (codes "/1/*")) (text b'h');
            first_address = first (x.derive_public key (0 ∷ 0 ∷ []));
          })
      where
        described : Bytes → Bytes → Bytes
        described chain t =
            with_checksum x
              (std.descriptor_open
                ++ (b'[' ∷ fp ++ (b'/' ∷ t) ++ b']' ∷ b58)
                ++ chain
                ++ std.descriptor_close)
              network

        text :
            (mark : ℕ)
            → marked mark (std.purpose ∷ coin_type network ∷ account ∷ [])
              ≡ steps_text mark (std.purpose ∷ coin network ∷ account ∷ [])
        text mark =
            marked-steps_text mark (std.purpose ∷ coin_type network ∷ account ∷ [])
            ∙ ap (λ c. steps_text mark (std.purpose ∷ c ∷ account ∷ [])) (coin_type-coin network)

        steps :
            harden std.purpose ∷ harden (coin_type network) ∷ harden account ∷ []
            ≡ above std.purpose ∷ above (coin network) ∷ above account ∷ []
        steps = λ i.
            harden-above std.purpose low i
            ∷ (ap harden (coin_type-coin network)
                  ∙ harden-above (coin network) (coin_small network))
                i
            ∷ harden-above account small i
            ∷ []

        first :
            (o : Option x.Key)
            → (elim o as (λ u. Bytes) [
              | none ↦ []
              | some child ↦ or_empty (address_of x std.purpose network child)
            ])
              ≡ first_text x address o
        first none = refl
        first (some child) = ap or_empty (same child)

    cosigner_key-IsCosigner :
        (ms : MultisigStandard) (c : CosignerKey)
        → ms.script_type < 2 ^ 31
        → Cosigned master fp network account ms c
        → IsCosigner x master fp network account ms.script_type ms.name c
    unfolding cosigner_key hardened
    cosigner_key-IsCosigner ms c low ((key, b58), p, e) =
        subst (IsCosigner x master fp network account ms.script_type ms.name) (sym e) (record {
          public = key;
          published = subst (λ ns. Published x master ns network (key, b58)) steps p;
          named = refl;
          path = ap (λ t. codes "m/" ++ t) (text b'\'');
          path_hardened = text b'h';
          key_origin = ap (λ t. b'[' ∷ fp ++ (b'/' ∷ t) ++ b']' ∷ b58) (text b'h');
        })
      where
        text :
            (mark : ℕ)
            → marked mark (48 ∷ coin_type network ∷ account ∷ ms.script_type ∷ [])
              ≡ steps_text mark (48 ∷ coin network ∷ account ∷ ms.script_type ∷ [])
        text mark =
            marked-steps_text mark (48 ∷ coin_type network ∷ account ∷ ms.script_type ∷ [])
            ∙ ap (λ c. steps_text mark (48 ∷ c ∷ account ∷ ms.script_type ∷ []))
                (coin_type-coin network)

        steps :
            harden 48 ∷ harden (coin_type network) ∷ harden account ∷ harden ms.script_type ∷ []
            ≡ above 48 ∷ above (coin network) ∷ above account ∷ above ms.script_type ∷ []
        steps = λ i.
            harden-above 48 (omega arith) i
            ∷ (ap harden (coin_type-coin network)
                  ∙ harden-above (coin network) (coin_small network))
                i
            ∷ harden-above account small i
            ∷ harden-above ms.script_type low i
            ∷ []

    pub accounts-AllAccounts :
        (as' : List AccountExport)
        → Pairwise (Exported master fp network account) standards as'
        → AllAccounts x master fp network account as'
    unfolding address_of
    accounts-AllAccounts as'
          (cons {b = a} h (cons {b = b} k (cons {b = c} m (cons {b = d} n nil)))) =
        record {
          bip84 = a;
          bip86 = b;
          bip49 = c;
          bip44 = d;
          listed = refl;
          segwit = account-IsAccount _ _ a (omega arith) (λ child. refl) h;
          taproot = account-IsAccount _ _ b (omega arith) (λ child. refl) k;
          nested = account-IsAccount _ _ c (omega arith) (λ child. refl) m;
          legacy = account-IsAccount _ _ d (omega arith) (λ child. refl) n;
        }

    pub cosigners-AllCosigners :
        (cs : List CosignerKey)
        → Pairwise (Cosigned master fp network account) cosigner_standards cs
        → AllCosigners x master fp network account cs
    cosigners-AllCosigners cs (cons {b = a} h (cons {b = b} k nil)) = record {
      native_key = a;
      nested_key = b;
      listed = refl;
      native = cosigner_key-IsCosigner _ a (omega arith) h;
      nested = cosigner_key-IsCosigner _ b (omega arith) k;
    }
