-- ===== src/WalletExport/Render.antt =====
-- `renderWalletExport` and `writeWalletExport` of src/btc_signer_gui/src/core/wallet_export.cpp.
pub mod Lines
use signeros.Base.{
  ℕ, Bool, true, false, not, Option, none, some, List, [], ◌∷◌, ◌++◌, ◌⊎◌, inl, inr, Bytes, ◌==◌,
  if◌then◌else◌, length, codes,
}
use signeros.Disk.{Disk}
use signeros.Files.{
  Clock, file_timestamp, sanitise_file_name, is_empty, path_in, free_file_name, write_all,
}
use signeros.Text.{to_string}
use signeros.WalletExport.{AccountExport, CosignerKey, WalletExport, network_name}

-- Lines, with a newline behind each.
unfoldable pub unlines : List Bytes → Bytes
unlines [] = []
unlines (l ∷ ls) = l ++ 10 ∷ unlines ls

-- The first comment of the file.
abbrev pub opening_lines : List Bytes
opening_lines =
    codes "# SignerOS watch-only export"
    ∷ codes "#"
    ∷ codes "# PUBLIC KEYS ONLY. Everything in this file can watch this wallet and"
    ∷ codes "# build transactions for it. Nothing in it can spend: there is no"
    ∷ codes "# private key, no seed and no mnemonic here, and this device never"
    ∷ codes "# wrote one anywhere. The only copy of the recovery words is the one"
    ∷ codes "# you wrote down by hand."
    ∷ codes "#"
    ∷ codes "# Anyone who reads this file learns every address this wallet will"
    ∷ codes "# ever use, and its whole balance and history. Treat it as private,"
    ∷ codes "# not as secret."
    ∷ codes "#"
    ∷ []

-- How the file is used.
abbrev pub usage_lines : List Bytes
usage_lines =
    codes "#"
    ∷ codes "# Every line below that does not start with # is meant to be copied into"
    ∷ codes "# a wallet: an output descriptor in the single-signature blocks, and a"
    ∷ codes "# cosigner key in the multisig block at the end. Pick the block for the"
    ∷ codes "# address type you want, then give your wallet either the single line or"
    ∷ codes "# the pair - whichever it accepts:"
    ∷ codes "#"
    ∷ codes "#   Sparrow          File -> Import Wallet -> Output Descriptor ->"
    ∷ codes "#                    Choose file, then pick a line. Takes the single"
    ∷ codes "#                    <0;1> line."
    ∷ codes "#   Bitcoin Core     importdescriptors with \"active\": true"
    ∷ codes "#   Blockstream      wants the PAIR - one descriptor for receive and"
    ∷ codes "#   Green            one for change. The single <0;1> line will not"
    ∷ codes "#                    import; the two lines under it are the same keys"
    ∷ codes "#                    written the way it expects."
    ∷ codes "#"
    ∷ codes "# Check the first address below matches what your wallet shows after"
    ∷ codes "# the import. If it does, the right file reached the right wallet."
    ∷ codes ""
    ∷ []

-- What stands in front of the cosigner keys.
abbrev pub multisig_lines : List Bytes
multisig_lines =
    codes "# ==========================================================="
    ∷ codes "# MULTISIG COSIGNER KEYS (BIP48)"
    ∷ codes "#"
    ∷ codes "# Only useful if this seed is one of several keys in a multisig"
    ∷ codes "# wallet. Setting up an ordinary single-signature wallet? Then you"
    ∷ codes "# are done above, and nothing below this line concerns you."
    ∷ codes "#"
    ∷ codes "# There is no descriptor and no address here, and that is not a"
    ∷ codes "# failure: a multisig wallet does not exist until every cosigner's"
    ∷ codes "# key is known, and this device knows only its own. Give the key"
    ∷ codes "# line to your coordinator - Sparrow: Keystore -> Airgapped"
    ∷ codes "# Hardware Wallet -> xPub / Watch Only, and the same in Nunchuk,"
    ∷ codes "# Specter or Bitcoin Core - once for this signer and once for each"
    ∷ codes "# of the others. The coordinator builds the descriptor from all of"
    ∷ codes "# them; the resulting wallet file is what you keep, and it is what"
    ∷ codes "# you need to recover, alongside your words."
    ∷ codes "#"
    ∷ codes "# The first-address check used above does not exist here, because"
    ∷ codes "# a single key has no address. What you compare in the coordinator"
    ∷ codes "# instead is the master fingerprint and the derivation path: both"
    ∷ codes "# are shown next to each cosigner once it is added."
    ∷ codes "#"
    ∷ codes "# Take the 2h block unless a wallet asks you for the other one."
    ∷ codes "# When this device is later asked to sign for that wallet, it can"
    ∷ codes "# only show an output as change if the PSBT carries the multisig"
    ∷ codes "# script itself - every coordinator listed above includes it."
    ∷ codes ""
    ∷ []

abbrev pub rule : Bytes
rule = codes "# ==========================================================="

unfoldable pub heading_lines : WalletExport → Bytes → List Bytes
heading_lines we created_at =
    (codes "# created            " ++ created_at)
    ∷ (codes "# master fingerprint " ++ we.fingerprint)
    ∷ (codes "# network            " ++ network_name we.network)
    ∷ (codes "# account            " ++ to_string we.account)
    ∷ (codes "# BIP39 passphrase   "
        ++ (if we.passphrase_used
            then codes
                "yes - this export belongs to the passphrase you entered. A different passphrase is a different wallet."
            else codes "no"))
    ∷ []

unfoldable pub account_lines : AccountExport → List Bytes
account_lines a =
    rule
    ∷ (codes "# "
        ++ (a.standard
            ++ (codes "  -  " ++ (a.label ++ (codes "  (" ++ (a.address_hint ++ codes ")"))))))
    ∷ (codes "#   derivation     " ++ a.path)
    ∷ (codes "#   account xpub   " ++ a.xpub)
    ∷ (codes "#   first address  "
        ++ (if is_empty a.first_address then codes "(could not be derived)" else a.first_address))
    ∷ rule
    ∷ codes "#   receive and change in one line:"
    ∷ a.descriptor
    ∷ []
    ∷ codes "#   the same keys as two lines, for wallets that want the chains"
    ∷ codes "#   separately (Blockstream Green): receive first, then change."
    ∷ a.receive_descriptor
    ∷ a.change_descriptor
    ∷ []
    ∷ []

unfoldable pub cosigner_lines : CosignerKey → List Bytes
cosigner_lines c =
    rule
    ∷ (codes "# " ++ (c.standard ++ (codes "  -  " ++ c.label)))
    ∷ (codes "#   derivation     " ++ c.path)
    ∷ (codes "#   account xpub   " ++ c.xpub)
    ∷ rule
    ∷ codes "#   the same key with its origin, which is what a coordinator"
    ∷ codes "#   asks for - fingerprint, path and key in one line:"
    ∷ c.key_origin
    ∷ []
    ∷ []

-- The loops over the accounts and the cosigners.
unfoldable pub all_account_lines : List AccountExport → List Bytes
all_account_lines [] = []
all_account_lines (a ∷ rest) = account_lines a ++ all_account_lines rest

unfoldable pub all_cosigner_lines : List CosignerKey → List Bytes
all_cosigner_lines [] = []
all_cosigner_lines (c ∷ rest) = cosigner_lines c ++ all_cosigner_lines rest

unfoldable pub multisig_block : List CosignerKey → List Bytes
multisig_block [] = []
multisig_block (c ∷ rest) = multisig_lines ++ all_cosigner_lines (c ∷ rest)

unfoldable pub export_lines : WalletExport → Bytes → List Bytes
export_lines we created_at =
    opening_lines
    ++ (heading_lines we created_at
        ++ (usage_lines
            ++ (all_account_lines we.accounts
                ++ (multisig_block we.cosigners ++ codes "# end of export" ∷ []))))

-- `renderWalletExport`
unfoldable pub render_wallet_export : WalletExport → Bytes → Bytes
render_wallet_export we created_at = unlines (export_lines we created_at)
