-- ===== src/Screens/Secrets.antt =====
-- src/btc_signer_gui/src/ui/secret_buffers.cpp: the four buffers of the process.
use signeros.Base.{ℕ, suc, ◌%◌, Bool, ◌&&◌, [], ◌∷◌, Bytes, ltb, ◌==◌, if◌then◌else◌}
use signeros.Secure.{SecureString, clear, equals, read}

pub record Secrets : Type 0 where
  pub mnemonic : SecureString
  pub passphrase : SecureString
  pub verification : SecureString
  pub again : SecureString

-- `c_str()` as a C function reads it: up to the first NUL.
unfoldable pub until_nul : Bytes → Bytes
until_nul [] = []
until_nul (c ∷ cs) = let rest = until_nul cs in if c == 0 then [] else c ∷ rest

abbrev pub c_str : SecureString → Bytes
c_str s = until_nul s.buf

abbrev pub is_empty : SecureString → Bool
is_empty s = s.len == 0

-- `wipeAllSecrets`
unfoldable pub wipe_all_secrets : Secrets → Secrets
wipe_all_secrets s = record {
  mnemonic = clear s.mnemonic;
  passphrase = clear s.passphrase;
  verification = clear s.verification;
  again = clear s.again;
}

-- `passphraseConfirmed`
unfoldable pub passphrase_confirmed : Secrets → Bool
passphrase_confirmed s = equals s.passphrase s.again

-- The loop of `revealedSecret`, from the character `i` on.
unfoldable pub reveal_from : ℕ → ℕ → Bytes → Bytes
reveal_from width i [] = []
reveal_from width i (c ∷ cs) =
    let rest = reveal_from width (suc i) cs in
    if ltb 0 i && i % width == 0 then 10 ∷ c ∷ rest else c ∷ rest

-- `revealedSecret`: a line break before every multiple of the line length but the first.
unfoldable pub revealed_secret : SecureString → ℕ → Bytes
revealed_secret s line_length =
    let width = if ltb line_length 1 then 1 else line_length in
    reveal_from width 0 (read s.buf 0 s.len)
