-- ===== src/Lib.antt =====
-- A verification library for SignerOS, an air-gapped Bitcoin signer: the core of
-- src/btc_signer_gui/src/core and the signing screen of src/btc_signer_gui/src/ui.
--
-- The program's parts. `SecureString` keeps typed secrets in a fixed buffer, the seed words as cells
-- of one text. `PsbtEngine` loads one PSBT, summarises it for the operator, takes at most one master
-- key, proves or refutes that outputs are change, signs only what passed its checks, and writes the
-- result to the stick under a name that the operator typed. The signing screen feeds the operator's
-- keys into the secret buffers and the engine. The entropy pool mixes the machine's random sources
-- for a new wallet and refuses where none can be trusted; the wallet export turns a mnemonic into
-- the public keys that a watching wallet imports.
--
-- Base: names of the libraries, tests on numbers, lists over native numbers, fields of a text.
-- Disk: what open, write, fsync and access do, as an interface with laws. `patience` bounds the
--   interruptions that are still to come: an assumption of the model, which gives its write loop
--   fuel. The loop of the code has no bound, and write(2) promises none.
-- Secure: `SecureString` of core/secure_memory.cpp, as the 320 bytes and the length; a loop over the
--   buffer is structural recursion on its count. `Holds s t` says that the buffer is the text `t`, a
--   NUL and zeros. Secure/Grid is the seed-word grid, `Shows s fs` the cells that it shows.
-- Bip39: `bip39Suggestions` of core/psbt_engine.cpp over a word list.
-- Psbt: core/psbt_engine.cpp. Psbt/Wally has what libwally, which is not source of this
--   repository, answers: every definition takes it as a parameter. Psbt/Ownership is
--   `ownershipForScript`, Psbt/Inspect and Psbt/Vsize read the PSBT, Psbt/Signability is
--   `evaluateSignability`, Psbt/Findings `deriveFindings`, Psbt/Summarise `resummarise`,
--   Psbt/Engine the class with its operations, and Psbt/Engine/Run its life as a sequence of
--   them, writing a result included. Psbt/Signability/Honest and Psbt/Engine/Vetted say of the file
--   itself what the summary says of it. The master key, static in the process, is a member of the engine. A message of the
--   engine is a constructor with the values it quotes; `double` is a parameter.
-- Text: the path and amount texts of core/psbt_engine.cpp. `to_string` has fuel for 20 digits, which
--   is enough below 2 ^ 64.
-- Files: the file names of core/psbt_engine.cpp, its write loop, and in Files/Result `writeResult`.
--   The write loop has fuel for every byte and every interruption: the length of the text and
--   `patience`. That it ends therefore rests on the assumption above. Files/Memory is a disk in memory that keeps the laws of Disk.
-- Entropy: core/entropy.cpp; the hash and what the machine answers are parameters. One word has ten
--   attempts, as in the code.
-- WalletExport: core/wallet_export.cpp. libwally is a parameter; the key slot of the process is an
--   argument and a result. WalletExport/Build derives, WalletExport/Render writes the text.
-- Screens: the buffers of ui/secret_buffers.cpp, the page of ui/save_as.cpp that names a file, and in
--   Screens/Sign ui/screen_sign.cpp. The record of the screen has what decides its behaviour: the
--   page, the field, the buffers, the engine, which buttons are enabled, what is suggested. Labels,
--   colours and the caret are left out. Screens/Sign/Flow/Run is a visit to the screen as a sequence
--   of keys, clicks and touches of the floating keyboard. Word suggestions are built in.
-- Touchpad: the contacts, taps and buttons of ui/touchpad.cpp. The calls that move the pointer,
--   scroll and deliver a button are recorded as actions, the newest first.
--
-- Sums of satoshi wrap at 2 ^ 64 as in the code; sizes of scripts in the size estimate do not, since
-- they are lengths of data in memory. Not modelled: page locking, reading and listing the PSBT files,
-- writing the wallet export, the other screens, how far the pointer moves, and the drawing of
-- widgets, which are input, output or glue, or are left for a later stage.
pub mod Base
pub mod Disk
pub mod Secure
pub mod Bip39
pub mod Psbt
pub mod Text
pub mod Entropy
pub mod Files
pub mod WalletExport
pub mod Screens
pub mod Touchpad
