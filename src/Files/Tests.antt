-- ===== src/Files/Tests.antt =====
-- The theorems on the output files, with a disk in memory.
use signeros.Base.{ℕ, ◌≤◌, ◌≡◌, ◌≢◌, ◌⊎◌, refl, true, false, none, some, [], ◌∷◌, arith, codes}
use signeros.Base.Equal.{bytes_eq}
use signeros.Files.{
  Clock, sanitise_file_name, free_file_name, is_forbidden, keep_chars, is_skipped, trim_back,
  trim_front, add_suffix, has_suffix,
}
use signeros.Files.Free.{Answer, free_file_name-Answer}
use signeros.Files.Memory.{memory, memory-IsLawful}
use signeros.Files.Result.{Serialiser, psbt_suffix, result_name, write_result}
use signeros.Files.Result.Kept.{Outcome, write_result-Outcome, write_result-Keeps}
use signeros.Files.Sanitise.{SafeChar, SafeName, sanitise_file_name-SafeName}
use signeros.Psbt.Engine.{Engine, base_name_onto}
use signeros.Psbt.Engine.Run.{fresh}
use signeros.Psbt.Tests.{demo_wally, demo_double, demo_psbt, demo_tx}
use signeros.Psbt.Wally.{mainnet}

-- A name that begins with a space and a dot keeps the dot.
hidden_name : sanitise_file_name (codes " .hidden") psbt_suffix ≡ codes ".hidden.psbt"
unfolding sanitise_file_name base_name_onto keep_chars is_skipped trim_back trim_front add_suffix
    has_suffix bytes_eq
hidden_name = refl

passwd_name : sanitise_file_name (codes "../../etc/passwd") (codes ".txt") ≡ codes "passwd.txt"
unfolding sanitise_file_name base_name_onto keep_chars is_skipped trim_back trim_front add_suffix
    has_suffix bytes_eq
passwd_name = refl

safe : (c : ℕ) → 0x20 ≤ c → c ≤ 0x7e → is_forbidden c ≡ false → c ≢ b'/' → SafeChar c
safe c lo hi a n = record { printable = (lo, hi); allowed = a; no_slash = n }

sanitise_file_name-SafeName_example :
    (sanitise_file_name (codes "../../etc/passwd") psbt_suffix ≡ [])
    ⊎ SafeName psbt_suffix (sanitise_file_name (codes "../../etc/passwd") psbt_suffix)
sanitise_file_name-SafeName_example =
    sanitise_file_name-SafeName (codes "../../etc/passwd") psbt_suffix (
      safe b'.' (omega arith) (omega arith) refl (omega arith),
      (
        safe b'p' (omega arith) (omega arith) refl (omega arith),
        (
          safe b's' (omega arith) (omega arith) refl (omega arith),
          (
            safe b'b' (omega arith) (omega arith) refl (omega arith),
            (safe b't' (omega arith) (omega arith) refl (omega arith), tt),
          ),
        ),
      ),
    )

-- A stick with one file on it.
abbrev stick : memory.State
stick = λ q. elim q [ [] ↦ some (codes "old") | c ∷ cs ↦ none ]

free_file_name-Answer_example :
    Answer memory stick
      (codes "/data")
      (codes "signed")
      psbt_suffix
      0
      998
      (free_file_name memory stick (codes "/data") (codes "signed") psbt_suffix)
free_file_name-Answer_example =
    free_file_name-Answer memory stick (codes "/data") (codes "signed") psbt_suffix

abbrev serialiser : Serialiser
serialiser = record {
  to_base64 = λ p. some (codes "cHNidP8=");
  clone = λ p. some p;
  finalize = λ p. some p;
  is_finalized = λ p. some true;
  extract_final = λ p. some demo_tx;
  tx_to_hex = λ t. some (codes "00");
}

abbrev clock : Clock
clock = record { local = none; uptime = 5 }

abbrev engine : Engine demo_wally demo_double
engine = record (fresh demo_wally demo_double mainnet) { psbt = some (demo_psbt 1) }

write_result-Outcome_example :
    Outcome memory memory-IsLawful demo_wally demo_double serialiser stick clock engine
      (demo_psbt 1)
      (codes "cHNidP8=")
      (codes "/data")
      (result_name memory stick clock (codes "/data") (codes "mine"))
      true
      (write_result memory demo_wally demo_double serialiser stick clock engine
        (codes "/data")
        (codes "mine")
        true)
write_result-Outcome_example =
    write_result-Outcome memory memory-IsLawful demo_wally demo_double serialiser stick clock engine
      (codes "/data") (codes "mine") true (demo_psbt 1) (codes "cHNidP8=") refl refl

write_result-Keeps_example :
    memory.lookup
      (write_result memory demo_wally demo_double serialiser stick clock engine
        (codes "/data")
        (codes "mine")
        true).disk
      []
    ≡ some (codes "old")
write_result-Keeps_example =
    write_result-Keeps memory memory-IsLawful demo_wally demo_double serialiser stick clock engine
      (codes "/data") (codes "mine") true [] (codes "old") refl
