-- ===== src/Files.antt =====
-- The output files of src/btc_signer_gui/src/core/psbt_engine.cpp: their names, and the closure
-- `writeFile` of `writeResult`. The system calls on the stick are a parameter, `Disk`.
pub mod Sanitise
pub mod Free
pub mod Write
pub mod Result
mod Memory
mod Tests
use signeros.Base.{
  ℕ, zero, suc, ◌+◌, ◌-◌, Bool, true, false, ◌&&◌, ◌||◌, not, Option, none, some, List, [], ◌∷◌,
  ◌++◌, Bytes, ltb, leb, ◌==◌, if◌then◌else◌, length, drop, codes,
}
use signeros.Base.Equal.{bytes_eq}
use signeros.Disk.{Disk, Written, wrote, interrupted, failed}
use signeros.Psbt.Engine.{base_name_onto}
use signeros.Text.{to_string, padded}

-- `struct tm`, with the year counted in full.
pub record Calendar : Type 0 where
  pub year : ℕ
  pub month : ℕ
  pub day : ℕ
  pub hour : ℕ
  pub minute : ℕ
  pub second : ℕ

-- What the clock answers: the local time where `localtime_r` gives one, and the uptime.
pub record Clock : Type 0 where
  pub local : Option Calendar
  pub uptime : ℕ

unfoldable pub timestamp_text : Calendar → Bytes
timestamp_text t =
    padded 4 t.year
    ++ padded 2 t.month
    ++ padded 2 t.day
    ++ b'-' ∷ padded 2 t.hour
    ++ padded 2 t.minute
    ++ padded 2 t.second

-- `fileTimestamp`: the text, and whether the clock looks unset. Below 10 ^ 6 seconds of uptime
-- `%06ld` pads, above it prints all digits.
unfoldable pub uptime_text : ℕ → Bytes
uptime_text up = codes "noclock-" ++ (if ltb up 1000000 then padded 6 up else to_string up)

unfoldable pub file_timestamp : Clock → Bytes × Bool
unfolding timestamp_text uptime_text
file_timestamp c = elim (c.local) [
  | none ↦ (uptime_text c.uptime, true)
  | some t ↦ if leb 2020 t.year then (timestamp_text t, false) else (uptime_text c.uptime, true)
]

-- The characters of `strchr("\\:*?\"<>|", c)`.
abbrev pub is_forbidden : ℕ → Bool
is_forbidden c =
    c == 92 || c == b':' || c == b'*' || c == b'?' || c == 34 || c == b'<' || c == b'>' || c == b'|'

abbrev pub is_empty : Bytes → Bool
is_empty [] = true
is_empty (c ∷ cs) = false

-- The characters that the loop of `sanitiseFileName` leaves out, behind the ones kept so far.
unfoldable pub is_skipped : Bytes → ℕ → Bool
is_skipped out c = ltb c 0x20 || ltb 0x7e c || is_forbidden c || (c == b'.' && is_empty out)

-- The loop of `sanitiseFileName`.
unfoldable pub keep_chars : Bytes → Bytes → Bytes
unfolding is_skipped
keep_chars out [] = out
keep_chars out (c ∷ cs) = keep_chars (if is_skipped out c then out else out ++ c ∷ []) cs

-- `while (!out.empty() && (out.back() == ' ' || out.back() == '.')) out.pop_back();`
unfoldable pub trim_back : Bytes → Bytes
trim_back [] = []
trim_back (c ∷ cs) =
    let rest = trim_back cs in if is_empty rest && (c == b' ' || c == b'.') then [] else c ∷ rest

-- The spaces in front are left out.
unfoldable pub trim_front : Bytes → Bytes
trim_front [] = []
trim_front (c ∷ cs) = let rest = trim_front cs in if c == b' ' then rest else c ∷ cs

-- Is `suffix` the end of the text, with something in front of it?
unfoldable pub has_suffix : Bytes → Bytes → Bool
has_suffix out suffix =
    ltb (length suffix) (length out) && bytes_eq (drop (length out - length suffix) out) suffix

unfoldable pub add_suffix : Bytes → Bytes → Bytes
unfolding has_suffix
add_suffix [] suffix = []
add_suffix (c ∷ cs) suffix =
    if not (is_empty suffix) && not (has_suffix (c ∷ cs) suffix) then (c ∷ cs) ++ suffix else c ∷ cs

-- `sanitiseFileName`
unfoldable pub sanitise_file_name : Bytes → Bytes → Bytes
unfolding keep_chars trim_back trim_front add_suffix
sanitise_file_name name suffix =
    add_suffix (trim_front (trim_back (keep_chars [] (base_name_onto name [])))) suffix

-- `dir + "/" + name`
abbrev pub path_in : Bytes → Bytes → Bytes
path_in dir name = dir ++ b'/' ∷ name

-- The name of one attempt of `freeFileName`.
abbrev pub numbered : Bytes → Bytes → ℕ → Bytes
numbered stem suffix attempt = stem ++ (b'-' ∷ to_string attempt) ++ suffix

module _ (disk : Disk) where
  -- The loop of `freeFileName`, with `left` rounds to go.
  unfoldable pub next_free : disk.State → Bytes → Bytes → Bytes → ℕ → ℕ → Bytes → Bytes
  next_free s dir stem suffix zero attempt candidate = candidate
  next_free s dir stem suffix (suc left) attempt candidate =
      elim (disk.exists s (path_in dir candidate)) [
        | false ↦ candidate
        | true ↦ next_free s dir stem suffix left (suc attempt) (numbered stem suffix attempt)
      ]

  -- `freeFileName`: the attempts 2 to 999.
  unfoldable pub free_file_name : disk.State → Bytes → Bytes → Bytes → Bytes
  unfolding next_free
  free_file_name s dir stem suffix = next_free s dir stem suffix 998 2 (stem ++ suffix)

  -- The loop over `write`: an interrupted call is repeated. `none` where the fuel does not last.
  unfoldable pub write_all : ℕ → disk.State → Bytes → Bytes → disk.State × Option Bool
  write_all fuel s path [] = (s, some true)
  write_all zero s path (c ∷ cs) = (s, none)
  write_all (suc fuel) s path (c ∷ cs) =
      let result = disk.write s path (c ∷ cs) in
      elim (result.1) [
        | failed ↦ (result.0, some false)
        | interrupted ↦ write_all fuel (result.0) path (c ∷ cs)
        | wrote n ↦ write_all fuel (result.0) path (drop n (c ∷ cs))
      ]

  -- The end of `writeFile`: `fsync` decides.
  unfoldable pub sync_written : Bytes → disk.State × Option Bool → disk.State × Bool
  sync_written path (s, some true) = disk.fsync s path
  sync_written path (s, some false) = (s, false)
  sync_written path (s, none) = (s, false)

  -- The closure `writeFile`. Its loop has no bound in the code; on a lawful disk every round writes a
  -- byte or uses up an interruption, and the fuel covers them.
  unfoldable pub write_file : disk.State → Bytes → Bytes → disk.State × Bool
  unfolding write_all sync_written
  write_file s path text = elim (disk.open_new s path) [
    | none ↦ (s, false)
    | some opened ↦
        sync_written path (write_all (length text + disk.patience opened) opened path text)
  ]
