-- ===== src/Disk.antt =====
-- The system calls on the stick that core/psbt_engine.cpp and core/wallet_export.cpp make:
-- access(2), open(2) with `O_CREAT | O_EXCL`, write(2) and fsync(2). They are no source of this
-- repository: a state of the disk and the answers are a parameter.
use signeros.Base.{
  ℕ, ◌≤◌, ◌<◌, ◌≡◌, ◌≢◌, Bool, true, Option, none, some, [], ◌++◌, Bytes, length, take,
}

-- What write(2) answers: how many bytes went out, `EINTR`, or another error.
pub data Written : Type 0 where
  wrote : ℕ → Written
  interrupted failed : Written

pub record Disk : Type 1 where
  pub State : Type 0
  pub lookup : State → Bytes → Option Bytes
  pub exists : State → Bytes → Bool
  pub open_new : State → Bytes → Option State
  pub write : State → Bytes → Bytes → State × Written
  pub fsync : State → Bytes → State × Bool
  -- How many more calls of `write` are interrupted at most. This is an assumption of the model, which
  -- gives its loop over `write` an end; write(2) promises no bound, and the code counts none.
  pub patience : State → ℕ

-- What the calls promise: `lookup` is what a file holds, and a call on one path leaves the files
-- of the other paths alone. The last two laws, and that a call of `write` on a text that is not
-- empty writes a byte where it answers a count, are assumptions and not promises of the system.
pub record IsLawful (disk : Disk) : Type 0 where
  pub exists-lookup :
      (s : disk.State) (p text : Bytes) → disk.lookup s p ≡ some text → disk.exists s p ≡ true
  pub opens_new :
      (s s' : disk.State) (p : Bytes) → disk.open_new s p ≡ some s' → disk.lookup s p ≡ none
  pub opens_empty :
      (s s' : disk.State) (p : Bytes) → disk.open_new s p ≡ some s' → disk.lookup s' p ≡ some []
  pub opens_only :
      (s s' : disk.State) (p q : Bytes)
      → disk.open_new s p ≡ some s'
      → q ≢ p
      → disk.lookup s' q ≡ disk.lookup s q
  pub writes_part :
      (s : disk.State) (p text : Bytes) (n : ℕ)
      → (disk.write s p text).1 ≡ wrote n
      → n ≤ length text
  pub writes_some :
      (s : disk.State) (p text : Bytes) (n : ℕ)
      → (disk.write s p text).1 ≡ wrote n
      → 0 < length text
      → 0 < n
  pub writes_behind :
      (s : disk.State) (p old text : Bytes) (n : ℕ)
      → (disk.write s p text).1 ≡ wrote n
      → disk.lookup s p ≡ some old
      → disk.lookup (disk.write s p text).0 p ≡ some (old ++ take n text)
  pub interrupts_clean :
      (s : disk.State) (p text : Bytes)
      → (disk.write s p text).1 ≡ interrupted
      → disk.lookup (disk.write s p text).0 p ≡ disk.lookup s p
  pub writes_only :
      (s : disk.State) (p q text : Bytes)
      → q ≢ p
      → disk.lookup (disk.write s p text).0 q ≡ disk.lookup s q
  pub syncs_only :
      (s : disk.State) (p q : Bytes) → disk.lookup (disk.fsync s p).0 q ≡ disk.lookup s q
  pub interrupts_less :
      (s : disk.State) (p text : Bytes)
      → (disk.write s p text).1 ≡ interrupted
      → disk.patience (disk.write s p text).0 < disk.patience s
  pub writes_patient :
      (s : disk.State) (p text : Bytes) (n : ℕ)
      → (disk.write s p text).1 ≡ wrote n
      → disk.patience (disk.write s p text).0 ≤ disk.patience s
