-- ===== src/Psbt/Engine/Vetted.antt =====
-- What a successful signing says of the PSBT in the engine, and not only of its summary.
use signeros.Base.{ℕ, ◌≡◌, true, Option, none, some, List, [], ◌∷◌, get_elem?}
use signeros.Psbt.Wally.{Wally, Double, Psbt, PsbtInput, TxIn, TxOut, Tx}
use signeros.Psbt.Signability.{master_fingerprint}
use signeros.Psbt.Signability.Honest.{HonestOutputs}
use signeros.Psbt.Engine.{Engine}

-- The file says how much an input spends, at one of three places.
pub data HasAmount (p : PsbtInput) (t : Option TxIn) : Type 0 where
  by_witness : {u : TxOut} → p.witness_utxo ≡ some u → HasAmount p t
  by_previous :
      {outs : List TxOut} {i : TxIn} {u : TxOut}
      → p.utxo ≡ some outs
      → t ≡ some i
      → get_elem? outs i.index ≡ some u
      → HasAmount p t
  by_statement : {n : ℕ} → p.amount ≡ some n → HasAmount p t

-- So for every input of the file, next to the input of the transaction at its place.
pub Funded : List PsbtInput → List TxIn → Type 0
Funded [] ts = Unit
Funded (p ∷ ps) [] = HasAmount p none × Funded ps []
Funded (p ∷ ps) (t ∷ ts) = HasAmount p (some t) × Funded ps ts

module _ (w : Wally) where
  -- What libwally leaves of a PSBT after any number of signings.
  pub data Descends (first : Psbt) : Psbt → Type 0 where
    same : Descends first first
    signed : {p : Psbt} (k : w.Key) → Descends first p → Descends first (w.sign_bip32 k p).1

  -- The file gives a transaction and every amount that it spends, and under the key no output of it
  -- is falsely called ours.
  pub record Examined (key : Option w.Key) (p : Psbt) : Type 0 where
    pub tx : Tx
    pub extracted : w.extract p ≡ some tx
    pub funded : Funded p.inputs tx.inputs
    pub honest :
        (k : w.Key)
        → key ≡ some k
        → HonestOutputs w k (master_fingerprint w (some k)) tx.outputs p.outputs

  -- The PSBT descends from one that was examined under the key.
  pub record Vetted (key : Option w.Key) (psbt : Option Psbt) : Type 0 where
    pub first : Psbt
    pub last : Psbt
    pub held : psbt ≡ some last
    pub descends : Descends first last
    pub examined : Examined key first

module _ (w : Wally) (d : Double) where
  Backed : Engine w d → Type 0
  Backed e = e.summary.safe_to_sign ≡ true → Vetted w e.key e.psbt
