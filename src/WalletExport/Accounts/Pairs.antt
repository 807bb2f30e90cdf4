-- ===== src/WalletExport/Accounts/Pairs.antt =====
-- Two lists that go together.
use signeros.Base.{List, [], ◌∷◌}

-- The two lists go together, element by element.
pub data Pairwise {ℓ} {A B : Type 0} (R : A → B → Type ℓ) : List A → List B → Type ℓ where
  nil : Pairwise R [] []
  cons :
      {a : A} {b : B} {as' : List A} {bs : List B}
      → R a b
      → Pairwise R as' bs
      → Pairwise R (a ∷ as') (b ∷ bs)
