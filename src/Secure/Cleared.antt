-- ===== src/Secure/Cleared.antt =====
-- What `clear` leaves: an empty text.
use signeros.Base.{◌≡◌, refl, some, []}
use signeros.Secure.{SecureString, clear, copy_trailing_word}

-- A buffer that was cleared.
abbrev pub IsCleared : SecureString → Type 0
IsCleared b = (b' : SecureString) × (b ≡ clear b')

pub clear-IsCleared : (b : SecureString) → IsCleared (clear b)
clear-IsCleared b = (b, refl)

pub clear-len : (b : SecureString) → (clear b).len ≡ 0
unfolding clear
clear-len b = refl

pub copy_trailing_word-clear : (b : SecureString) → copy_trailing_word (clear b) (some 16) ≡ some []
unfolding copy_trailing_word clear
copy_trailing_word-clear b = refl
