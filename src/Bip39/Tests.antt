-- ===== src/Bip39/Tests.antt =====
-- The theorem on the suggestions, with a list of two words.
use signeros.Base.{zero, suc, ◌≡◌, true, none, some, codes}
use signeros.Bip39.{Wordlist, bip39_suggestions}
use signeros.Bip39.Suggest.{expected, bip39_suggestions-expected}

abbrev two_words : Wordlist
two_words = record {
  available = true;
  get_word = λ n. elim n [
    | zero ↦ some (codes "abandon")
    | suc m ↦ elim m [ zero ↦ some (codes "ability") | suc k ↦ none ]
  ];
}

bip39_suggestions-expected_example :
    bip39_suggestions two_words (some (codes "ab")) 1 ≡ expected two_words (some (codes "ab")) 1
bip39_suggestions-expected_example = bip39_suggestions-expected two_words (some (codes "ab")) 1
