-- ===== src/Entropy/Tests.antt =====
-- The theorems on the entropy pool at one machine: RDSEED gives three words, the second of them after
-- a clear carry flag, and the kernel pool is not ready.
use signeros.Base.{
  ◌≤◌, ◌<◌, ◌≡◌, sym, ap, length, replicate, ◌↔◌, inr, refl, Option, none, some, [], ◌∷◌, Bytes,
  true, codes,
}
use signeros.Entropy.{
  EntropyPool, Machine, hash_len, cpu_words_look_sane, seed_words, rand_words, report_of, finalise,
  entropy_policy_satisfied, kernel_block, extract_output, draw_cpu_words, try_word, sane_after,
  seen_before, mix, mix_sources, keep_state, words_bytes, word_bytes,
}
use signeros.Entropy.Words.{Sane, cpu_words_look_sane-Sane}
use signeros.Entropy.Policy.{Backed, finalise-Backed}

abbrev pool : EntropyPool
pool = record { state = codes "state"; user_samples = 0; counter = 0 }

abbrev machine : Machine
machine = record {
  ready_bytes = [];
  device_bytes = [];
  rdseed = some (some 5 ∷ none ∷ some 9 ∷ some 4 ∷ []);
  rdrand = none;
  jitter = codes "jitter";
  misc = codes "misc";
}

-- A hash that answers the same 64 bytes for everything.
abbrev hash : Bytes → Bytes → Option Bytes
hash key sample = some (replicate 64 7)

hash-whole : (key message okm : Bytes) → hash key message ≡ some okm → length okm ≡ hash_len
hash-whole key message okm h = ap length (sym same)
  where
    same : replicate 64 7 ≡ okm
    same = cc

cpu_words_look_sane-Sane_example : cpu_words_look_sane (5 ∷ 9 ∷ []) ≡ true ↔ Sane (5 ∷ 9 ∷ [])
cpu_words_look_sane-Sane_example = cpu_words_look_sane-Sane (5 ∷ 9 ∷ [])

abbrev seed : Bytes
seed = 7 ∷ 7 ∷ []

drawn : finalise hash 2 machine pool ≡ ((finalise hash 2 machine pool).0, inr seed)
unfolding finalise entropy_policy_satisfied report_of seed_words rand_words kernel_block
    extract_output draw_cpu_words try_word cpu_words_look_sane sane_after seen_before mix
    mix_sources keep_state words_bytes word_bytes
drawn = refl

finalise-Backed_example : Backed machine × (length seed ≡ 2) × (0 < 2) × (2 ≤ hash_len)
finalise-Backed_example =
    finalise-Backed hash hash-whole 2 machine pool (finalise hash 2 machine pool).0 seed drawn
