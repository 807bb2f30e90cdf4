-- ===== src/Entropy.antt =====
-- src/btc_signer_gui/src/core/entropy.cpp: the pool that a new wallet's seed is drawn from, and the
-- refusal to draw it. HMAC-SHA512 and what the machine answers are parameters.
pub mod Words
pub mod Policy
mod Tests
use signeros.Base.{
  ℕ, zero, suc, ◌+◌, ◌-◌, ◌*◌, ◌/◌, ◌%◌, ◌^◌, Bool, true, false, ◌&&◌, ◌||◌, not, Option, none,
  some, List, [], ◌∷◌, ◌++◌, ◌⊎◌, inl, inr, Bytes, ltb, leb, ◌==◌, if◌then◌else◌, length, take,
  codes,
}

abbrev pub hash_len : ℕ
hash_len = 64

abbrev pub kernel_bytes : ℕ
kernel_bytes = 64

abbrev pub cpu_words : ℕ
cpu_words = 32

abbrev pub jitter_samples : ℕ
jitter_samples = 512

-- `~UINT64_C(0)`
abbrev pub all_ones : ℕ
all_ones = 2 ^ 64 - 1

pub record EntropyReport : Type 0 where
  pub kernel_ok : Bool
  pub kernel_was_ready : Bool
  pub rdseed_words : ℕ
  pub rdrand_words : ℕ
  pub cpu_rejected : ℕ
  pub cpu_rdseed : Bool
  pub cpu_rdrand : Bool
  pub jitter_count : ℕ
  pub user_samples : ℕ

pub record EntropyPool : Type 0 where
  pub state : Bytes
  pub user_samples : ℕ
  pub counter : ℕ

-- Up to `attempts` runs of the instruction, whose answers are given in order: `none` is a clear
-- carry flag. The second part is what is left of the answers.
pub try_word : ℕ → List (Option ℕ) → Option ℕ × List (Option ℕ)
try_word zero answers = (none, answers)
try_word (suc attempts) [] = try_word attempts []
try_word (suc attempts) (none ∷ answers) = try_word attempts answers
try_word (suc attempts) (some v ∷ answers) = (some v, answers)

abbrev pub cons_if : Option ℕ → List ℕ → List ℕ
cons_if none ws = ws
cons_if (some v) ws = v ∷ ws

-- `drawCpuWords`: ten attempts for each of `want` words.
pub draw_cpu_words : List (Option ℕ) → ℕ → List ℕ
draw_cpu_words answers zero = []
draw_cpu_words answers (suc want) =
    let tried = try_word 10 answers in cons_if tried.0 (draw_cpu_words tried.1 want)

pub seen_before : ℕ → List ℕ → Bool
seen_before v [] = false
seen_before v (s ∷ seen) = v == s || seen_before v seen

-- The outer loop, with the words that the inner loop compares against.
pub sane_after : List ℕ → List ℕ → Bool
sane_after seen [] = true
sane_after seen (v ∷ vs) =
    not (v == 0 || v == all_ones) && (not (seen_before v seen) && sane_after (v ∷ seen) vs)

-- `cpuWordsLookSane`
unfoldable pub cpu_words_look_sane : List ℕ → Bool
cpu_words_look_sane words = if ltb (length words) 2 then false else sane_after [] words

-- `entropyPolicySatisfied`
unfoldable pub entropy_policy_satisfied : EntropyReport → Bool
entropy_policy_satisfied rep = (rep.kernel_ok && rep.kernel_was_ready) || ltb 0 rep.rdseed_words

-- The bytes of a word in memory, the low one first.
pub word_bytes : ℕ → ℕ → Bytes
word_bytes zero v = []
word_bytes (suc n) v = v % 256 ∷ word_bytes n (v / 256)

pub words_bytes : List ℕ → Bytes
words_bytes [] = []
words_bytes (v ∷ vs) = word_bytes 8 v ++ words_bytes vs

-- What the machine answers while `finalise` runs: the bytes that `getrandom` gives without blocking,
-- those that `/dev/urandom` adds, the answers of the two instructions (`none` where the processor has
-- not got one), the jitter samples, and the clocks and identities.
pub record Machine : Type 0 where
  pub ready_bytes : Bytes
  pub device_bytes : Bytes
  pub rdseed : Option (List (Option ℕ))
  pub rdrand : Option (List (Option ℕ))
  pub jitter : Bytes
  pub misc : Bytes

abbrev pub draw_if : Option (List (Option ℕ)) → ℕ → List ℕ
draw_if none want = []
draw_if (some answers) want = draw_cpu_words answers want

-- The words of RDSEED.
unfoldable pub seed_words : Machine → List ℕ
seed_words m = draw_if m.rdseed cpu_words

-- The words of RDRAND, as many as RDSEED left.
unfoldable pub rand_words : Machine → List ℕ
rand_words m =
    let seed_got = length (seed_words m) in
    if ltb seed_got cpu_words then draw_if m.rdrand (cpu_words - seed_got) else []

-- `getrandom` and then the device are read up to the end of the block.
unfoldable pub kernel_block : Machine → Bytes
kernel_block m =
    take kernel_bytes m.ready_bytes
    ++ take (kernel_bytes - length (take kernel_bytes m.ready_bytes)) m.device_bytes

abbrev pub credited : List ℕ → ℕ
credited words = if cpu_words_look_sane words then length words else 0

abbrev pub discredited : List ℕ → ℕ
discredited words = if cpu_words_look_sane words then 0 else length words

-- The report of one `finalise`.
unfoldable pub report_of : EntropyPool → Machine → EntropyReport
report_of pool m = record {
  kernel_ok = length (kernel_block m) == kernel_bytes;
  kernel_was_ready = length (take kernel_bytes m.ready_bytes) == kernel_bytes;
  rdseed_words = credited (seed_words m);
  rdrand_words = credited (rand_words m);
  cpu_rejected = discredited (seed_words m) + discredited (rand_words m);
  cpu_rdseed = ltb 0 (credited (seed_words m));
  cpu_rdrand = ltb 0 (credited (rand_words m));
  jitter_count = jitter_samples;
  user_samples = pool.user_samples;
}

pub data Refusal : Type 0 where
  bad_size weak_entropy no_hash : Refusal

-- `wally_hmac_sha512`, as a function of the key and the message.
module _ (hmac : Bytes → Bytes → Option Bytes) where
  pub keep_state : Option Bytes → EntropyPool → EntropyPool
  keep_state none pool = pool
  keep_state (some next) pool = record {
    state = next;
    user_samples = pool.user_samples;
    counter = pool.counter;
  }

  -- `mix`
  pub mix : Bytes → EntropyPool → EntropyPool
  mix sample pool = if length sample == 0 then pool else keep_state (hmac pool.state sample) pool

  -- `mixUserEvent`: the coordinates, the clocks and the counter are in the bytes of the sample.
  unfoldable pub mix_user_event : (ℕ → Bytes) → EntropyPool → EntropyPool
  mix_user_event sample pool =
      let counted : EntropyPool = record {
        state = pool.state;
        user_samples = pool.user_samples;
        counter = (pool.counter + 1) % 2 ^ 64;
      } in
      let mixed = mix (sample ((pool.counter + 1) % 2 ^ 64)) counted in
      record {
        state = mixed.state;
        user_samples = (mixed.user_samples + 1) % 2 ^ 64;
        counter = mixed.counter;
      }

  -- Everything is mixed in, counted or not.
  pub mix_sources : Machine → EntropyPool → EntropyPool
  mix_sources m pool =
      let kernel = kernel_block m in
      let with_kernel = if length kernel == kernel_bytes then mix kernel pool else pool in
      let with_cpu = mix (words_bytes (seed_words m ++ rand_words m)) with_kernel in
      mix m.misc (mix m.jitter with_cpu)

  -- The output, and the pool with the output mixed in.
  pub extract_output : ℕ → EntropyPool → Option Bytes → EntropyPool × (Refusal ⊎ Bytes)
  extract_output bytes pool none = (pool, inl no_hash)
  extract_output bytes pool (some okm) = (mix okm pool, inr (take bytes okm))

  -- `finalise`
  unfoldable pub finalise : ℕ → Machine → EntropyPool → EntropyPool × (Refusal ⊎ Bytes)
  finalise bytes m pool =
      if bytes == 0 || ltb hash_len bytes
      then (pool, inl bad_size)
      else let mixed = mix_sources m pool in
        if entropy_policy_satisfied (report_of pool m)
        then extract_output bytes mixed (hmac mixed.state (codes "SignerOS/wallet-entropy/v1"))
        else (mixed, inl weak_entropy)
