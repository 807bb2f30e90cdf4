-- ===== src/Entropy/Policy.antt =====
-- What a seed can be drawn on.
use signeros.Base.{
  ℕ, zero, suc, ◌+◌, ◌-◌, ◌≤◌, ◌<◌, ◌≡◌, inl, inr, refl, sym, ap, ◌∙◌, [], ◌∷◌, codes, Bool, true,
  false, ◌||◌, Option, none, some, List, Bytes, arith, ltb, ◌==◌, if◌then◌else◌, length, take,
  Bool-cases, ltb→lt,
}
use signeros.Entropy.{
  EntropyPool, Machine, cpu_words, kernel_bytes, hash_len, draw_if, seed_words, rand_words,
  credited, discredited, report_of, cpu_words_look_sane, entropy_policy_satisfied, finalise,
  extract_output, mix_sources,
}
use signeros.Entropy.Words.{Sane, cpu_words_look_sane-Sane, length-draw_cpu_words}

-- A source that a seed can rest on: a kernel pool that gave a whole block without blocking, or RDSEED
-- with a sane run. RDRAND is not among them.
pub data Backed (m : Machine) : Type 0 where
  by_kernel : length (take kernel_bytes m.ready_bytes) ≡ kernel_bytes → Backed m
  by_rdseed : Sane (seed_words m) → Backed m

credited-Sane : (ws : List ℕ) → ltb 0 (credited ws) ≡ true → Sane ws
credited-Sane ws h = elim (Bool-cases (cpu_words_look_sane ws)) [
  | inl s ↦ (cpu_words_look_sane-Sane ws).0 s
  | inr s ↦ absurd (ground (arith, h, s))
]

policy-Backed :
    (pool : EntropyPool) (m : Machine)
    → entropy_policy_satisfied (report_of pool m) ≡ true
    → Backed m
unfolding entropy_policy_satisfied report_of
policy-Backed pool m h =
    elim (Bool-cases (length (take kernel_bytes m.ready_bytes) == kernel_bytes)) [
      | inl k ↦ by_kernel (ground (arith, k))
      | inr k ↦ by_rdseed (credited-Sane (seed_words m) (ground (arith, h, k)))
    ]

length-take : (n : ℕ) (t : Bytes) → n ≤ length t → length (take n t) ≡ n
length-take zero t h = refl
length-take (suc n) [] h = absurd (omega arith)
length-take (suc n) (c ∷ t) h = ap suc (length-take n t (omega arith))

extract_output-length :
    (hmac : Bytes → Bytes → Option Bytes) (bytes : ℕ) (pool pool' : EntropyPool) (o : Option Bytes)
    (out : Bytes)
    → ((okm : Bytes) → o ≡ some okm → length okm ≡ hash_len)
    → bytes ≤ hash_len
    → extract_output hmac bytes pool o ≡ (pool', inr out)
    → length out ≡ bytes
unfolding extract_output
extract_output-length hmac bytes pool pool' none out whole small h = absurd (ground (arith, h))
extract_output-length hmac bytes pool pool' (some okm) out whole small h =
    ap length (sym taken) ∙ length-take bytes okm (omega (arith, small, whole okm refl))
  where
    taken : take bytes okm ≡ out
    taken = ground (arith, h)

-- Where the hash answers 64 bytes, as HMAC-SHA512 does: a seed is given out only where a ready kernel
-- pool gave a whole block or RDSEED gave a sane run of words, whatever RDRAND, the jitter and the
-- operator gave; and it has exactly the number of bytes asked for, which is from 1 to 64.
pub finalise-Backed :
    (hmac : Bytes → Bytes → Option Bytes)
    → ((key message okm : Bytes) → hmac key message ≡ some okm → length okm ≡ hash_len)
    → (bytes : ℕ) (m : Machine) (pool pool' : EntropyPool) (out : Bytes)
    → finalise hmac bytes m pool ≡ (pool', inr out)
    → Backed m × (length out ≡ bytes) × (0 < bytes) × (bytes ≤ hash_len)
unfolding finalise
finalise-Backed hmac whole bytes m pool pool' out h =
    elim (Bool-cases (bytes == 0 || ltb hash_len bytes)) [
      | inl b ↦ absurd (ground (arith, h, b))
      | inr b ↦ elim (Bool-cases (entropy_policy_satisfied (report_of pool m))) [
        | inl p ↦
            let mixed = mix_sources hmac m pool in
            (
              policy-Backed pool m p,
              extract_output-length hmac bytes mixed pool' _ out
                  (whole mixed.state (codes "SignerOS/wallet-entropy/v1")) (ground (arith, b))
                  (ground (arith, h, b, p)),
              ground (arith, b),
              ground (arith, b),
            )
        | inr p ↦ absurd (ground (arith, h, b, p))
      ]
    ]

length-draw_if :
    (answers : Option (List (Option ℕ))) (want : ℕ) → length (draw_if answers want) ≤ want
length-draw_if none want = omega arith
length-draw_if (some answers) want = length-draw_cpu_words answers want

drawn_bound : (m : Machine) → length (seed_words m) + length (rand_words m) ≤ cpu_words
unfolding rand_words seed_words
drawn_bound m =
    let s = length-draw_if m.rdseed cpu_words in
    let r = length-draw_if m.rdrand (cpu_words - length (draw_if m.rdseed cpu_words)) in
    elim (Bool-cases (ltb (length (draw_if m.rdseed cpu_words)) cpu_words)) [
      | inl b ↦ rw (b, if◌then◌else◌) (omega (arith, s, r, ltb→lt _ _ b))
      | inr b ↦ rw (b, if◌then◌else◌) (omega (arith, s))
    ]

credited-split : (ws : List ℕ) → credited ws + discredited ws ≡ length ws
credited-split ws = by_test (cpu_words_look_sane ws)
  where
    by_test : (b : Bool) → (if b then length ws else 0) + (if b then 0 else length ws) ≡ length ws
    by_test true = omega arith
    by_test false = omega arith

-- Every word drawn is counted once, as a word of its own instruction or as rejected, and at most 32
-- words are drawn.
pub report_of-counts :
    (pool : EntropyPool) (m : Machine)
    → ((report_of pool m).rdseed_words
          + (report_of pool m).rdrand_words
          + (report_of pool m).cpu_rejected
        ≡ length (seed_words m) + length (rand_words m))
      × (length (seed_words m) + length (rand_words m) ≤ cpu_words)
unfolding report_of
report_of-counts pool m =
    (omega (arith, credited-split (seed_words m), credited-split (rand_words m)), drawn_bound m)
