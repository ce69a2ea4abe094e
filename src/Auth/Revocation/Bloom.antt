-- ===== src/Auth/Revocation/Bloom.antt =====
-- The Bloom filter has no false negatives (apps/api/internal/auth/revocation.go: bloomFilter).
use lecrm.Common.{
  ℕ, zero, suc, ◌+◌, ◌*◌, ◌/◌, ◌%◌, ◌^◌, ◌<◌, true, ◌&&◌, ◌||◌, List, [], ◌∷◌, any, length, ltb,
  eqb, eqb_iff, ◌==◌, nat_eq, Bool-cases, ◌≡◌, inl, inr, refl, ap, ◌∙◌, arith,
}
use lecrm.Auth.Revocation.{
  test_bit, set_bit, BloomFilter, zeros, new_bloom_filter, bit_at, set_bit_at, hashes, probe,
  add_probes, add, test_probes, test, add_all, filter_of,
}

test_bit-set_bit : (j k w : ℕ) → test_bit j (set_bit k w) ≡ (eqb j k || test_bit j w)
unfolding test_bit set_bit
test_bit-set_bit zero zero w = ground arith
test_bit-set_bit zero (suc k) w = ground arith
test_bit-set_bit (suc j) zero w =
    let same : (w / 2 * 2 + 1) / 2 ≡ w / 2 = omega arith in ground (arith, ap (test_bit j) same)
test_bit-set_bit (suc j) (suc k) w =
    let half : (set_bit k (w / 2) * 2 + w % 2) / 2 ≡ set_bit k (w / 2) = omega arith in
    ground (arith, ap (test_bit j) half, test_bit-set_bit j k (w / 2))

bit_at-set_bit_at :
    (i k i' k' : ℕ) (bits : List ℕ)
    → bit_at i k (set_bit_at i' k' bits)
      ≡ (eqb i i' && eqb k k' && ltb i (length bits) || bit_at i k bits)
unfolding bit_at set_bit_at
bit_at-set_bit_at i k i' k' [] = ground arith
bit_at-set_bit_at zero k zero k' (w ∷ bits) = ground (arith, test_bit-set_bit k k' w)
bit_at-set_bit_at zero k (suc i') k' (w ∷ bits) = ground arith
bit_at-set_bit_at (suc i) k zero k' (w ∷ bits) = ground arith
bit_at-set_bit_at (suc i) k (suc i') k' (w ∷ bits) =
    ground (arith, bit_at-set_bit_at i k i' k' bits)

length-set_bit_at : (i k : ℕ) (bits : List ℕ) → length (set_bit_at i k bits) ≡ length bits
unfolding set_bit_at
length-set_bit_at i k [] = refl
length-set_bit_at zero k (w ∷ bits) = refl
length-set_bit_at (suc i) k (w ∷ bits) = ap suc (length-set_bit_at i k bits)

word_in_range : (x m words : ℕ) → m ≡ words * 64 → 0 < words → x % m / 64 < words
word_in_range x m words sized some_words =
    let below : x % m < m = omega arith in omega (arith, below, sized)

module _ (num_bits : ℕ) where
  length-add_probes :
      (n i : ℕ) (h : ℕ × ℕ) (bits : List ℕ) → length (add_probes num_bits n i h bits) ≡ length bits
  unfolding add_probes
  length-add_probes zero i h bits = refl
  length-add_probes (suc n) i h bits = length-add_probes n (i + 1) h _ ∙ length-set_bit_at _ _ bits

  -- A bit that is set stays set.
  bit_at-add_probes :
      (j k n i : ℕ) (h : ℕ × ℕ) (bits : List ℕ)
      → bit_at j k bits ≡ true
      → bit_at j k (add_probes num_bits n i h bits) ≡ true
  unfolding add_probes
  bit_at-add_probes j k zero i h bits held = held
  bit_at-add_probes j k (suc n) i h bits held =
      let at : ℕ = probe num_bits h i / 64 in
      let offset : ℕ = probe num_bits h i % 64 in
      bit_at-add_probes j k n (i + 1) h (set_bit_at at offset bits)
        (ground (arith, bit_at-set_bit_at j k at offset bits))

  -- What was found before probes were added is found after.
  test_probes-add_probes_other :
      (m j n i : ℕ) (g h : ℕ × ℕ) (bits : List ℕ)
      → test_probes num_bits m j g bits ≡ true
      → test_probes num_bits m j g (add_probes num_bits n i h bits) ≡ true
  unfolding test_probes
  test_probes-add_probes_other zero j n i g h bits held = refl
  test_probes-add_probes_other (suc m) j n i g h bits held = ground (
    arith,
    bit_at-add_probes (probe num_bits g j / 64) (probe num_bits g j % 64) n i h bits,
    test_probes-add_probes_other m (j + 1) n i g h bits,
  )

  probe_range :
      (h : ℕ × ℕ) (i : ℕ) (words : ℕ)
      → num_bits ≡ words * 64
      → 0 < words
      → probe num_bits h i / 64 < words
  unfolding probe
  probe_range (h1, h2) i words sized some_words =
      word_in_range ((h1 + i * h2 % 2 ^ 64) % 2 ^ 64) num_bits words sized some_words

  -- What was added is found.
  test_probes-add_probes :
      (n i : ℕ) (h : ℕ × ℕ) (bits : List ℕ)
      → num_bits ≡ length bits * 64
      → 0 < length bits
      → test_probes num_bits n i h (add_probes num_bits n i h bits) ≡ true
  unfolding test_probes add_probes
  test_probes-add_probes zero i h bits sized some_words = refl
  test_probes-add_probes (suc n) i h bits sized some_words =
      let at : ℕ = probe num_bits h i / 64 in
      let offset : ℕ = probe num_bits h i % 64 in
      let next = set_bit_at at offset bits in
      ground (
        arith,
        probe_range h i (length bits) sized some_words,
        bit_at-set_bit_at at offset at offset bits,
        bit_at-add_probes at offset n (i + 1) h next,
        length-set_bit_at at offset bits,
        test_probes-add_probes n (i + 1) h next,
      )

-- A filter whose size is that of its words.
record IsSized (bf : BloomFilter) : Type 0 where
  pub sized : bf.num_bits ≡ length bf.bits * 64
  pub some_words : 0 < length bf.bits

length-zeros : (n : ℕ) → length (zeros n) ≡ n
unfolding zeros
length-zeros zero = refl
length-zeros (suc n) = ap suc (length-zeros n)

new_bloom_filter-IsSized : (expected n : ℕ) → IsSized (new_bloom_filter expected n)
unfolding new_bloom_filter
new_bloom_filter-IsSized expected n = elim (Bool-cases (eqb expected 0)) [
  | inl none_expected ↦ record {
    sized = ground (arith, none_expected, length-zeros 1);
    some_words = ground (arith, none_expected, length-zeros 1);
  }
  | inr some_expected ↦ record {
    sized = ground (arith, some_expected, length-zeros ((expected * 10 + 63) / 64));
    some_words = ground (arith, some_expected, length-zeros ((expected * 10 + 63) / 64));
  }
]

module _ (sum64 : ℕ → ℕ) where
  add-IsSized : (jti : ℕ) (bf : BloomFilter) → IsSized bf → IsSized (add sum64 jti bf)
  unfolding add
  add-IsSized jti bf fit = ground (
    arith,
    fit.sized,
    fit.some_words,
    length-add_probes bf.num_bits bf.num_hash 0 (hashes sum64 jti) bf.bits,
  )

  test-add : (jti : ℕ) (bf : BloomFilter) → IsSized bf → test sum64 jti (add sum64 jti bf) ≡ true
  unfolding test add
  test-add jti bf fit =
      test_probes-add_probes bf.num_bits bf.num_hash 0 (hashes sum64 jti) bf.bits fit.sized
        fit.some_words

  test-add_other :
      (jti other : ℕ) (bf : BloomFilter)
      → test sum64 jti bf ≡ true
      → test sum64 jti (add sum64 other bf) ≡ true
  unfolding test add
  test-add_other jti other bf held =
      test_probes-add_probes_other bf.num_bits bf.num_hash 0 bf.num_hash 0 (hashes sum64 jti)
        (hashes sum64 other) bf.bits held

  test-add_all_other :
      (jti : ℕ) (jtis : List ℕ) (bf : BloomFilter)
      → test sum64 jti bf ≡ true
      → test sum64 jti (add_all sum64 jtis bf) ≡ true
  unfolding add_all
  test-add_all_other jti [] bf held = held
  test-add_all_other jti (other ∷ jtis) bf held =
      test-add_all_other jti jtis (add sum64 other bf) (test-add_other jti other bf held)

  -- Every identifier that was added to a filter is found in it.
  test-add_all :
      (jti : ℕ) (jtis : List ℕ) (bf : BloomFilter)
      → IsSized bf
      → any (λ j. j == jti) jtis ≡ true
      → test sum64 jti (add_all sum64 jtis bf) ≡ true
  unfolding add_all
  test-add_all jti [] bf fit listed = cc
  test-add_all jti (j ∷ jtis) bf fit listed = elim (Bool-cases (eqb j jti)) [
    | inl this ↦
        test-add_all_other jti jtis (add sum64 j bf)
          (rw ((eqb_iff j jti).0 this) (test-add jti bf fit))
    | inr other ↦
        test-add_all jti jtis (add sum64 j bf) (add-IsSized j bf fit)
          (ground (arith, other, listed))
  ]

-- The filter that is built of identifiers finds each of them.
pub test-filter_of :
    (sum64 : ℕ → ℕ) (jti : ℕ) (jtis : List ℕ)
    → any (λ j. j == jti) jtis ≡ true
    → test sum64 jti (filter_of sum64 jtis) ≡ true
test-filter_of sum64 jti jtis listed =
    test-add_all sum64 jti jtis _ (new_bloom_filter-IsSized _ 6) listed
