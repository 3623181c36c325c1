-- ===== src/Wire/Integers.antt =====
-- An int goes through a message unchanged: extractInt and compressInt (code/network/server.cc).
use usc_cs.Common.{
  ℕ, zero, suc, ◌+◌, ◌-◌, ◌*◌, ◌/◌, ◌%◌, ◌^◌, ◌<◌, ◌≤◌, ◌≡◌, refl, ◌∙◌, Bool-cases, inl, inr, ltb,
  arith,
}
use usc_cs.Memory.{sign_extend}
use usc_cs.Wire.{extract_int, compress_int}
use usc_cs.Wire.Masks.{and-255, and-65280, and-16711680, and-4278190080}

-- The int that four bytes stand for.
abbrev pub big_endian : ℕ → ℕ → ℕ → ℕ → ℕ
big_endian a b c d = a * 2 ^ 24 + b * 2 ^ 16 + c * 2 ^ 8 + d

widened : (c : ℕ) → c < 256 → (k : ℕ) × (sign_extend c ≡ c + k * 256) × (k < 16777216)
widened c h = elim (Bool-cases (ltb c 128)) [
  | inl low ↦ (0, rw low (omega arith), omega arith)
  | inr high ↦ (16777215, rw high (omega arith), omega arith)
]

extract_int-big_endian :
    (buf : ℕ → ℕ)
    → ((i : ℕ) → i < 4 → buf i < 256)
    → extract_int buf ≡ big_endian (buf 0) (buf 1) (buf 2) (buf 3)
unfolding extract_int
extract_int-big_endian buf h =
    let (i, a, p) = widened (buf 0) (h 0 (omega arith)) in
    let (j, b, q) = widened (buf 1) (h 1 (omega arith)) in
    let (k, c, r) = widened (buf 2) (h 2 (omega arith)) in
    let (l, d, s) = widened (buf 3) (h 3 (omega arith)) in
    let h0 = h 0 (omega arith) in
    let h1 = h 1 (omega arith) in
    let h2 = h 2 (omega arith) in
    let h3 = h 3 (omega arith) in
    rw
      (
        a,
        b,
        c,
        d,
        and-4278190080 ((buf 0 + i * 256) * 2 ^ 24 % 2 ^ 32),
        and-16711680 ((buf 1 + j * 256) * 2 ^ 16 % 2 ^ 32),
        and-65280 ((buf 2 + k * 256) * 2 ^ 8 % 2 ^ 32),
        and-255 ((buf 3 + l * 256) * 2 ^ 0 % 2 ^ 32),
      )
      (omega arith)

compress_int-bytes :
    (x : ℕ) (dest : ℕ → ℕ)
    → x < 2 ^ 32
    → (compress_int x dest 0 ≡ x / 2 ^ 24 % 256)
      × (compress_int x dest 1 ≡ x / 2 ^ 16 % 256)
      × (compress_int x dest 2 ≡ x / 2 ^ 8 % 256)
      × (compress_int x dest 3 ≡ x % 256)
unfolding compress_int
compress_int-bytes x dest h = elim (Bool-cases (ltb x (2 ^ 31))) [
  | inl positive ↦
      rw
        (
          positive,
          and-255 (x / 2 ^ 24),
          and-255 (x / 2 ^ 16),
          and-255 (x / 2 ^ 8),
          and-255 (x / 2 ^ 0),
        )
        (refl, refl, refl, omega arith)
  | inr negative ↦
      rw
        (
          negative,
          and-255 (x / 2 ^ 24 + (2 ^ 32 - 2 ^ 8)),
          and-255 (x / 2 ^ 16 + (2 ^ 32 - 2 ^ 16)),
          and-255 (x / 2 ^ 8 + (2 ^ 32 - 2 ^ 24)),
          and-255 (x / 2 ^ 0 + (2 ^ 32 - 2 ^ 32)),
        )
        (omega arith, omega arith, omega arith, omega arith)
]

below_four : (P : ℕ → Type 0) → P 0 → P 1 → P 2 → P 3 → (i : ℕ) → i < 4 → P i
below_four P a b c d zero h = a
below_four P a b c d (suc zero) h = b
below_four P a b c d (suc (suc zero)) h = c
below_four P a b c d (suc (suc (suc zero))) h = d
below_four P a b c d (suc (suc (suc (suc i)))) h = absurd (omega arith)

compress_int-beyond : (x : ℕ) (dest : ℕ → ℕ) (i : ℕ) → 4 ≤ i → compress_int x dest i ≡ dest i
unfolding compress_int
compress_int-beyond x dest i h = ground arith

-- Of an int, extractInt reads back what compressInt writes, and compressInt writes only the first four
-- bytes.
pub extract_int-compress_int :
    (x : ℕ) (dest : ℕ → ℕ)
    → x < 2 ^ 32
    → (extract_int (compress_int x dest) ≡ x) × ((i : ℕ) → 4 ≤ i → compress_int x dest i ≡ dest i)
extract_int-compress_int x dest h =
    let (a, b, c, d) = compress_int-bytes x dest h in
    (
      extract_int-big_endian (compress_int x dest) (
            below_four (λ i. compress_int x dest i < 256) (omega arith) (omega arith) (omega arith)
              (omega arith))
          ∙ rw (a, b, c, d) (omega arith),
      compress_int-beyond x dest,
    )

-- In a message of bytes, compressInt of what extractInt reads leaves every byte as it was.
pub compress_int-extract_int :
    (buf : ℕ → ℕ) → ((i : ℕ) → buf i < 256) → (i : ℕ) → compress_int (extract_int buf) buf i ≡ buf i
compress_int-extract_int buf h i =
    let h0 = h 0 in
    let h1 = h 1 in
    let h2 = h 2 in
    let h3 = h 3 in
    let value = extract_int-big_endian buf (λ j l. h j) in
    let (a, b, c, d) = compress_int-bytes (extract_int buf) buf (omega arith) in
    elim (Bool-cases (ltb i 4)) [
      | inl inside ↦
          below_four (λ i. compress_int (extract_int buf) buf i ≡ buf i) (omega arith) (omega arith)
            (omega arith) (omega arith) i (ground arith)
      | inr outside ↦ compress_int-beyond (extract_int buf) buf i (ground arith)
    ]
