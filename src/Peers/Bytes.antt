-- ===== src/Peers/Bytes.antt =====
-- What is written into the bytes of a message (code/network/server.cc) is read out of it.
use usc_cs.Common.{
  ℕ, zero, suc, ◌+◌, ◌-◌, ◌^◌, ◌<◌, ◌≤◌, ◌≡◌, ◌≢◌, refl, ◌∙◌, sym, ap, true, false, ltb, ◌==◌, List,
  [], ◌∷◌, get_or, Bool-cases, inl, inr, arith,
}
use usc_cs.Wire.{extract_int, compress_int}
use usc_cs.Wire.Integers.{extract_int-compress_int}
use usc_cs.Peers.Messages.{offset, int_at, put_int, text_at, put_text}

pub int_at-put_int : (k x : ℕ) (bytes : ℕ → ℕ) → x < 2 ^ 32 → int_at k (put_int k x bytes) ≡ x
int_at-put_int k x bytes h =
    let same : (i : ℕ) → offset k (put_int k x bytes) i ≡ compress_int x (offset k bytes) i =
      λ i. ground arith in
    ap extract_int (λ j i. same i j) ∙ (extract_int-compress_int x (offset k bytes) h).0

pub int_at-word : (k : ℕ) (bytes : ℕ → ℕ) → int_at k bytes < 2 ^ 32
unfolding extract_int
int_at-word k bytes = omega arith

-- The bytes behind the four of the int.
pub put_int-behind :
    (k x i : ℕ) (bytes : ℕ → ℕ) → x < 2 ^ 32 → k + 4 ≤ i → put_int k x bytes i ≡ bytes i
put_int-behind k x i bytes h far =
    let beyond = (extract_int-compress_int x (offset k bytes) h).1 (i - k) (omega arith) in
    let back : k + (i - k) ≡ i = omega arith in
    let past : ltb i k ≡ false = ground arith in rw past (beyond ∙ ap bytes back)

-- Characters of a text: none of them is 0.
abbrev pub IsText : ℕ → List ℕ → Type 0
IsText n [] = Unit
IsText zero (c ∷ text) = (true ≡ false)
IsText (suc n) (c ∷ text) = (c ≢ 0) × IsText n text

pub text_at-IsText : (n k : ℕ) (bytes : ℕ → ℕ) → IsText n (text_at n k bytes)
text_at-IsText zero k bytes = tt
text_at-IsText (suc n) k bytes = elim (Bool-cases (bytes k == 0)) [
  | inl ends ↦ rw ends tt
  | inr more ↦ rw more (ground arith, text_at-IsText n (k + 1) bytes)
]

pub text_at-read :
    (n k : ℕ) (text : List ℕ) (bytes : ℕ → ℕ)
    → IsText n text
    → ((j : ℕ) → j < n → bytes (k + j) ≡ get_or text j 0)
    → text_at n k bytes ≡ text
text_at-read zero k [] bytes t h = refl
text_at-read zero k (c ∷ text) bytes t h = absurd (ground arith)
text_at-read (suc n) k [] bytes t h =
    let here : k + 0 ≡ k = omega arith in
    let ends : bytes k ≡ 0 = ap bytes (sym here) ∙ h 0 (omega arith) in rw ends refl
text_at-read (suc n) k (c ∷ text) bytes (nonzero, t) h =
    let here : k + 0 ≡ k = omega arith in
    let first : bytes k ≡ c = ap bytes (sym here) ∙ h 0 (omega arith) in
    let goes_on : (c == 0) ≡ false = ground arith in
    let rest : text_at n (k + 1) bytes ≡ text = text_at-read n (k + 1) text bytes t λ j l.
      let next : k + 1 + j ≡ k + suc j = omega arith in ap bytes next ∙ h (suc j) (omega arith) in
    rw (first, goes_on, rest) refl

-- Where a text that was read from a message is copied to another one, the same text is read there.
pub copied_text :
    (n k x from : ℕ) (bytes blank : ℕ → ℕ)
    → x < 2 ^ 32
    → 5 ≤ k
    → text_at n k (put_int 1 x (put_text k n (text_at n from bytes) blank)) ≡ text_at n from bytes
copied_text n k x from bytes blank h far =
    text_at-read n k (text_at n from bytes) _ (text_at-IsText n from bytes) λ j l.
      let low : ltb (k + j) k ≡ false = ground arith in
      let high : ltb (k + n) (k + j + 1) ≡ false = ground arith in
      let at : k + j - k ≡ j = omega arith in
      put_int-behind 1 x (k + j) (put_text k n (text_at n from bytes) blank) h (omega arith)
      ∙ rw (low, high, at) refl

-- An int from byte 5 on is kept when one is put from byte 1 on.
pub int_at-behind :
    (x y : ℕ) (bytes : ℕ → ℕ)
    → x < 2 ^ 32
    → y < 2 ^ 32
    → int_at 5 (put_int 1 x (put_int 5 y bytes)) ≡ y
int_at-behind x y bytes h k =
    let same : (i : ℕ)
        → offset 5 (put_int 1 x (put_int 5 y bytes)) i ≡ offset 5 (put_int 5 y bytes) i =
      λ i. put_int-behind 1 x (5 + i) (put_int 5 y bytes) h (omega arith) in
    ap extract_int (λ j i. same i j) ∙ int_at-put_int 5 y bytes k
