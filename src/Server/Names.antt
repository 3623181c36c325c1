-- ===== src/Server/Names.antt =====
-- A name stands for one lock of the server (code/network/server.cc).
use usc_cs.Common.{
  ℕ, zero, suc, ◌+◌, ◌<◌, ◌≤◌, Bool, true, false, ◌&&◌, Option, none, some, ◌==◌, if◌then◌else◌,
  ◌≡◌, inl, inr, refl, sym, ap, subst, Bool-cases, arith,
}
use usc_cs.BitMap.{BitMap}
use usc_cs.BitMap.Bits.{used, test-used}
use usc_cs.Server.Operations.{find_name}

unfoldable pub first_match : ℕ → ℕ → (ℕ → Bool) → Option ℕ
first_match zero i p = none
first_match (suc rounds) i p =
    let rest = first_match rounds (i + 1) p in if p i then some i else rest

-- Has the entry the name?
abbrev pub named : BitMap → (ℕ → ℕ) → ℕ → ℕ → Bool
named map name_of name j = used map j && (name_of j == name)

pub find_name_lem :
    (rounds i name : ℕ) (map : BitMap) (name_of : ℕ → ℕ)
    → rounds + i ≡ map.num_bits
    → find_name rounds i name map name_of ≡ some (first_match rounds i (named map name_of name))
unfolding find_name first_match
find_name_lem zero i name map name_of e = refl
find_name_lem (suc rounds) i name map name_of e =
    rw (test-used map i (omega arith), find_name_lem rounds (i + 1) name map name_of (omega arith))
      (ground arith)

pub first_match-none :
    (rounds i : ℕ) (p : ℕ → Bool)
    → first_match rounds i p ≡ none
    → (j : ℕ) → i ≤ j
    → j < i + rounds
    → p j ≡ false
unfolding first_match
first_match-none zero i p e j low high = absurd (omega arith)
first_match-none (suc rounds) i p e j low high = elim (Bool-cases (p i)) [
  | inl here ↦ let never = rw here at e in cc
  | inr other ↦ let rest = rw other at e in ground (arith, first_match-none rounds (i + 1) p rest j)
]

pub first_match-some :
    (rounds i n : ℕ) (p : ℕ → Bool)
    → first_match rounds i p ≡ some n
    → (n < i + rounds) × (p n ≡ true)
unfolding first_match
first_match-some zero i n p e = cc
first_match-some (suc rounds) i n p e = elim (Bool-cases (p i)) [
  | inl here ↦
      let it : some i ≡ some n = rw here at e in
      let same : i ≡ n = cc in (omega arith, subst (λ k. p k ≡ true) same here)
  | inr other ↦
      let (bound, h) = first_match-some rounds (i + 1) n p (rw other at e) in (omega arith, h)
]

pub first_match-only :
    (rounds i n : ℕ) (p : ℕ → Bool)
    → p n ≡ true
    → i ≤ n
    → n < i + rounds
    → ((j : ℕ) → i ≤ j → j < n → p j ≡ false)
    → first_match rounds i p ≡ some n
unfolding first_match
first_match-only zero i n p h low high before = absurd (omega arith)
first_match-only (suc rounds) i n p h low high before = elim (Bool-cases (i == n)) [
  | inl e ↦
      let same : i ≡ n = ground arith in
      let here : p i ≡ true = subst (λ k. p k ≡ true) (sym same) h in rw here (ap some same)
  | inr e ↦
      let skip : p i ≡ false = before i (omega arith) (ground arith) in
      rw skip (
        first_match-only rounds (i + 1) n p h (ground arith) (omega arith)
          (λ j a b. before j (omega arith) b))
]
