-- ===== src/Memory/Bytes.antt =====
-- The memory of code/machine/translate.cc holds bytes, and what Machine::ReadMem answers is an int.
use usc_cs.Common.{
  ℕ, zero, suc, ◌+◌, ◌/◌, ◌%◌, ◌^◌, ◌<◌, ◌≡◌, sym, subst, Bool, true, false, ◌||◌, ◌==◌, Option,
  none, some, ◌>>=◌, assert, put, arith, Bool-cases, inl, inr,
}
use usc_cs.Memory.{
  Machine, Translated, refused, physical, translate, load, store, read_value, Access, raised, done,
  stamp, read_at, read_mem, write_at, write_mem,
}
use usc_cs.Memory.Contents.{Keeps, translate-Keeps}

abbrev pub IsBytes : (ℕ → ℕ) → Type 0
IsBytes memory = (a : ℕ) → memory a < 256

load-lt : (p : ℕ) (memory : ℕ → ℕ) → IsBytes memory → load 4 p memory < 2 ^ 32
load-lt p memory h = omega (arith, h p, h (p + 1), h (p + 1 + 1), h (p + 1 + 1 + 1))

-- The value of a read is a word.
IsWord : Option ℕ → Type 0
IsWord none = Unit
IsWord (some v) = v < 2 ^ 32

read_value-IsWord :
    (size p : ℕ) (memory : ℕ → ℕ) → IsBytes memory → IsWord (read_value size p memory)
unfolding IsWord
read_value-IsWord size p memory h = elim (Bool-cases (size == 1)) [
  | inl one ↦ rw one (ground (arith, h p))
  | inr other ↦ elim (Bool-cases (size == 2)) [
    | inl two ↦
        let size_two : size ≡ 2 = ground arith in rw size_two (omega (arith, h p, h (p + 1)))
    | inr not_two ↦ elim (Bool-cases (size == 4)) [
      | inl four ↦ let size_four : size ≡ 4 = ground arith in rw size_four (load-lt p memory h)
      | inr not_four ↦ rw (other, not_two, not_four) tt
    ]
  ]
]

store-IsBytes : (n p v : ℕ) (memory : ℕ → ℕ) → IsBytes memory → IsBytes (store n p v memory)
store-IsBytes zero p v memory h = h
store-IsBytes (suc n) p v memory h =
    store-IsBytes n (p + 1) (v / 256) (put memory p (v % 256)) λ a. ground (arith, h a)

-- What an access leaves in memory, and the value it answers.
unfoldable pub ReadBytes : Option (Access ℕ) → Type 0
ReadBytes none = Unit
ReadBytes (some (raised e)) = Unit
ReadBytes (some (done v m)) = (v < 2 ^ 32) × IsBytes m.main_memory

pub read_mem-Bytes :
    (addr size : ℕ) (m : Machine) → IsBytes m.main_memory → ReadBytes (read_mem addr size m)
unfolding read_mem ReadBytes Keeps IsWord
read_mem-Bytes addr size m h = go (translate addr size false m) (translate-Keeps addr size false m)
  where
    answered :
        (n : Machine) (o : Option ℕ)
        → IsWord o
        → IsBytes n.main_memory
        → ReadBytes (do v ← o; some (done v n))
    answered n none w b = tt
    answered n (some v) w b = (w, b)

    go : (t : Option Translated) → Keeps m.main_memory t → ReadBytes (do r ← t; read_at size r)
    go none k = tt
    go (some (refused e)) k = tt
    go (some (physical p n)) k =
        let bytes : IsBytes n.main_memory = subst IsBytes (sym k) h in
        answered (stamp p n) (read_value size p n.main_memory)
          (read_value-IsWord size p n.main_memory bytes) bytes

unfoldable pub WriteBytes : Option (Access (Unit {0})) → Type 0
WriteBytes none = Unit
WriteBytes (some (raised e)) = Unit
WriteBytes (some (done u m)) = IsBytes m.main_memory

pub write_mem-Bytes :
    (addr size value : ℕ) (m : Machine)
    → IsBytes m.main_memory
    → WriteBytes (write_mem addr size value m)
unfolding write_mem WriteBytes Keeps
write_mem-Bytes addr size value m h =
    go (translate addr size true m) (translate-Keeps addr size true m)
  where
    stored :
        (b : Bool) (p : ℕ) (n : Machine) (f : ℕ → ℕ)
        → IsBytes f
        → WriteBytes
            (do memory ← assert b f; some (done tt (stamp p (record n { main_memory = memory }))))
    stored true p n f k = k
    stored false p n f k = tt

    go :
        (t : Option Translated)
        → Keeps m.main_memory t
        → WriteBytes (do r ← t; write_at size value r)
    go none k = tt
    go (some (refused e)) k = tt
    go (some (physical p n)) k =
        stored ((size == 1) || (size == 2) || (size == 4)) p n (store size p value n.main_memory)
          (store-IsBytes size p value n.main_memory (subst IsBytes (sym k) h))
