-- ===== src/Memory/Transfer.antt =====
-- What Machine::WriteMem (code/machine/translate.cc) writes, and Machine::ReadMem reads back.
use usc_cs.Common.{
  ℕ, zero, suc, ◌+◌, ◌*◌, ◌/◌, ◌%◌, ◌^◌, ◌≤◌, ◌<◌, ◌≡◌, ◌⊎◌, inl, inr, refl, ◌∙◌, ap, true, some,
  ◌==◌, if◌then◌else◌, put, arith,
}
use usc_cs.Memory.{
  Machine, ExceptionType, memory_size, load, store, sign_extend, read_value, write_value, raised,
  done, stamp, read_mem, write_mem,
}
use usc_cs.Memory.Translation.{OneTable, IsSize, translate_lem}
use usc_cs.Memory.Again.{translate_again}

-- A store changes the `n` bytes from `p` on and no other.
store-outside :
    (n p v a : ℕ) (memory : ℕ → ℕ) → (a < p) ⊎ (p + n ≤ a) → store n p v memory a ≡ memory a
store-outside zero p v a memory h = refl
store-outside (suc n) p v a memory h =
    store-outside n (p + 1) (v / 256) a (put memory p (v % 256)) (ground arith) ∙ ground arith

-- The value of the low `n` bytes.
bytes : ℕ → ℕ → ℕ
bytes zero v = 0
bytes (suc n) v = v % 256 + 256 * bytes n (v / 256)

load-store : (n p v : ℕ) (memory : ℕ → ℕ) → load n p (store n p v memory) ≡ bytes n v
unfolding bytes
load-store zero p v memory = refl
load-store (suc n) p v memory =
    let first : store n (p + 1) (v / 256) (put memory p (v % 256)) p ≡ v % 256 =
      store-outside n (p + 1) (v / 256) p (put memory p (v % 256)) (inl (omega arith))
      ∙ ground arith in
    let rest = load-store n (p + 1) (v / 256) (put memory p (v % 256)) in rw (first, rest) refl

-- What a read of `size` bytes makes of a value that was written there.
abbrev pub as_read : ℕ → ℕ → ℕ
as_read size v = if size == 1 then sign_extend (v % 2 ^ 8) else v % 2 ^ (8 * size)

read_back :
    (size p v : ℕ) (memory : ℕ → ℕ)
    → IsSize size
    → (write_value size p v memory ≡ some (store size p v memory))
      × (read_value size p (store size p v memory) ≡ some (as_read size v))
unfolding bytes
read_back size p v memory (inl e) =
    let low : bytes 1 v ≡ v % 2 ^ 8 = omega arith in
    rw e (refl, ap (λ b. some (sign_extend b)) (load-store 1 p v memory ∙ low))
read_back size p v memory (inr (inl e)) =
    let low : bytes 2 v ≡ v % 2 ^ 16 = omega arith in
    rw e (refl, ap some (load-store 2 p v memory ∙ low))
read_back size p v memory (inr (inr e)) =
    let low : bytes 4 v ≡ v % 2 ^ 32 = omega arith in
    rw e (refl, ap some (load-store 4 p v memory ∙ low))

-- With a TLB or a page table, WriteMem of 1, 2 or 4 bytes either raises an exception, or writes inside
-- the memory: only `size` bytes change there, and a ReadMem of the same address and size then succeeds,
-- leaves the memory alone and reads the low bytes of the value, one byte sign-extended.
pub write_then_read :
    (m : Machine) (addr size v : ℕ)
    → OneTable m
    → IsSize size
    → ((e : ExceptionType) × (write_mem addr size v m ≡ some (raised e)))
      ⊎ ((p : ℕ) × (m' m'' : Machine) × (write_mem addr size v m ≡ some (done tt m'))
          × (p + size ≤ memory_size)
          × ((a : ℕ) → (a < p) ⊎ (p + size ≤ a) → m'.main_memory a ≡ m.main_memory a)
          × (read_mem addr size m' ≡ some (done (as_read size v) m''))
          × (m''.main_memory ≡ m'.main_memory))
unfolding write_mem read_mem
write_then_read m addr size v one sizes = elim (translate_lem m addr size true one sizes) [
  | inl (e, run) ↦ inl (e, rw run refl)
  | inr (p, t, run, at) ↦
      let (writes, reads) = read_back size p v t.main_memory sizes in
      let m' = stamp p (record t { main_memory = store size p v t.main_memory }) in
      let (n, memory, again) =
        translate_again addr size p m t m' one run
          (record { tlb = refl; page_table = refl; size = refl }) in
      inr (
        p,
        m',
        stamp p n,
        rw (run, writes) refl,
        at.inside,
        λ a out. store-outside size p v a t.main_memory out ∙ ap (λ f. f a) at.memory,
        rw (again, memory, reads) refl,
        memory,
      )
]
