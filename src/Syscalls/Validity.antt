-- ===== src/Syscalls/Validity.antt =====
-- The three tests of an index, in the lock and condition calls of code/userprog/exception.cc.
use usc_cs.Common.{
  ℕ, ◌<◌, ◌≡◌, ◌⊎◌, refl, ◌∙◌, inl, inr, true, false, ◌&&◌, Option, none, some, ltb, same, same→eq,
  if◌then◌else◌, Bool-cases, arith,
}
use usc_cs.Common.Int.{ℤ, pos, negsuc}
use usc_cs.BitMap.{BitMap, clear}
use usc_cs.BitMap.Bits.{IsValid, used, test-used, clear_lem}
use usc_cs.Syscalls.{
  Outcome, ok, Tables, my_space, check, check_lock, check_condition, at_valid, on_lock,
  on_condition,
}

-- A map is not allocated yet, or has a bit for each entry of its table.
abbrev pub MapOk : BitMap → ℕ → Type 0
MapOk map size = (size ≡ 0) ⊎ (IsValid map × (map.num_bits ≡ size))

pub record Maps (k : Tables) : Type 0 where
  pub locks : MapOk k.lock_map k.lock_array_size
  pub conditions : MapOk k.condition_map k.condition_array_size

-- What the three tests of an index establish.
pub record Valid (map : BitMap) (size : ℕ) (me : Option ℕ) (i : ℤ) (space_of : ℕ → Option ℕ) (n : ℕ)
    : Type 0 where
  pub index : i ≡ pos n
  pub bound : n < size
  pub marked : used map n ≡ true
  pub mine : space_of n ≡ me

pub check_lem :
    (map : BitMap) (size : ℕ) (me : Option ℕ) (i : ℤ) (space_of : ℕ → Option ℕ)
    → MapOk map size
    → (r : Option ℕ) × (check map size me i space_of ≡ ok r)
      × ((n : ℕ) → r ≡ some n → Valid map size me i space_of n)
check_lem map size me (negsuc n) space_of h = (none, refl, λ n e. cc)
check_lem map size me (pos n) space_of (inl z) = (none, ground arith, λ n e. cc)
check_lem map size me (pos n) space_of (inr (v, bits)) = elim (Bool-cases (ltb n size)) [
  | inr out ↦ (none, rw out, λ n e. cc)
  | inl inside ↦
      let t = test-used map n (ground arith) in
      (
        if used map n && same (space_of n) me then some n else none,
        rw (inside, t),
        λ m e. record {
          index = ground arith;
          bound = ground arith;
          marked = ground arith;
          mine = ground (arith, same→eq (space_of n) me);
        },
      )
]

-- A call that does what it should at a valid index does so at every index.
abbrev pub Ends : Tables → (Tables → Type 0) → Outcome Tables → Type 0
Ends k P r = (k' : Tables) × (r ≡ ok k') × P k'

pub on_lock-Ends :
    (i : ℤ) (f : ℕ → Outcome Tables) (k : Tables)
    → Maps k
    → ((n : ℕ) → n < k.lock_array_size → Ends k Maps (f n))
    → Ends k Maps (on_lock i f k)
unfolding check_lock
on_lock-Ends i f k h total =
    let (r, run, valid) =
      check_lem k.lock_map k.lock_array_size (some (my_space k)) i
        (λ n. (k.lock_table n).lock_space) h.locks in
    rw run (go r valid)
  where
    go :
        (r : Option ℕ)
        → ((n : ℕ)
            → r ≡ some n
            → Valid k.lock_map k.lock_array_size
                (some (my_space k))
                i
                (λ n. (k.lock_table n).lock_space)
                n)
        → Ends k Maps (at_valid k f r)
    go none valid = (k, refl, h)
    go (some n) valid = total n (valid n refl).bound

pub on_condition-Ends :
    (i : ℤ) (f : ℕ → Outcome Tables) (k : Tables)
    → Maps k
    → ((n : ℕ) → n < k.condition_array_size → Ends k Maps (f n))
    → Ends k Maps (on_condition i f k)
unfolding check_condition
on_condition-Ends i f k h total =
    let (r, run, valid) =
      check_lem k.condition_map k.condition_array_size (some (my_space k)) i
        (λ n. (k.condition_table n).condition_space) h.conditions in
    rw run (go r valid)
  where
    go :
        (r : Option ℕ)
        → ((n : ℕ)
            → r ≡ some n
            → Valid k.condition_map k.condition_array_size
                (some (my_space k))
                i
                (λ n. (k.condition_table n).condition_space)
                n)
        → Ends k Maps (at_valid k f r)
    go none valid = (k, refl, h)
    go (some n) valid = total n (valid n refl).bound

pub clear-MapOk :
    (map : BitMap) (size n : ℕ)
    → MapOk map size
    → n < size
    → (m : BitMap) × (clear map n ≡ some m) × MapOk m size × (used m n ≡ false)
clear-MapOk map size n (inl z) h = absurd (omega arith)
clear-MapOk map size n (inr (v, bits)) h =
    let (m, run, sets) = clear_lem map n v (omega arith) in
    (m, run, inr (sets.valid, sets.bits ∙ bits), ground (arith, sets.at n))
