-- ===== src/Server/Variables.antt =====
-- The monitor variables of code/network/server.cc: named arrays of ints that clients read and write.
-- An operation that returns `none` has failed the ASSERT of a bit map or left an array.
use usc_cs.Common.{
  ℕ, Bool, true, false, Option, none, some, List, ltb, ◌==◌, if◌then◌else◌, ◌>>=◌, put, get_elem?,
  set, length, replicate, get_elem?-set, length-set, ◌≡◌, ◌≢◌, ◌⊎◌, inl, inr, refl, ◌∙◌, ap,
  Bool-cases, arith, subst, sym, zero, suc, [], ◌∷◌,
}
use usc_cs.Common.Int.{ℤ, pos, negsuc, minus_one}
use usc_cs.BitMap.{BitMap}
use usc_cs.BitMap
use usc_cs.BitMap.Bits.{used, test-used}
use usc_cs.Server.Operations.{allocate_table, claim, Claim, existing, fresh, full, check_index}

abbrev pub max_entries : ℕ
max_entries = 500

pub record ServerMvEntry : Type 0 where
  pub mv_entries : List ℤ
  pub num_entries : ℕ
  pub name : ℕ

pub record Variables : Type 0 where
  pub mv_map : BitMap
  pub mv_table : ℕ → ServerMvEntry
  pub mv_array_size : ℕ

-- `entries` new ints, each with the initial value.
abbrev pub filled : ℕ → ℕ → ℤ → ServerMvEntry
filled name entries initial = record {
  mv_entries = replicate entries initial;
  num_entries = entries;
  name = name;
}

abbrev pub with_mv : ServerMvEntry → Claim → Variables → Variables × Option ℕ
with_mv e (existing i) v = (v, some i)
with_mv e (fresh n) v = (record v { mv_table = put v.mv_table n e }, some n)
with_mv e full v = (v, none)

-- A free index, or the one that the name has already.
abbrev pub create_with : ServerMvEntry → Variables → Option (Variables × Option ℕ)
create_with e v = do
  (map, c) ← claim e.name v.mv_map (λ i. (v.mv_table i).name)
  some (with_mv e c (record v { mv_map = map }))

abbrev pub create_small : ℕ → ℕ → ℤ → Variables → Option (Variables × Option ℕ)
create_small entries name initial v =
    if ltb max_entries entries then some (v, none) else create_with (filled name entries initial) v

-- ServerCreateMV; `none` inside is -1.
unfoldable pub server_create_mv : List ℕ → ℕ → ℕ → ℤ → Variables → Option (Variables × Option ℕ)
server_create_mv memory name entries initial v = do
  (map, size) ← allocate_table v.mv_map v.mv_array_size memory
  create_small entries name initial (record v { mv_map = map; mv_array_size = size })

-- ServerDestroyMV
abbrev pub destroy_mv_valid : Option ℕ → Variables → Option Variables
destroy_mv_valid none v = some v
destroy_mv_valid (some n) v = do m ← BitMap.clear v.mv_map n; some (record v { mv_map = m })

unfoldable pub server_destroy_mv : ℤ → Variables → Option Variables
server_destroy_mv i v = do r ← check_index v.mv_map v.mv_array_size i; destroy_mv_valid r v

-- ServerGetMV
abbrev pub read_entry : ServerMvEntry → ℤ → Option ℤ
read_entry e (negsuc k) = some minus_one
read_entry e (pos k) = if ltb k e.num_entries then get_elem? e.mv_entries k else some minus_one

abbrev pub get_valid : ℤ → Option ℕ → Variables → Option ℤ
get_valid j none v = some minus_one
get_valid j (some n) v = read_entry (v.mv_table n) j

unfoldable pub server_get_mv : ℤ → ℤ → Variables → Option ℤ
server_get_mv i j v = do r ← check_index v.mv_map v.mv_array_size i; get_valid j r v

-- ServerSetMV
abbrev pub write_entry : ServerMvEntry → ℤ → ℤ → ServerMvEntry
write_entry e (negsuc k) x = e
write_entry e (pos k) x =
    if ltb k e.num_entries then record e { mv_entries = set e.mv_entries k x } else e

abbrev pub set_valid : ℤ → ℤ → Option ℕ → Variables → Variables
set_valid j x none v = v
set_valid j x (some n) v = record v { mv_table = put v.mv_table n (write_entry (v.mv_table n) j x) }

unfoldable pub server_set_mv : ℤ → ℤ → ℤ → Variables → Option Variables
server_set_mv i j x v = do r ← check_index v.mv_map v.mv_array_size i; some (set_valid j x r v)

-- The map has a bit for each entry of the table, and each array the length that its entry says.
pub record Sized (v : Variables) : Type 0 where
  pub bits : (v.mv_array_size ≡ 0) ⊎ (v.mv_map.num_bits ≡ v.mv_array_size)
  pub lengths : (n : ℕ) → length (v.mv_table n).mv_entries ≡ (v.mv_table n).num_entries

check_index-total :
    (map : BitMap) (size : ℕ) (i : ℤ)
    → (size ≡ 0) ⊎ (map.num_bits ≡ size)
    → (r : Option ℕ) × (check_index map size i ≡ some r)
unfolding check_index
check_index-total map size (negsuc n) h = (none, refl)
check_index-total map size (pos n) h = elim (Bool-cases (ltb n size)) [
  | inr out ↦ (none, rw out refl)
  | inl inside ↦ elim h [
    | inl z ↦ absurd (ground arith)
    | inr e ↦
        (if used map n then some n else none, rw (inside, test-used map n (ground arith)) refl)
  ]
]

-- Is the entry index inside the array?
abbrev pub inside : ServerMvEntry → ℤ → Bool
inside e (pos k) = ltb k e.num_entries
inside e (negsuc k) = false

read_back_entry :
    (e : ServerMvEntry) (j x : ℤ)
    → length e.mv_entries ≡ e.num_entries
    → (length (write_entry e j x).mv_entries ≡ (write_entry e j x).num_entries)
      × (read_entry (write_entry e j x) j ≡ some (if inside e j then x else minus_one))
read_back_entry e (negsuc k) x h = (h, refl)
read_back_entry e (pos k) x h = elim (Bool-cases (ltb k e.num_entries)) [
  | inl small ↦ rw small (
    length-set e.mv_entries k x ∙ h,
    rw small (get_elem?-set e.mv_entries k k x (ground arith) ∙ ground arith),
  )
  | inr big ↦ rw big (h, rw big refl)
]

write_outside : (e : ServerMvEntry) (j x : ℤ) → inside e j ≡ false → write_entry e j x ≡ e
write_outside e (negsuc k) x out = refl
write_outside e (pos k) x out = rw out refl

-- The array and all its other entries are as they were.
pub Elsewhere : ℤ → ServerMvEntry → ServerMvEntry → Type 0
Elsewhere j e e' =
    (e'.num_entries ≡ e.num_entries)
    × (e'.name ≡ e.name)
    × ((k : ℕ) → j ≢ pos k → get_elem? e'.mv_entries k ≡ get_elem? e.mv_entries k)

get_elem?-other :
    (xs : List ℤ) (i k : ℕ) (x : ℤ) → i ≢ k → get_elem? (set xs i x) k ≡ get_elem? xs k
get_elem?-other [] i k x h = refl
get_elem?-other (y ∷ xs) zero zero x h = absurd (h refl)
get_elem?-other (y ∷ xs) zero (suc k) x h = refl
get_elem?-other (y ∷ xs) (suc i) zero x h = refl
get_elem?-other (y ∷ xs) (suc i) (suc k) x h = get_elem?-other xs i k x λ e. h (ap suc e)

write_entry-Elsewhere : (e : ServerMvEntry) (j x : ℤ) → Elsewhere j e (write_entry e j x)
unfolding Elsewhere
write_entry-Elsewhere e (negsuc i) x = (refl, refl, λ k other. refl)
write_entry-Elsewhere e (pos i) x = elim (Bool-cases (ltb i e.num_entries)) [
  | inl small ↦
      rw small
        (refl, refl, λ k other. get_elem?-other e.mv_entries i k x λ same. other (ap pos same))
  | inr big ↦ rw big (refl, refl, λ k other. refl)
]

-- The two indices name no entry: the first one no array of the table, or the second one no entry of it.
pub NoEntry : Variables → ℤ → ℤ → Type 0
NoEntry v i j =
    (check_index v.mv_map v.mv_array_size i ≡ some none)
    ⊎ ((n : ℕ) × (check_index v.mv_map v.mv_array_size i ≡ some (some n))
        × (inside (v.mv_table n) j ≡ false))

put_same {ℓ} : {A : Type ℓ} (f : ℕ → A) (n m : ℕ) (a : A) → a ≡ f n → put f n a m ≡ f m
put_same f n m a e = elim (Bool-cases (n == m)) [
  | inl q ↦ let same : n ≡ m = ground arith in rw q (e ∙ ap f same)
  | inr q ↦ rw q refl
]

put_keeps {ℓ} :
    (v : Variables) (n m : ℕ) (e : ServerMvEntry) (P : ServerMvEntry → Type ℓ)
    → P e
    → P (v.mv_table m)
    → P (put v.mv_table n e m)
put_keeps v n m e P new old = elim (Bool-cases (n == m)) [ inl q ↦ rw q new | inr q ↦ rw q old ]

-- On tables in order neither SetMV nor GetMV fails, whatever the two indices are. Where they name an
-- entry of an array, GetMV afterwards reads the value that SetMV wrote, and the other entries and the
-- other arrays are as before; where they name none, SetMV changes no array, and GetMV answers -1.
pub set_then_get :
    (v : Variables) (i j x : ℤ)
    → Sized v
    → (v' : Variables) × (server_set_mv i j x v ≡ some v')
      × Sized v'
      × (((n : ℕ) × (check_index v.mv_map v.mv_array_size i ≡ some (some n))
            × (inside (v.mv_table n) j ≡ true)
            × (server_get_mv i j v' ≡ some x)
            × Elsewhere j (v.mv_table n) (v'.mv_table n)
            × ((m : ℕ) → m ≢ n → v'.mv_table m ≡ v.mv_table m))
          ⊎ (NoEntry v i j
              × (server_get_mv i j v' ≡ some minus_one)
              × ((m : ℕ) → v'.mv_table m ≡ v.mv_table m)))
unfolding server_set_mv server_get_mv NoEntry
set_then_get v i j x h =
    let (r, run) = check_index-total v.mv_map v.mv_array_size i h.bits in go r run
  where
    go :
        (r : Option ℕ)
        → check_index v.mv_map v.mv_array_size i ≡ some r
        → (v' : Variables) × (server_set_mv i j x v ≡ some v')
          × Sized v'
          × (((n : ℕ) × (check_index v.mv_map v.mv_array_size i ≡ some (some n))
                × (inside (v.mv_table n) j ≡ true)
                × (server_get_mv i j v' ≡ some x)
                × Elsewhere j (v.mv_table n) (v'.mv_table n)
                × ((m : ℕ) → m ≢ n → v'.mv_table m ≡ v.mv_table m))
              ⊎ (NoEntry v i j
                  × (server_get_mv i j v' ≡ some minus_one)
                  × ((m : ℕ) → v'.mv_table m ≡ v.mv_table m)))
    go none run = (v, rw run refl, h, inr (inl run, rw run refl, λ m. refl))
    go (some n) run =
        let e = v.mv_table n in
        let (fits, reads) = read_back_entry e j x (h.lengths n) in
        let v' = record v { mv_table = put v.mv_table n (write_entry e j x) } in
        let at : v'.mv_table n ≡ write_entry e j x = ground arith in
        let again : server_get_mv i j v' ≡ some (if inside e j then x else minus_one) =
          rw run (ap (λ e. read_entry e j) at ∙ reads) in
        let sized : Sized v' = record {
          bits = h.bits;
          lengths = λ m.
              put_keeps v n m (write_entry e j x) (λ e. length e.mv_entries ≡ e.num_entries) fits
                (h.lengths m);
        } in
        (
          v',
          rw run refl,
          sized,
          elim (Bool-cases (inside e j)) [
            | inl good ↦ inl (
              n,
              run,
              good,
              again ∙ ap (λ b. some (if b then x else minus_one)) good,
              subst (Elsewhere j e) (sym at) (write_entry-Elsewhere e j x),
              λ m other. ground arith,
            )
            | inr bad ↦ inr (
              inr (n, run, bad),
              again ∙ ap (λ b. some (if b then x else minus_one)) bad,
              λ m. put_same v.mv_table n m (write_entry e j x) (write_outside e j x bad),
            )
          ],
        )
