-- ===== src/Server/Creation.antt =====
-- ServerCreateLock (code/network/server.cc) hands out one index for each name.
use usc_cs.Common.{
  ℕ, ◌<◌, true, false, none, some, List, length, ◌≡◌, ◌⊎◌, inl, inr, refl, ◌∙◌, put, Option-cases,
  arith,
}
use usc_cs.BitMap.{BitMap, div_round_up, bits_in_word}
use usc_cs.BitMap.Bits.{used, IsValid, Sets, find_lem, AllWords}
use usc_cs.BitMap.Lifetime.{new_lem}
use usc_cs.Common.Int.{pos}
use usc_cs.Server.{new_server_lock}
use usc_cs.Server.Operations.{
  Server, ServerLockEntry, max_server_locks, existing, fresh, full, claim, allocate_table,
  lock_names, server_create_lock,
}
use usc_cs.Server.Names.{
  named, find_name_lem, first_match, first_match-none, first_match-some, first_match-only,
}

-- A map with a bit for each entry.
pub record Fits (map : BitMap) : Type 0 where
  pub valid : IsValid map
  pub bits : map.num_bits ≡ max_server_locks

abbrev pub TableOk : BitMap → ℕ → Type 0
TableOk map size = (size ≡ 0) ⊎ ((size ≡ max_server_locks) × Fits map)

-- What the search for a name finds.
claim_existing :
    (map : BitMap) (name : ℕ) (name_of : ℕ → ℕ) (n : ℕ)
    → Fits map
    → first_match max_server_locks 0 (named map name_of name) ≡ some n
    → claim name map name_of ≡ some (map, existing n)
unfolding claim
claim_existing map name name_of n f e =
    let bits = f.bits in
    rw (find_name_lem max_server_locks 0 name map name_of (omega arith), e) refl

data Claims (map : BitMap) (name : ℕ) (name_of : ℕ → ℕ) : Type 0 where
  found :
      (n : ℕ)
      → claim name map name_of ≡ some (map, existing n)
      → used map n ≡ true
      → name_of n ≡ name
      → n < max_server_locks
      → Claims map name name_of
  made :
      (n : ℕ) (c : BitMap)
      → claim name map name_of ≡ some (c, fresh n)
      → n < max_server_locks
      → Sets map n true c
      → ((j : ℕ) → j < max_server_locks → named map name_of name j ≡ false)
      → Claims map name name_of
  none_left :
      claim name map name_of ≡ some (map, full)
      → ((j : ℕ) → j < max_server_locks → used map j ≡ true)
      → Claims map name name_of

claim_lem : (map : BitMap) (name : ℕ) (name_of : ℕ → ℕ) → Fits map → Claims map name name_of
unfolding claim
claim_lem map name name_of f =
    let bits = f.bits in
    elim (Option-cases (first_match max_server_locks 0 (named map name_of name))) [
      | inr (n, e) ↦
          let (bound, h) = first_match-some max_server_locks 0 n (named map name_of name) e in
          found n (claim_existing map name name_of n f e) (ground arith) (ground arith)
            (omega arith)
      | inl e ↦
          let (c, r, run, finds) = find_lem map f.valid in
          let unnamed = first_match-none max_server_locks 0 (named map name_of name) e in
          let search = find_name_lem max_server_locks 0 name map name_of (omega arith) in
          elim (Option-cases r) [
            | inl none_free ↦
                let (same, all) = finds.full none_free in
                none_left (rw (search, e, run, none_free, same) refl)
                  (λ j small. all j (omega arith) (omega arith))
            | inr (n, q) ↦
                let (small, free_before, earlier, sets) = finds.got n q in
                made n c (rw (search, e, run, q) refl) (omega arith) sets
                  (λ j small. unnamed j (omega arith) (omega arith))
          ]
    ]

allocate_table_lem :
    (map : BitMap) (size : ℕ) (memory : List ℕ)
    → TableOk map size
    → length memory ≡ div_round_up max_server_locks bits_in_word
    → AllWords memory
    → (m : BitMap) × (allocate_table map size memory ≡ some (m, max_server_locks)) × Fits m
allocate_table_lem map size memory (inl zero_size) words fit =
    let (m, run, valid, bits, clear) = new_lem max_server_locks memory words fit in
    (m, rw (zero_size, run) refl, record { valid = valid; bits = bits })
allocate_table_lem map size memory (inr (full_size, f)) words fit = (map, rw full_size refl, f)

-- A name that has one index gets it again, and nothing changes.
again :
    (memory : List ℕ) (name n : ℕ) (s : Server)
    → Fits s.lock_map
    → named s.lock_map (lock_names s) name n ≡ true
    → n < max_server_locks
    → ((j : ℕ) → j < n → named s.lock_map (lock_names s) name j ≡ false)
    → server_create_lock memory name (record s { lock_array_size = max_server_locks })
      ≡ some (record s { lock_array_size = max_server_locks }, some n)
unfolding server_create_lock
again memory name n s f here bound before =
    let first =
      first_match-only max_server_locks 0 n (named s.lock_map (lock_names s) name) here
        (omega arith) (omega arith) (λ j a b. before j b) in
    rw (claim_existing s.lock_map name (lock_names s) n f first) refl

-- Where ServerCreateLock answers an index, that index stands for a lock of the name, and the same call
-- made again answers the same index and changes nothing: two clients that create a lock of one name
-- share it. It answers -1 only with every entry taken.
pub create_lock_named :
    (memory : List ℕ) (name : ℕ) (s : Server)
    → TableOk s.lock_map s.lock_array_size
    → length memory ≡ div_round_up max_server_locks bits_in_word
    → AllWords memory
    → (s' : Server) × (((server_create_lock memory name s ≡ some (s', none))
          × ((j : ℕ) → j < max_server_locks → used s'.lock_map j ≡ true))
        ⊎ ((n : ℕ) × (server_create_lock memory name s ≡ some (s', some n))
            × (n < max_server_locks)
            × (used s'.lock_map n ≡ true)
            × (lock_names s' n ≡ name)
            × (server_create_lock memory name s' ≡ some (s', some n))))
unfolding server_create_lock
create_lock_named memory name s ok words fit =
    let (m, run, f) = allocate_table_lem s.lock_map s.lock_array_size memory ok words fit in
    go m run f (claim_lem m name (lock_names s) f)
  where
    go :
        (m : BitMap)
        → allocate_table s.lock_map s.lock_array_size memory ≡ some (m, max_server_locks)
        → Fits m
        → Claims m name (lock_names s)
        → (s' : Server) × (((server_create_lock memory name s ≡ some (s', none))
              × ((j : ℕ) → j < max_server_locks → used s'.lock_map j ≡ true))
            ⊎ ((n : ℕ) × (server_create_lock memory name s ≡ some (s', some n))
                × (n < max_server_locks)
                × (used s'.lock_map n ≡ true)
                × (lock_names s' n ≡ name)
                × (server_create_lock memory name s' ≡ some (s', some n))))
    go m run f (none_left e all) =
        (record s { lock_map = m; lock_array_size = max_server_locks }, inl (rw (run, e) refl, all))
    go m run f (found n e marked has_name bound) = (
      record s { lock_map = m; lock_array_size = max_server_locks },
      inr (n, rw (run, e) refl, bound, marked, has_name, rw e refl),
    )
    go m run f (made n c e bound sets unnamed) =
        let e' : ServerLockEntry = record {
          lock = new_server_lock name;
          is_to_be_deleted = false;
          acquire_count = pos 0;
        } in
        let t = record s { lock_map = c; lock_table = put s.lock_table n e' } in
        let bits = sets.bits in
        let marked : used c n ≡ true = ground (arith, sets.at n) in
        let has_name : lock_names t n ≡ name = ground arith in
        (
          record t { lock_array_size = max_server_locks },
          inr (
            n,
            rw (run, e) refl,
            bound,
            marked,
            has_name,
            again memory name n t (record { valid = sets.valid; bits = bits ∙ f.bits })
                (ground arith) bound (λ j small. ground (arith, sets.at j, unnamed j)),
          ),
        )
