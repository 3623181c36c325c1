-- ===== src/Directory/Entries.antt =====
-- The table of a directory (code/filesys/directory.cc), one entry after the other.
use usc_cs.Common.{
  ℕ, zero, suc, ◌+◌, Bool, true, ◌&&◌, Option, none, some, List, [], ◌∷◌, if◌then◌else◌, take, ◌≡◌,
  ◌⊎◌, inl, inr, refl, ◌∙◌, sym, ap, Bool-cases, arith,
}
use usc_cs.Directory.{
  DirectoryEntry, is_entry, same_text, file_name_max_len, find_index_from, find_index, find,
  sector_at,
}

-- The sector of the first entry in use with the name: what a directory says.
unfoldable pub lookup : List ℕ → List DirectoryEntry → Option ℕ
lookup name [] = none
lookup name (e ∷ table) = if is_entry name e then some e.sector else lookup name table

-- Names that the directory does not tell apart.
abbrev pub alike : List ℕ → List ℕ → Bool
alike a b = same_text (take file_name_max_len a) (take file_name_max_len b)

pub find_index_from-shift :
    (i : ℕ) (name : List ℕ) (table : List DirectoryEntry)
    → ((find_index_from i name table ≡ none) × (lookup name table ≡ none))
      ⊎ ((k : ℕ) × (find_index_from i name table ≡ some (k + i))
          × (lookup name table ≡ sector_at table (some k)))
unfolding find_index_from lookup
find_index_from-shift i name [] = inl (refl, refl)
find_index_from-shift i name (e ∷ table) = elim (Bool-cases (is_entry name e)) [
  | inl here ↦ inr (0, rw here (ap some (omega arith)), rw here refl)
  | inr other ↦ elim (find_index_from-shift (i + 1) name table) [
    | inl (a, b) ↦ inl (rw (other, a) refl, rw (other, b) refl)
    | inr (k, a, b) ↦ inr (suc k, rw (other, a) (ap some (omega arith)), rw (other, b) refl)
  ]
]

-- Find is lookup.
pub find-lookup :
    (name : List ℕ) (table : List DirectoryEntry) → find name table ≡ lookup name table
unfolding find find_index
find-lookup name table = elim (find_index_from-shift 0 name table) [
  | inl (a, b) ↦ rw (a, b) refl
  | inr (k, a, b) ↦
      let at : k + 0 ≡ k = omega arith in ap (sector_at table) (a ∙ ap some at) ∙ sym b
]

same_text→eq : (a b : List ℕ) → same_text a b ≡ true → a ≡ b
same_text→eq [] [] h = refl
same_text→eq [] (y ∷ b) h = cc
same_text→eq (x ∷ a) [] h = cc
same_text→eq (x ∷ a) (y ∷ b) h =
    let head : x ≡ y = ground arith in
    let rest : same_text a b ≡ true = ground arith in let tail = same_text→eq a b rest in cc

pub same_text_refl : (a : List ℕ) → same_text a a ≡ true
same_text_refl [] = refl
same_text_refl (x ∷ a) = ground (arith, same_text_refl a)

take-take : (n : ℕ) (a : List ℕ) → take n (take n a) ≡ take n a
take-take zero a = refl
take-take (suc n) [] = refl
take-take (suc n) (x ∷ a) = ap (λ b. x ∷ b) (take-take n a)

-- An entry does not tell alike names apart.
pub is_entry-alike :
    (a b : List ℕ) (e : DirectoryEntry) → alike a b ≡ true → is_entry a e ≡ is_entry b e
is_entry-alike a b e h =
    ap (λ t. e.in_use && same_text (take file_name_max_len e.name) t)
      (same_text→eq (take file_name_max_len a) (take file_name_max_len b) h)

pub lookup-alike :
    (a b : List ℕ) (table : List DirectoryEntry)
    → alike a b ≡ true
    → lookup a table ≡ lookup b table
unfolding lookup
lookup-alike a b [] h = refl
lookup-alike a b (e ∷ table) h = rw (is_entry-alike a b e h, lookup-alike a b table h) refl

pub alike-take : (a b : List ℕ) → alike (take file_name_max_len a) b ≡ alike a b
alike-take a b = ap (λ t. same_text t (take file_name_max_len b)) (take-take file_name_max_len a)

same_text_comm : (a b : List ℕ) → same_text a b ≡ same_text b a
same_text_comm [] [] = refl
same_text_comm [] (y ∷ b) = refl
same_text_comm (x ∷ a) [] = refl
same_text_comm (x ∷ a) (y ∷ b) = ground (arith, same_text_comm a b)

pub alike_comm : (a b : List ℕ) → alike a b ≡ alike b a
alike_comm a b = same_text_comm (take file_name_max_len a) (take file_name_max_len b)
