-- ===== src/Directory/Removal.antt =====
-- Directory::Remove (code/filesys/directory.cc) takes one name out of the directory.
use usc_cs.Common.{
  ℕ, suc, ◌+◌, Bool, true, false, Option, none, some, List, [], ◌∷◌, if◌then◌else◌, ◌≡◌, ◌⊎◌, inl,
  inr, refl, ◌∙◌, sym, ap, Bool-cases, arith,
}
use usc_cs.Directory.{
  DirectoryEntry, is_entry, find_index_from, find_index, find, free_entry_at, remove,
}
use usc_cs.Directory.Entries.{lookup, alike, find-lookup, is_entry-alike, lookup-alike, alike_comm}
use usc_cs.Directory.Files.{Unique}

-- The table without the first entry in use that has the name.
without : List ℕ → List DirectoryEntry → List DirectoryEntry
without name [] = []
without name (e ∷ table) =
    if is_entry name e then record e { in_use = false } ∷ table else e ∷ without name table

find_index_from-without :
    (i : ℕ) (name : List ℕ) (table : List DirectoryEntry)
    → ((find_index_from i name table ≡ none) × (lookup name table ≡ none))
      ⊎ ((k : ℕ) × (find_index_from i name table ≡ some (k + i))
          × (free_entry_at k table ≡ without name table)
          × ((sector : ℕ) × (lookup name table ≡ some sector)))
unfolding find_index_from lookup without
find_index_from-without i name [] = inl (refl, refl)
find_index_from-without i name (e ∷ table) = elim (Bool-cases (is_entry name e)) [
  | inl here ↦ inr (0, rw here (ap some (omega arith)), simp here refl, (e.sector, rw here refl))
  | inr other ↦ elim (find_index_from-without (i + 1) name table) [
    | inl (a, b) ↦ inl (rw (other, a) refl, rw (other, b) refl)
    | inr (k, a, b, (sector, there)) ↦ inr (
      suc k,
      rw (other, a) (ap some (omega arith)),
      simp (other, b) refl,
      (sector, rw (other, there) refl),
    )
  ]
]

alike_trans : (a b c : List ℕ) → alike a b ≡ true → alike b c ≡ true → alike a c ≡ true
alike_trans a b c h k =
    sym (is_entry-alike b c (record { in_use = true; sector = 0; name = a }) k) ∙ h

lookup-without :
    (name : List ℕ) (table : List DirectoryEntry)
    → Unique table
    → (other : List ℕ)
    → lookup other (without name table) ≡ (if alike name other then none else lookup other table)
unfolding lookup without
lookup-without name [] u other = ground arith
lookup-without name (e ∷ table) (here, u) other = elim (Bool-cases (is_entry name e)) [
  | inr q ↦ elim (Bool-cases (alike name other)) [
    | inl same ↦
        let not_here = sym (is_entry-alike name other e same) ∙ q in
        simp (q, same, not_here) (lookup-without name table u other ∙ rw same refl)
    | inr differ ↦
        simp (q, differ)
          (kept e (without name table) table (lookup-without name table u other ∙ rw differ refl))
  ]
  | inl q ↦ elim (Bool-cases (alike name other)) [
    | inl same ↦
        let alone : lookup e.name table ≡ none = ground arith in
        let first : alike e.name name ≡ true = ground arith in
        simp (q, same)
          (sym (lookup-alike e.name other table (alike_trans e.name name other first same)) ∙ alone)
    | inr differ ↦
        let not_here : is_entry other e ≡ false = not_alike q differ in
        simp (q, differ, not_here) refl
  ]
]
  where
    kept :
        (e : DirectoryEntry) (t t' : List DirectoryEntry)
        → lookup other t ≡ lookup other t'
        → lookup other (e ∷ t) ≡ lookup other (e ∷ t')
    kept e t t' h = ap (λ o. if is_entry other e then some e.sector else o) h

    not_alike : is_entry name e ≡ true → alike name other ≡ false → is_entry other e ≡ false
    not_alike h d = elim (Bool-cases (is_entry other e)) [
      | inr apart ↦ apart
      | inl same ↦
          let first : alike name e.name ≡ true = alike_comm name e.name ∙ ground arith in
          let second : alike e.name other ≡ true = ground arith in
          let third = alike_trans name e.name other first second in absurd (ground arith)
    ]

abbrev absent_sector : Option ℕ
absent_sector = none

without-Unique :
    (name : List ℕ) (table : List DirectoryEntry) → Unique table → Unique (without name table)
unfolding lookup without
without-Unique name [] u = tt
without-Unique name (e ∷ table) (here, u) =
    choose (is_entry name e) _ _ (inl refl, u)
      (
        elim here [
          | inl unused ↦ inl unused
          | inr absent ↦
              inr (lookup-without name table u e.name ∙ rw absent (either (alike name e.name)))
        ],
        without-Unique name table u,
      )
  where
    either : (b : Bool) → (if b then none else none) ≡ absent_sector
    either true = refl
    either false = refl

    choose :
        (b : Bool) (t t' : List DirectoryEntry)
        → Unique t
        → Unique t'
        → Unique (if b then t else t')
    choose true t t' a c = a
    choose false t t' a c = c

-- Remove from a directory with one entry for each name answers FALSE and changes nothing where Find has
-- nothing for the name. Where Find has a sector for it, it answers TRUE, each name still has one entry, Find then has nothing
-- for the name and answers for every other name what it answered before; only the first 9 characters
-- of a name count.
pub find-remove :
    (name : List ℕ) (table : List DirectoryEntry)
    → Unique table
    → let (done, table') = remove name table in
      ((done ≡ false) × (table' ≡ table) × (find name table ≡ none))
      ⊎ ((sector : ℕ) × (find name table ≡ some sector)
          × (done ≡ true)
          × Unique table'
          × ((other : List ℕ)
              → find other table' ≡ (if alike name other then none else find other table)))
unfolding remove find_index
find-remove name table u = elim (find_index_from-without 0 name table) [
  | inl (a, b) ↦ rw a (inl (refl, refl, find-lookup name table ∙ b))
  | inr (k, a, b, (sector, there)) ↦
      let at : find_index_from 0 name table ≡ some k = a ∙ ap some (omega arith) in
      rw (at, b)
        (inr (
          sector,
          find-lookup name table ∙ there,
          refl,
          without-Unique name table u,
          λ other.
              find-lookup other (without name table)
              ∙ lookup-without name table u other
              ∙ ap (λ o. if alike name other then none else o) (sym (find-lookup other table)),
        ))
]
