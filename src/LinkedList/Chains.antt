-- ===== src/LinkedList/Chains.antt =====
-- The chain of elements behind a pointer.
use usc_cs.Common.{
  ℕ, ◌≡◌, refl, sym, Bool, false, Option, some, List, [], ◌∷◌, ◌++◌, ◌==◌, ◌||◌, put, subst, arith,
}
use usc_cs.LinkedList.{ListElement}

-- An element with its address.
pub record Node : Type 0 where
  pub addr : ℕ
  pub item : ℕ
  pub key : ℕ

-- From `p` on the elements are those of the list, and behind the last stands `q`.
abbrev pub Chain : (ℕ → Option ListElement) → Option ℕ → List Node → Option ℕ → Type 0
Chain cell p [] q = p ≡ q
Chain cell p (n ∷ ns) q =
    (p ≡ some n.addr)
    × (next : Option ℕ) × (cell n.addr ≡ some (record { item = n.item; key = n.key; next = next }))
    × Chain cell next ns q

-- Is the address one of the nodes'?
abbrev pub at : ℕ → List Node → Bool
at a [] = false
at a (n ∷ ns) = (a == n.addr) || at a ns

abbrev pub Apart : List Node → Type 0
Apart [] = Unit
Apart (n ∷ ns) = (at n.addr ns ≡ false) × Apart ns

pub Chain-put :
    (cell : ℕ → Option ListElement) (p q : Option ℕ) (ns : List Node) (a : ℕ)
    (e : Option ListElement)
    → at a ns ≡ false
    → Chain cell p ns q
    → Chain (put cell a e) p ns q
Chain-put cell p q [] a e h c = c
Chain-put cell p q (n ∷ ns) a e h (here, next, eq, rest) =
    (here, next, ground arith, Chain-put cell next q ns a e (ground arith) rest)

pub Chain-append :
    (cell : ℕ → Option ListElement) (p q r : Option ℕ) (ms ns : List Node)
    → Chain cell p ms q
    → Chain cell q ns r
    → Chain cell p (ms ++ ns) r
Chain-append cell p q r [] ns c d = subst_start c d
  where
    subst_start : p ≡ q → Chain cell q ns r → Chain cell p ns r
    subst_start e d = subst (λ x. Chain cell x ns r) (sym e) d
Chain-append cell p q r (m ∷ ms) ns (here, next, eq, rest) d =
    (here, next, eq, Chain-append cell next q r ms ns rest d)

pub at-append : (a : ℕ) (ms ns : List Node) → at a (ms ++ ns) ≡ (at a ms || at a ns)
at-append a [] ns = refl
at-append a (m ∷ ms) ns = ground (arith, at-append a ms ns)
