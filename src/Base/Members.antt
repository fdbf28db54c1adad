-- ===== src/Base/Members.antt =====
-- Lists of addresses and identifiers: membership as a Boolean test, and lists with no repetition.
use Prim.Native.Nat.{ℕ}
use mathlib.Core.Path.{◌≡◌, refl, ap}
use mathlib.Core.Logic.{◌≢◌}
use mathlib.Core.Bool.{Bool, true, false, ◌||◌}
use mathlib.Core.List.{List, [], ◌∷◌, ◌++◌}
use native.Mathlib.Omega.{arith}
use first_os.Base.Tests.{◌==◌, if◌then◌else◌}

abbrev pub has : ℕ → List ℕ → Bool
has a [] = false
has a (x ∷ xs) = (a == x) || has a xs

abbrev pub Distinct : List ℕ → Type 0
Distinct [] = Unit
Distinct (x ∷ xs) = (has x xs ≡ false) × Distinct xs

-- The list without the first occurrence of `a`.
abbrev pub without : ℕ → List ℕ → List ℕ
without a [] = []
without a (x ∷ xs) = if a == x then xs else x ∷ without a xs

pub has-append : (a : ℕ) (xs ys : List ℕ) → has a (xs ++ ys) ≡ (has a xs || has a ys)
has-append a [] ys = refl
has-append a (x ∷ xs) ys = ground (arith, has-append a xs ys)

pub has-ne : (a b : ℕ) (xs : List ℕ) → has a xs ≡ true → has b xs ≡ false → a ≢ b
has-ne a b xs h k e = cc (ap (λ (t : ℕ). has t xs) e)

pub Distinct-append_inv :
    (xs ys : List ℕ)
    → Distinct (xs ++ ys)
    → Distinct xs × Distinct ys × ((a : ℕ) → has a xs ≡ true → has a ys ≡ false)
Distinct-append_inv [] ys d = (tt, d, λ a h. ground arith)
Distinct-append_inv (x ∷ xs) ys d =
    let (dx, dy, apart) = Distinct-append_inv xs ys d.1 in
    (
      (ground (arith, has-append x xs ys), dx),
      dy,
      λ a h. ground (arith, has-append x xs ys, apart a),
    )

pub Distinct-append :
    (xs ys : List ℕ)
    → Distinct xs
    → Distinct ys
    → ((a : ℕ) → has a xs ≡ true → has a ys ≡ false)
    → Distinct (xs ++ ys)
Distinct-append [] ys dx dy apart = dy
Distinct-append (x ∷ xs) ys dx dy apart = (
  ground (arith, has-append x xs ys, apart x),
  Distinct-append xs ys dx.1 dy (λ a h. ground (arith, apart a)),
)

pub has-without :
    (a b : ℕ) (xs : List ℕ)
    → Distinct xs
    → has a (without b xs) ≡ (if a == b then false else has a xs)
has-without a b [] d = ground arith
has-without a b (x ∷ xs) d = ground (arith, has-without a b xs d.1)

pub without-Distinct : (b : ℕ) (xs : List ℕ) → Distinct xs → Distinct (without b xs)
without-Distinct b [] d = tt
without-Distinct b (x ∷ xs) d = ground (arith, has-without x b xs d.1, without-Distinct b xs d.1)

pub without-absent : (b : ℕ) (xs : List ℕ) → has b xs ≡ false → without b xs ≡ xs
without-absent b [] h = refl
without-absent b (x ∷ xs) h = ground (arith, without-absent b xs)

pub without-middle :
    (b : ℕ) (xs ys : List ℕ) → has b xs ≡ false → without b (xs ++ b ∷ ys) ≡ xs ++ ys
without-middle b [] ys h = ground arith
without-middle b (x ∷ xs) ys h = ground (arith, without-middle b xs ys)

pub has-append_inv :
    (a : ℕ) (xs ys : List ℕ) → has a (xs ++ ys) ≡ false → (has a xs ≡ false) × (has a ys ≡ false)
has-append_inv a xs ys h = ground (arith, has-append a xs ys)

pub has-head : (a : ℕ) (xs : List ℕ) → has a (a ∷ xs) ≡ true
has-head a xs = ground arith

-- Two lists that share no member, from either side.
pub has-apart :
    (a : ℕ) (xs ys : List ℕ)
    → ((b : ℕ) → has b xs ≡ true → has b ys ≡ false)
    → has a ys ≡ true
    → has a xs ≡ false
has-apart a xs ys apart h = ground (arith, apart a)

pub Distinct-snoc : (xs : List ℕ) (n : ℕ) → Distinct xs → has n xs ≡ false → Distinct (xs ++ n ∷ [])
Distinct-snoc xs n d out =
    Distinct-append xs (n ∷ []) d (refl, tt) (λ a h. ground (arith, has-ne a n xs h out))
