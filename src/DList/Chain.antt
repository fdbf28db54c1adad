-- ===== src/DList/Chain.antt =====
-- What a list in memory stands for: the addresses of its nodes, in order. The pointers of a
-- stretch of nodes are all the facts that the operations read and write.
use first_os.Base.{
  ℕ, ◌≡◌, ◌≢◌, refl, sym, true, false, List, [], ◌∷◌, ◌++◌, arith, has, has-ne, ne→==, Distinct,
}
use first_os.DList.{LinkedList, Memory, set_prev, set_next}

abbrev pub first : List ℕ → ℕ → ℕ
first [] q = q
first (x ∷ xs) q = x

abbrev pub last : ℕ → List ℕ → ℕ
last p [] = p
last p (x ∷ xs) = last x xs

-- The nodes `xs`, none of them null, are linked both ways between `p` and `q`.
abbrev pub Linked : Memory → ℕ → List ℕ → ℕ → Type 0
Linked m p [] q = Unit
Linked m p (x ∷ xs) q = (x ≢ 0) × ((m x).prev ≡ p) × ((m x).next ≡ first xs q) × Linked m x xs q

pub record IsList (m : Memory) (list : LinkedList) (xs : List ℕ) : Type 0 where
  pub head_first : list.head ≡ first xs 0
  pub tail_last : list.tail ≡ last 0 xs
  pub chain : Linked m 0 xs 0
  pub distinct : Distinct xs

pub first-append : (xs ys : List ℕ) (q : ℕ) → first (xs ++ ys) q ≡ first xs (first ys q)
first-append [] ys q = refl
first-append (x ∷ xs) ys q = refl

pub last-append : (p : ℕ) (xs ys : List ℕ) → last p (xs ++ ys) ≡ last (last p xs) ys
last-append p [] ys = refl
last-append p (x ∷ xs) ys = last-append x xs ys

pub Linked-append_inv :
    (m : Memory) (p : ℕ) (xs ys : List ℕ) (q : ℕ)
    → Linked m p (xs ++ ys) q
    → Linked m p xs (first ys q) × Linked m (last p xs) ys q
Linked-append_inv m p [] ys q l = (tt, l)
Linked-append_inv m p (x ∷ xs) ys q l =
    ground (arith, Linked-append_inv m x xs ys q l.3, first-append xs ys q)

pub Linked-append :
    (m : Memory) (p : ℕ) (xs ys : List ℕ) (q : ℕ)
    → Linked m p xs (first ys q)
    → Linked m (last p xs) ys q
    → Linked m p (xs ++ ys) q
Linked-append m p [] ys q l r = r
Linked-append m p (x ∷ xs) ys q l r =
    ground (arith, Linked-append m x xs ys q l.3 r, first-append xs ys q)

-- A write to a node that is not in the stretch leaves it linked.
pub Linked-frame :
    (m m' : Memory) (p : ℕ) (xs : List ℕ) (q : ℕ)
    → ((a : ℕ) → has a xs ≡ true → m' a ≡ m a)
    → Linked m p xs q
    → Linked m' p xs q
Linked-frame m m' p [] q same l = tt
Linked-frame m m' p (x ∷ xs) q same l = (
  l.0,
  ground (arith, same x),
  ground (arith, same x),
  Linked-frame m m' x xs q (λ a h. same a (ground arith)) l.3,
)

pub last-ne_zero :
    (m : Memory) (p : ℕ) (xs : List ℕ) (q : ℕ) → p ≢ 0 → Linked m p xs q → last p xs ≢ 0
last-ne_zero m p [] q h l = h
last-ne_zero m p (x ∷ xs) q h l = last-ne_zero m x xs q l.0 l.3

pub last-has : (x : ℕ) (xs : List ℕ) → has (last x xs) (x ∷ xs) ≡ true
last-has x [] = ground arith
last-has x (y ∷ ys) = ground (arith, last-has y ys)

-- The last node's `next` is the only pointer that changes when what follows changes.
pub Linked-set_next :
    (m : Memory) (p x : ℕ) (xs : List ℕ) (q r : ℕ)
    → Distinct (x ∷ xs)
    → Linked m p (x ∷ xs) q
    → Linked (set_next m (last x xs) r) p (x ∷ xs) r
Linked-set_next m p x [] q r d l = ground arith
Linked-set_next m p x (y ∷ ys) q r d l =
    let other : last y ys ≢ x = has-ne _ _ (y ∷ ys) (last-has y ys) d.0 in
    (
      l.0,
      rw (ne→== x (last y ys) (λ e. other (sym e))) l.1,
      rw (ne→== x (last y ys) (λ e. other (sym e))) l.2,
      Linked-set_next m x y ys q r d.1 l.3,
    )

-- The first node's `prev` is the only pointer that changes when what stands before changes.
pub Linked-set_prev :
    (m : Memory) (p x : ℕ) (xs : List ℕ) (q r : ℕ)
    → has x xs ≡ false
    → Linked m p (x ∷ xs) q
    → Linked (set_prev m x r) r (x ∷ xs) q
Linked-set_prev m p x xs q r d l = (
  l.0,
  ground arith,
  ground arith,
  Linked-frame m (set_prev m x r) x xs q (λ a h. ground arith) l.3,
)
