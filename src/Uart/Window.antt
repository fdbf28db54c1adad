-- ===== src/Uart/Window.antt =====
-- Bytes of a ring of 512 from an index on, going round at the end.
use first_os.Base.{
  ℕ, zero, suc, ◌+◌, ◌-◌, ◌%◌, ◌<◌, ◌≡◌, ◌≢◌, refl, ap, ap₂, ◌∙◌, List, [], ◌∷◌, ◌++◌, arith,
  length, get_or, set, get_or-set_self, get_or-set_ne,
}
use first_os.Uart.{ring_size}

abbrev pub window : List ℕ → ℕ → ℕ → List ℕ
window ring t zero = []
window ring t (suc n) = get_or ring t 0 ∷ window ring ((t + 1) % ring_size) n

-- How many bytes stand between the two indices.
abbrev pub used : ℕ → ℕ → ℕ
used head tail = (head + ring_size - tail) % ring_size

abbrev pub queued : List ℕ → ℕ → ℕ → List ℕ
queued ring head tail = window ring tail (used head tail)

pub length-window : (ring : List ℕ) (t n : ℕ) → length (window ring t n) ≡ n
length-window ring t zero = refl
length-window ring t (suc n) = ap suc (length-window ring ((t + 1) % ring_size) n)

-- Writing just past a window that does not fill the ring extends it.
window-set :
    (ring : List ℕ) (c n t i : ℕ)
    → length ring ≡ ring_size
    → t < ring_size
    → n < ring_size
    → i ≡ (t + n) % ring_size
    → window (set ring i c) t (suc n) ≡ window ring t n ++ c ∷ []
window-set ring c zero t i size ht hn e =
    ap (λ b. b ∷ []) (rw here (get_or-set_self ring t c 0 (omega arith)))
  where
    here : i ≡ t
    here = omega arith
window-set ring c (suc n) t i size ht hn e =
    ap₂ ◌∷◌ (get_or-set_ne ring i t c 0 (omega arith))
      (window-set ring c n ((t + 1) % ring_size) i size (omega arith) (omega arith) (omega arith))

-- The write of one byte at the head, in a ring that is not full.
pub queued-put :
    (ring : List ℕ) (head tail c : ℕ)
    → length ring ≡ ring_size
    → head < ring_size
    → tail < ring_size
    → (head + 1) % ring_size ≢ tail
    → queued (set ring head c) ((head + 1) % ring_size) tail ≡ queued ring head tail ++ c ∷ []
queued-put ring head tail c size hh ht room =
    ap (window (set ring head c) tail) grows
    ∙ window-set ring c (used head tail) tail head size ht (omega arith) (omega arith)
  where
    grows : used ((head + 1) % ring_size) tail ≡ suc (used head tail)
    grows = omega arith

-- The byte at the tail leads the queue, unless the ring is empty.
pub queued-get :
    (ring : List ℕ) (head tail : ℕ)
    → head < ring_size
    → tail < ring_size
    → head ≢ tail
    → queued ring head tail ≡ get_or ring tail 0 ∷ queued ring head ((tail + 1) % ring_size)
queued-get ring head tail hh ht busy = ap (window ring tail) shrinks
  where
    shrinks : used head tail ≡ suc (used head ((tail + 1) % ring_size))
    shrinks = omega arith

pub queued-nil : (ring : List ℕ) (head : ℕ) → head < ring_size → queued ring head head ≡ []
queued-nil ring head h = ap (window ring head) empty
  where
    empty : used head head ≡ 0
    empty = omega arith

pub length-queued :
    (ring : List ℕ) (head tail : ℕ) → length (queued ring head tail) ≡ used head tail
length-queued ring head tail = length-window ring tail (used head tail)
