-- ===== src/Uart/Contents.antt =====
-- What the two rings of src/uart/uart.c hold, and what `_uart_get_core` and `_uart_put_core` do to
-- them.
use first_os.Base.{
  ℕ, ◌+◌, ◌%◌, ◌≤◌, ◌<◌, ◌≡◌, ◌≢◌, refl, ◌∙◌, ◌⊎◌, inl, inr, Bool, true, false, Option, none, some,
  List, [], ◌∷◌, ◌++◌, arith, length, length-set, get_or, Bool-cases, ◌==◌, ==→eq, ==→ne,
}
use first_os.Uart.{Uart, ring_size, uart_get_core, uart_put_core}
use first_os.Uart.Window.{queued, used, queued-put, queued-get, queued-nil, length-queued}

pub record IsValid (u : Uart) : Type 0 where
  pub rx_size : length u.rx_ring ≡ ring_size
  pub tx_size : length u.tx_ring ≡ ring_size
  pub rx_head_in : u.rx_head < ring_size
  pub rx_tail_in : u.rx_tail < ring_size
  pub tx_head_in : u.tx_head < ring_size
  pub tx_tail_in : u.tx_tail < ring_size

-- The bytes received and not yet read, and those written and not yet sent, oldest first.
abbrev pub rx_queue : Uart → List ℕ
rx_queue u = queued u.rx_ring u.rx_head u.rx_tail

abbrev pub tx_queue : Uart → List ℕ
tx_queue u = queued u.tx_ring u.tx_head u.tx_tail

-- One byte of the ring stays unused, so that full and empty differ.
abbrev pub capacity : ℕ
capacity = 511

pub length-tx_queue-le : {u : Uart} → IsValid u → length (tx_queue u) ≤ capacity
length-tx_queue-le {u} v = let size = length-queued u.tx_ring u.tx_head u.tx_tail in omega arith

abbrev pub Got : Uart → Option ℕ × Uart → Type 0
Got u (c, u') =
    ((rx_queue u ≡ []) × (c ≡ none) × (u' ≡ u))
    ⊎ ((b : ℕ) × (c ≡ some b)
        × (rx_queue u ≡ b ∷ rx_queue u')
        × (tx_queue u' ≡ tx_queue u)
        × IsValid u')

-- `_uart_get_core` takes the oldest byte, or says that there is none and changes nothing.
pub uart_get_core_lem : {u : Uart} → IsValid u → Got u (uart_get_core u)
unfolding uart_get_core
uart_get_core_lem {u} v = elim (Bool-cases (u.rx_head == u.rx_tail)) [
  | inl e ↦ rw e (
      inl (
        rw (==→eq u.rx_head u.rx_tail e) (queued-nil u.rx_ring u.rx_tail v.rx_tail_in),
        refl,
        refl,
      ))
  | inr e ↦ rw e (
      inr (
        get_or u.rx_ring u.rx_tail 0,
        refl,
        queued-get u.rx_ring u.rx_head u.rx_tail v.rx_head_in v.rx_tail_in (==→ne _ _ e),
        refl,
        omega arith,
      ))
]

abbrev pub Put : ℕ → Uart → Bool × Uart → Type 0
Put c u (done, u') =
    ((length (tx_queue u) ≡ capacity) × (done ≡ false) × (u' ≡ u))
    ⊎ ((length (tx_queue u) < capacity)
        × (done ≡ true)
        × (tx_queue u' ≡ tx_queue u ++ c ∷ [])
        × (rx_queue u' ≡ rx_queue u)
        × IsValid u')

-- `_uart_put_core` appends the byte if fewer than 511 wait, and changes nothing otherwise.
pub uart_put_core_lem : {u : Uart} (c : ℕ) → IsValid u → Put c u (uart_put_core c u)
unfolding uart_put_core
uart_put_core_lem {u} c v = elim (Bool-cases ((u.tx_head + 1) % ring_size == u.tx_tail)) [
  | inl e ↦ rw e (inl (full (==→eq _ _ e), refl, refl))
  | inr e ↦ rw e (
      inr (
        room (==→ne _ _ e),
        refl,
        queued-put u.tx_ring u.tx_head u.tx_tail c v.tx_size v.tx_head_in v.tx_tail_in
            (==→ne _ _ e),
        refl,
        record {
          rx_size = v.rx_size;
          tx_size = length-set u.tx_ring u.tx_head c ∙ v.tx_size;
          rx_head_in = v.rx_head_in;
          rx_tail_in = v.rx_tail_in;
          tx_head_in = omega arith;
          tx_tail_in = v.tx_tail_in;
        },
      ))
]
  where
    size : length (tx_queue u) ≡ used u.tx_head u.tx_tail
    size = length-queued u.tx_ring u.tx_head u.tx_tail

    full : (u.tx_head + 1) % ring_size ≡ u.tx_tail → length (tx_queue u) ≡ capacity
    full e = size ∙ near v.tx_head_in e
      where
        near :
            u.tx_head < ring_size
            → (u.tx_head + 1) % ring_size ≡ u.tx_tail
            → used u.tx_head u.tx_tail ≡ capacity
        near h e = omega arith

    room : (u.tx_head + 1) % ring_size ≢ u.tx_tail → length (tx_queue u) < capacity
    room e = rw size (far v.tx_head_in v.tx_tail_in e)
      where
        far :
            u.tx_head < ring_size
            → u.tx_tail < ring_size
            → (u.tx_head + 1) % ring_size ≢ u.tx_tail
            → used u.tx_head u.tx_tail < capacity
        far h k e = omega arith
