-- ===== src/Uart/Puts.antt =====
-- `uart_puts` of src/uart/uart.c sends a string, with the waits that it needs.
use first_os.Base.{ℕ, ◌+◌, ◌≤◌, ◌<◌, ◌≡◌, ◌≢◌, ◌⊎◌, Option, some, List, ◌++◌, take, length, All}
use first_os.Uart.{Uart}
use first_os.Uart.Contents.{IsValid, tx_queue, capacity}
use first_os.Uart.Blocking.{Waits, After}

-- No byte is a newline, which would go out as two.
abbrev pub Plain : List ℕ → Type 0
Plain buf = All (λ c. c ≢ b'\n') buf

-- What `uart_put_bytes` leaves for a string without newlines: all of it is queued, or the ring is full.
Queued : List ℕ → Uart → ℕ × Uart → Type 0
Queued buf u (n, u') =
    IsValid u'
    × (tx_queue u' ≡ tx_queue u ++ take n buf)
    × ((n ≡ length buf) ⊎ ((n < length buf) × (length (tx_queue u') ≡ capacity)))

-- The string has been written: the bytes that went out and those in the ring are those that were in the
-- ring before, and then the string.
abbrev pub PutsDone : List ℕ → Uart → Option (ℕ × After) → Type 0
PutsDone buf u o =
    (a : After) × (o ≡ some (length buf, a))
    × IsValid a.uart
    × (a.out ++ tx_queue a.uart ≡ tx_queue u ++ buf)

-- Once the ring is full there is room for what is left after each wait that sends.
abbrev Enough : List ℕ → Waits → Uart → Type 0
Enough buf waits u = length buf + length (tx_queue u) ≤ length waits + capacity
