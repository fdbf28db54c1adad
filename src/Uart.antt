-- ===== src/Uart.antt =====
-- src/uart/uart.c: the interrupt-driven serial driver and its two rings of 512 bytes. The device
-- is what an operation is told of it: the bytes that it has received, and how often it is ready
-- to take one. The scheduler's wake-ups are events that an operation returns.
pub mod Window
pub mod Contents
pub mod Transfer
pub mod Device
pub mod Blocking
pub mod Interrupts
pub mod Puts
mod Tests
use first_os.Base.{
  ℕ, zero, suc, ◌+◌, ◌-◌, ◌%◌, Bool, true, false, not, ◌||◌, Option, none, some, List, [], ◌∷◌,
  ◌++◌, ◌==◌, ltb, if◌then◌else◌, get_or, set, bit_or, bit_and,
}

abbrev pub ring_size : ℕ
ring_size = 512

abbrev pub ier_thr_empty : ℕ
ier_thr_empty = 2

-- The static variables of uart.c; `ier` is the device's interrupt enable register.
pub record Uart : Type 0 where
  pub rx_ring : List ℕ
  pub rx_head : ℕ
  pub rx_tail : ℕ
  pub tx_ring : List ℕ
  pub tx_head : ℕ
  pub tx_tail : ℕ
  pub ier : ℕ

-- What the driver wakes: `TASK_WAIT_UART_READ` and `TASK_WAIT_UART_WRITE`.
pub data Wakeup : Type 0 where
  uart_read uart_write : Wakeup

unfoldable pub uart_receive_buf_empty : Uart → Bool
uart_receive_buf_empty u = u.rx_head == u.rx_tail

unfoldable pub uart_transmit_buf_full : Uart → Bool
uart_transmit_buf_full u = (u.tx_head + 1) % ring_size == u.tx_tail

-- `none` is the return value 0.
unfoldable pub uart_get_core : Uart → Option ℕ × Uart
unfolding uart_receive_buf_empty
uart_get_core u =
    if uart_receive_buf_empty u
    then (none, u)
    else (some (get_or u.rx_ring u.rx_tail 0), record u { rx_tail = (u.rx_tail + 1) % ring_size })

-- After one call of `_uart_get_core` the loop goes on, or breaks.
abbrev pub keep : Option ℕ → Uart → List ℕ × Uart → List ℕ × Uart
keep none u rest = ([], u)
keep (some b) u rest = (b ∷ rest.0, rest.1)

-- The loop over `n - i` free places of the caller's buffer, which it fills in order.
unfoldable pub uart_get_loop : ℕ → Uart → List ℕ × Uart
uart_get_loop zero u = ([], u)
uart_get_loop (suc n) u = let (c, u') = uart_get_core u in keep c u' (uart_get_loop n u')

-- The bytes that reach `buf`; the return value is their number.
unfoldable pub uart_get_bytes : ℕ → Uart → List ℕ × Uart
uart_get_bytes n u = uart_get_loop n u

unfoldable pub uart_put_core : ℕ → Uart → Bool × Uart
unfolding uart_transmit_buf_full
uart_put_core c u = if uart_transmit_buf_full u then (false, u) else (
  true,
  record u {
    tx_ring = set u.tx_ring u.tx_head c;
    tx_head = (u.tx_head + 1) % ring_size;
    ier = bit_or u.ier ier_thr_empty;
  },
)

-- One round of the loop of `uart_put_bytes`: the carriage return of a newline, then the byte. The
-- result is `ring_drained`.
unfoldable pub uart_put_one : ℕ → Uart → Bool × Uart
uart_put_one c u =
    let (cr, u1) = if c == b'\n' then uart_put_core b'\r' u else (true, u) in
    let (put, u2) = uart_put_core c u1 in (not cr || not put, u2)

-- The list is `buf[i .. count)`.
unfoldable pub uart_put_loop : List ℕ → ℕ → Uart → ℕ × Uart
uart_put_loop [] i u = (i, u)
uart_put_loop (c ∷ cs) i u =
    let (drained, u') = uart_put_one c u in
    let rest = uart_put_loop cs (i + 1) u' in if drained then (i, u') else rest

unfoldable pub uart_put_bytes : List ℕ → Uart → ℕ × Uart
uart_put_bytes buf u = uart_put_loop buf 0 u

-- One round of the receiving loop of `uart_irq_handler`: the byte is stored, or dropped where the
-- ring is full.
unfoldable pub uart_irq_receive_one : ℕ → Uart → Bool × Uart
uart_irq_receive_one c u =
    let next = (u.rx_head + 1) % ring_size in
    if next == u.rx_tail
    then (false, u)
    else (true, record u { rx_ring = set u.rx_ring u.rx_head c; rx_head = next })

-- The loop, over the bytes that the device has ready. The flag is `has_received`.
unfoldable pub uart_irq_receive : List ℕ → Bool → Uart → Bool × Uart
uart_irq_receive [] received u = (received, u)
uart_irq_receive (c ∷ cs) received u =
    let (stored, u') = uart_irq_receive_one c u in uart_irq_receive cs (received || stored) u'

-- The transmitting half, while the device is ready for another byte: at most `ready` times. The
-- result has the bytes that go out and `has_transmitted`.
unfoldable pub uart_irq_transmit : ℕ → Bool → Uart → List ℕ × Bool × Uart
uart_irq_transmit zero sent u = ([], sent, u)
uart_irq_transmit (suc ready) sent u =
    let u' = record u { tx_tail = (u.tx_tail + 1) % ring_size } in
    let rest = uart_irq_transmit ready true u' in
    if u.tx_head == u.tx_tail
    then ([], sent, record u { ier = bit_and u.ier (255 - ier_thr_empty) })
    else (get_or u.tx_ring u.tx_tail 0 ∷ rest.0, rest.1, rest.2)

-- The bytes sent, the events fired, and the new state.
unfoldable pub uart_irq_handler : List ℕ → ℕ → Uart → List ℕ × List Wakeup × Uart
uart_irq_handler incoming ready u =
    let (received, u1) = uart_irq_receive incoming false u in
    let (out, sent, u2) = uart_irq_transmit ready false u1 in
    (out, (if received then uart_read ∷ [] else []) ++ (if sent then uart_write ∷ [] else []), u2)
