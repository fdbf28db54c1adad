-- ===== src/Uart/Blocking.antt =====
-- The calls of src/uart/uart.c that wait: `uart_get`, `uart_put`, `uart_puts` and `uart_getline`. What
-- happens from one attempt to the next is an argument: for each `cpu_scheduler_wait` the interrupts that come
-- before it, in it and behind it, each with the bytes that have come in and how often the device is ready. An
-- interrupt that comes before the wait does not end it, so that the list goes on to one that does. `none` says
-- that the call still waits at their end.
use first_os.Base.{
  ℕ, zero, suc, ◌+◌, ◌-◌, ◌||◌, Option, none, some, List, [], ◌∷◌, ◌++◌, ◌==◌, if◌then◌else◌, take,
  drop, length, ◌>>=◌,
}
use first_os.Strings.{kstrlen}
use first_os.Uart.{Uart, uart_get_core, uart_put_core, uart_put_bytes, uart_irq_handler}

abbrev pub Waits : Type 0
Waits = List (List (List ℕ × ℕ))

-- Some interrupts, one after the other: the bytes they send, and the driver.
unfoldable pub interrupts : List (List ℕ × ℕ) → Uart → List ℕ × Uart
interrupts [] u = ([], u)
interrupts ((incoming, ready) ∷ irqs) u =
    let (out, events, u') = uart_irq_handler incoming ready u in
    let (out', u'') = interrupts irqs u' in (out ++ out', u'')

-- What a call leaves: the bytes sent during its waits, the interrupts still to come, and the driver.
pub record After : Type 0 where
  pub out : List ℕ
  pub waits : Waits
  pub uart : Uart

abbrev pub sooner : List ℕ → After → After
sooner out a = record a { out = out ++ a.out }

-- After a wait the call goes on with the driver that the interrupts leave.
abbrev pub wait_then :
    {A : Type 0} → List (List ℕ × ℕ) → Uart → (Uart → Option (A × After)) → Option (A × After)
wait_then irqs u on =
    let (out, u') = interrupts irqs u in on u' >>= λ (a, after). some (a, sooner out after)

abbrev pub got : Option ℕ → Uart → Waits → Option (ℕ × After) → Option (ℕ × After)
got none u waits later = later
got (some c) u waits later = some (c, record { out = []; waits = waits; uart = u })

unfoldable pub uart_get : Waits → Uart → Option (ℕ × After)
uart_get [] u = let (c, u') = uart_get_core u in got c u' [] none
uart_get (w ∷ waits) u =
    let (c, u') = uart_get_core u in
    let later = wait_then w u' (λ u''. uart_get waits u'') in got c u' (w ∷ waits) later

unfoldable pub uart_put : ℕ → Waits → Uart → Option (Unit {0} × After)
uart_put c [] u =
    let (put, u') = uart_put_core c u in
    if put then some (tt, record { out = []; waits = []; uart = u' }) else none
uart_put c (w ∷ waits) u =
    let (put, u') = uart_put_core c u in
    let later = wait_then w u' (λ u''. uart_put c waits u'') in
    if put then some (tt, record { out = []; waits = w ∷ waits; uart = u' }) else later

-- The loop of `uart_puts` with the rest of the string; the result is how many bytes it has written.
unfoldable pub puts_loop : List ℕ → Waits → Uart → Option (ℕ × After)
puts_loop buf [] u =
    let (n, u') = uart_put_bytes buf u in
    if n == length buf then some (n, record { out = []; waits = []; uart = u' }) else none
puts_loop buf (w ∷ waits) u =
    let (n, u') = uart_put_bytes buf u in
    let later = wait_then w u' (λ u''. puts_loop (drop n buf) waits u'') >>= λ (k, after).
    some (n + k, after) in
    if n == length buf then some (n, record { out = []; waits = w ∷ waits; uart = u' }) else later

unfoldable pub uart_puts : List ℕ → Waits → Uart → Option (ℕ × After)
uart_puts buf waits u = puts_loop (take (kstrlen buf) buf) waits u

-- The strings up to the null pointer.
unfoldable pub uart_puts_variadic : List (List ℕ) → Waits → Uart → Option (Unit {0} × After)
uart_puts_variadic [] waits u = some (tt, record { out = []; waits = waits; uart = u })
uart_puts_variadic (arg ∷ args) waits u = uart_puts arg waits u >>= λ (n, a).
    uart_puts_variadic args a.waits a.uart >>= λ (t, b). some (t, sooner a.out b)

-- The loop of `uart_getline`, with `n - 1 - i` places to go: the bytes for `buf` with the NUL. The places
-- for `n = 0` are the 2^32 - 1 that `n - 1` wraps to.
unfoldable pub getline_loop : ℕ → Waits → Uart → Option (List ℕ × After)
getline_loop zero waits u = some (0 ∷ [], record { out = []; waits = waits; uart = u })
getline_loop (suc places) waits u = uart_get waits u >>= λ (c, a).
    uart_put c a.waits a.uart >>= λ (t, b).
    let ended =
      uart_put b'\n' b.waits b.uart >>= λ (t', d). some (0 ∷ [], sooner (a.out ++ b.out) d) in
    let rest = getline_loop places b.waits b.uart >>= λ (line, d).
    some (c ∷ line, sooner (a.out ++ b.out) d) in
    if (c == b'\r') || (c == b'\n') then ended else rest

unfoldable pub uart_getline : ℕ → Waits → Uart → Option (List ℕ × After)
uart_getline n waits u = getline_loop (if n == 0 then 0xffffffff else n - 1) waits u
