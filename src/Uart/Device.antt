-- ===== src/Uart/Device.antt =====
-- `uart_irq_handler` of src/uart/uart.c: what an interrupt receives and sends.
use first_os.Base.{
  ℕ, zero, suc, ◌+◌, ◌-◌, ◌%◌, ◌<◌, ◌≡◌, ◌≢◌, refl, ap, sym, ◌∙◌, ap₂, ◌⊎◌, inl, inr, Bool, true,
  false, ◌||◌, List, [], ◌∷◌, ◌++◌, append-nil, append_assoc, arith, length, length-append,
  length-set, take, drop, set, get_or, ◌==◌, ==→eq, ==→ne, Bool-cases, if◌then◌else◌,
}
use first_os.Uart.{
  Uart, Wakeup, uart_read, uart_write, ring_size, uart_irq_receive_one, uart_irq_receive,
  uart_irq_transmit, uart_irq_handler,
}
use first_os.Uart.Window.{queued, queued-put, queued-get, queued-nil, length-queued}
use first_os.Uart.Contents.{IsValid, rx_queue, tx_queue, capacity}

abbrev pub some_of : List ℕ → Bool
some_of [] = false
some_of (x ∷ xs) = true

-- The bytes of `cs` that still fit behind `q`.
abbrev pub fitting : List ℕ → List ℕ → List ℕ
fitting q cs = take (capacity - length q) cs

full_size :
    (u : Uart)
    → IsValid u
    → (u.rx_head + 1) % ring_size ≡ u.rx_tail
    → length (rx_queue u) ≡ capacity
full_size u v e =
    length-queued u.rx_ring u.rx_head u.rx_tail ∙ (let h = v.rx_head_in in omega arith)

room_size :
    (u : Uart)
    → IsValid u
    → (u.rx_head + 1) % ring_size ≢ u.rx_tail
    → length (rx_queue u) < capacity
room_size u v e =
    let size = length-queued u.rx_ring u.rx_head u.rx_tail in
    let h = v.rx_head_in in let k = v.rx_tail_in in omega arith

-- The state after one more byte has been stored.
abbrev stored : ℕ → Uart → Uart
stored c u = record u { rx_ring = set u.rx_ring u.rx_head c; rx_head = (u.rx_head + 1) % ring_size }

stored-IsValid : (c : ℕ) (u : Uart) → IsValid u → IsValid (stored c u)
stored-IsValid c u v = record {
  rx_size = length-set u.rx_ring u.rx_head c ∙ v.rx_size;
  tx_size = v.tx_size;
  rx_head_in = omega arith;
  rx_tail_in = v.rx_tail_in;
  tx_head_in = v.tx_head_in;
  tx_tail_in = v.tx_tail_in;
}

abbrev sent_one : Uart → Uart
sent_one u = record u { tx_tail = (u.tx_tail + 1) % ring_size }

sent_one-IsValid : (u : Uart) → IsValid u → IsValid (sent_one u)
sent_one-IsValid u v = omega arith

abbrev Received : List ℕ → Bool → Uart → Bool × Uart → Type 0
Received cs received u (flag, u') =
    IsValid u'
    × (tx_queue u' ≡ tx_queue u)
    × (rx_queue u' ≡ rx_queue u ++ fitting (rx_queue u) cs)
    × (flag ≡ (received || some_of (fitting (rx_queue u) cs)))

fitting-full : (q cs : List ℕ) → length q ≡ capacity → fitting q cs ≡ []
fitting-full q cs e = rw e refl

fitting-cons :
    (q : List ℕ) (c : ℕ) (cs : List ℕ)
    → length q < capacity
    → fitting q (c ∷ cs) ≡ c ∷ fitting (q ++ c ∷ []) cs
fitting-cons q c cs h =
    ap (λ (k : ℕ). take k (c ∷ cs)) one_more
    ∙ ap (λ (k : ℕ). c ∷ take k cs) (omega (arith, length-append q (c ∷ [])))
  where
    one_more : capacity - length q ≡ suc (capacity - (length q + 1))
    one_more = omega arith

abbrev ReceivedOne : ℕ → Uart → Bool × Uart → Type 0
ReceivedOne c u (stored, u') =
    IsValid u'
    × (tx_queue u' ≡ tx_queue u)
    × (((length (rx_queue u) ≡ capacity) × (stored ≡ false) × (rx_queue u' ≡ rx_queue u))
        ⊎ ((length (rx_queue u) < capacity)
            × (stored ≡ true)
            × (rx_queue u' ≡ rx_queue u ++ c ∷ [])))

uart_irq_receive_one_lem :
    (c : ℕ) (u : Uart) → IsValid u → ReceivedOne c u (uart_irq_receive_one c u)
unfolding uart_irq_receive_one
uart_irq_receive_one_lem c u v = elim (Bool-cases ((u.rx_head + 1) % ring_size == u.rx_tail)) [
  | inl e ↦ rw e (v, refl, inl (full_size u v (==→eq _ _ e), refl, refl))
  | inr e ↦ rw e (
    stored-IsValid c u v,
    refl,
    inr (
      room_size u v (==→ne _ _ e),
      refl,
      queued-put u.rx_ring u.rx_head u.rx_tail c v.rx_size v.rx_head_in v.rx_tail_in (==→ne _ _ e),
    ),
  )
]

or_true : (b : Bool) → (b || true) ≡ true
or_true true = refl
or_true false = refl

or_false : (b : Bool) → (b || false) ≡ b
or_false true = refl
or_false false = refl

take-nil : (n : ℕ) → take {A = ℕ} n [] ≡ []
take-nil zero = refl
take-nil (suc n) = refl

uart_irq_receive_lem :
    (cs : List ℕ) (received : Bool) (u : Uart)
    → IsValid u
    → Received cs received u (uart_irq_receive cs received u)
unfolding uart_irq_receive
uart_irq_receive_lem [] received u v =
    rw (take-nil (capacity - length (rx_queue u)))
      (v, refl, sym (append-nil _), sym (or_false received))
uart_irq_receive_lem (c ∷ cs) received u v =
    let (v1, tx, outcome) = uart_irq_receive_one_lem c u v in
    let u1 = (uart_irq_receive_one c u).1 in
    let (v2, tx2, rx2, flag) =
      uart_irq_receive_lem cs (received || (uart_irq_receive_one c u).0) u1 v1 in
    elim outcome [
      | inl (full, dropped, rx) ↦
          let none_fit = fitting-full (rx_queue u) (c ∷ cs) full in
          let none_fit1 = fitting-full (rx_queue u1) cs (ap length rx ∙ full) in
          (
            v2,
            tx2 ∙ tx,
            rx2 ∙ ap₂ ◌++◌ rx (none_fit1 ∙ sym none_fit),
            flag ∙ rw (dropped, none_fit1, none_fit) (or_false (received || false)),
          )
      | inr (room, kept, rx) ↦
          let fits =
            fitting-cons (rx_queue u) c cs room ∙ ap (λ (q : List ℕ). c ∷ fitting q cs) (sym rx) in
          (
            v2,
            tx2 ∙ tx,
            rx2
                ∙ ap (λ (q : List ℕ). q ++ fitting (rx_queue u1) cs) rx
                ∙ append_assoc (rx_queue u) (c ∷ []) (fitting (rx_queue u1) cs)
                ∙ ap (λ (q : List ℕ). rx_queue u ++ q) (sym fits),
            flag ∙ rw (kept, fits, or_true received) refl,
          )
    ]

abbrev Transmitted : ℕ → Bool → Uart → List ℕ × Bool × Uart → Type 0
Transmitted ready sent u (out, flag, u') =
    IsValid u'
    × (rx_queue u' ≡ rx_queue u)
    × (out ≡ take ready (tx_queue u))
    × (tx_queue u' ≡ drop ready (tx_queue u))
    × (flag ≡ (sent || some_of (take ready (tx_queue u))))

uart_irq_transmit_lem :
    (ready : ℕ) (sent : Bool) (u : Uart)
    → IsValid u
    → Transmitted ready sent u (uart_irq_transmit ready sent u)
unfolding uart_irq_transmit
uart_irq_transmit_lem zero sent u v = (v, refl, refl, refl, sym (or_false sent))
uart_irq_transmit_lem (suc ready) sent u v = elim (Bool-cases (u.tx_head == u.tx_tail)) [
  | inl e ↦
      let empty =
        ap (λ (t : ℕ). queued u.tx_ring t u.tx_tail) (==→eq _ _ e)
        ∙ queued-nil u.tx_ring u.tx_tail v.tx_tail_in in
      rw (e, empty) (omega arith, refl, refl, refl, sym (or_false sent))
  | inr e ↦
      let front =
        queued-get u.tx_ring u.tx_head u.tx_tail v.tx_head_in v.tx_tail_in (==→ne _ _ e) in
      let (v', rx, out, left, flag) =
        uart_irq_transmit_lem ready true (sent_one u) (sent_one-IsValid u v) in
      rw (e, front, or_true sent)
        (v', rx, ap (λ (l : List ℕ). get_or u.tx_ring u.tx_tail 0 ∷ l) out, left, flag)
]

abbrev pub Handled : List ℕ → ℕ → Uart → List ℕ × List Wakeup × Uart → Type 0
Handled incoming ready u (out, events, u') =
    IsValid u'
    × (rx_queue u' ≡ rx_queue u ++ fitting (rx_queue u) incoming)
    × (out ≡ take ready (tx_queue u))
    × (tx_queue u' ≡ drop ready (tx_queue u))
    × (events
        ≡ (if some_of (fitting (rx_queue u) incoming) then uart_read ∷ [] else [])
          ++ (if some_of (take ready (tx_queue u)) then uart_write ∷ [] else []))

-- One interrupt stores the received bytes in order as far as they fit and drops the others, sends
-- the oldest waiting bytes as often as the device is ready, and wakes the readers exactly if a
-- byte was stored and the writers exactly if one was sent.
pub uart_irq_handler_lem :
    (incoming : List ℕ) (ready : ℕ) {u : Uart}
    → IsValid u
    → Handled incoming ready u (uart_irq_handler incoming ready u)
unfolding uart_irq_handler
uart_irq_handler_lem incoming ready {u} v =
    let (v1, tx1, rx1, got) = uart_irq_receive_lem incoming false u v in
    let (v2, rx2, out, tx2, sent) =
      uart_irq_transmit_lem ready false (uart_irq_receive incoming false u).1 v1 in
    (v2, rx2 ∙ rx1, out ∙ ap (take ready) tx1, tx2 ∙ ap (drop ready) tx1, rw (got, sent, tx1) refl)
