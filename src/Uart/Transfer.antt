-- ===== src/Uart/Transfer.antt =====
-- `uart_get_bytes` and `uart_put_bytes` of src/uart/uart.c against the queues of bytes.
use first_os.Base.{
  ℕ, zero, suc, ◌+◌, ◌<◌, ◌≡◌, refl, ap, sym, ◌∙◌, ◌⊎◌, inl, inr, Bool, true, false, List, [], ◌∷◌,
  ◌++◌, append-nil, append_assoc, arith, length, length-append, take, drop, ◌==◌, if◌then◌else◌,
  Bool-cases, ==→eq,
}
use native.Mathlib.Nat.{zero-add}
use first_os.Uart.{
  Uart, uart_get_core, uart_get_loop, uart_get_bytes, uart_put_one, uart_put_loop, uart_put_bytes,
}
use first_os.Uart.Contents.{
  IsValid, rx_queue, tx_queue, capacity, length-tx_queue-le, uart_get_core_lem, uart_put_core_lem,
}

take-nil : (n : ℕ) → take {A = ℕ} n [] ≡ []
take-nil zero = refl
take-nil (suc n) = refl

drop-nil : (n : ℕ) → drop {A = ℕ} n [] ≡ []
drop-nil zero = refl
drop-nil (suc n) = refl

abbrev pub Taken : ℕ → Uart → List ℕ × Uart → Type 0
Taken n u (out, u') =
    (out ≡ take n (rx_queue u))
    × (rx_queue u' ≡ drop n (rx_queue u))
    × (tx_queue u' ≡ tx_queue u)
    × IsValid u'

uart_get_loop_lem : (n : ℕ) (u : Uart) → IsValid u → Taken n u (uart_get_loop n u)
unfolding uart_get_loop
uart_get_loop_lem zero u v = (refl, refl, refl, v)
uart_get_loop_lem (suc n) u v = elim (uart_get_core_lem v) [
  | inl (nothing, missing, same) ↦ rw (missing, same, nothing) (refl, refl, refl, v)
  | inr (b, got, front, kept, v') ↦
      rw (got, front)
        (let (out, left, tx, v'') = uart_get_loop_lem n (uart_get_core u).1 v' in
          (ap (λ (t : List ℕ). b ∷ t) out, left, tx ∙ kept, v''))
]

-- `uart_get_bytes` hands over the `n` oldest bytes in order, or all of them if fewer wait, and
-- leaves the rest. It does not touch the transmit queue.
pub uart_get_bytes_lem : (n : ℕ) {u : Uart} → IsValid u → Taken n u (uart_get_bytes n u)
unfolding uart_get_bytes
uart_get_bytes_lem n {u} v = uart_get_loop_lem n u v

-- What goes out for a byte: a newline is preceded by a carriage return.
unfoldable pub crlf : ℕ → List ℕ
crlf c = if c == b'\n' then b'\r' ∷ c ∷ [] else c ∷ []

unfoldable pub expand : List ℕ → List ℕ
expand [] = []
expand (c ∷ cs) = crlf c ++ expand cs

-- A carriage return that went out without its newline: the ring had one free place.
abbrev pub Stray : List ℕ → List ℕ → Type 0
Stray rest stray = (stray ≡ []) ⊎ ((stray ≡ b'\r' ∷ []) × ((cs : List ℕ) × (rest ≡ b'\n' ∷ cs)))

abbrev pub Sent : ℕ → Uart → Bool × Uart → Type 0
Sent c u (drained, u') =
    IsValid u'
    × (rx_queue u' ≡ rx_queue u)
    × (((drained ≡ false) × (tx_queue u' ≡ tx_queue u ++ crlf c))
        ⊎ ((drained ≡ true)
            × (length (tx_queue u') ≡ capacity)
            × ((tx_queue u' ≡ tx_queue u)
                ⊎ ((c ≡ b'\n') × (tx_queue u' ≡ tx_queue u ++ b'\r' ∷ [])))))

plain : (c : ℕ) {u : Uart} → (c == b'\n') ≡ false → IsValid u → Sent c u (uart_put_one c u)
unfolding uart_put_one crlf
plain c {u} e v = rw e (elim (uart_put_core_lem c v) [
  | inl (full, refused, same) ↦ rw (refused, same) (v, refl, inr (refl, full, inl refl))
  | inr (room, done, grown, kept, v') ↦ rw (done, grown) (v', kept, inl (refl, refl))
])

newline : (c : ℕ) {u : Uart} → (c == b'\n') ≡ true → IsValid u → Sent c u (uart_put_one c u)
unfolding uart_put_one crlf
newline c {u} e v = rw e (elim (uart_put_core_lem b'\r' v) [
  | inl (full, refused, same) ↦
      rw (refused, same)
        (elim (uart_put_core_lem c v) [
          | inl (_, refused', same') ↦ rw same' (v, refl, inr (refl, full, inl refl))
          | inr (room, _, _, _, _) ↦ absurd (omega arith)
        ])
  | inr (room, done, grown, kept, v1) ↦ rw done (elim (uart_put_core_lem c v1) [
    | inl (full, refused, same) ↦
        rw (refused, same) (v1, kept, inr (refl, full, inr (==→eq c b'\n' e, grown)))
    | inr (_, done', grown', kept', v2) ↦ rw done' (
      v2,
      kept' ∙ kept,
      inl (
        refl,
        grown'
            ∙ ap (λ (t : List ℕ). t ++ c ∷ []) grown
            ∙ append_assoc (tx_queue u) (b'\r' ∷ []) (c ∷ []),
      ),
    )
  ])
])

uart_put_one_lem : (c : ℕ) {u : Uart} → IsValid u → Sent c u (uart_put_one c u)
uart_put_one_lem c v = elim (Bool-cases (c == b'\n')) [
  | inl e ↦ newline c e v
  | inr e ↦ plain c e v
]

-- What `uart_put_bytes` leaves behind after it has counted `n` of the bytes `buf`: all of them,
-- or a full ring and perhaps a stray carriage return.
abbrev pub Wrote : List ℕ → Uart → ℕ → Uart → Type 0
Wrote buf u n u' =
    IsValid u'
    × (rx_queue u' ≡ rx_queue u)
    × (((n ≡ length buf) × (tx_queue u' ≡ tx_queue u ++ expand buf))
        ⊎ ((stray : List ℕ) × (n < length buf)
            × (length (tx_queue u') ≡ capacity)
            × (tx_queue u' ≡ tx_queue u ++ expand (take n buf) ++ stray)
            × Stray (drop n buf) stray))

regroup : (a c d : List ℕ) {b t : List ℕ} → t ≡ a ++ c → b ≡ t ++ d → b ≡ a ++ (c ++ d)
regroup a c d e f = f ∙ ap (λ (l : List ℕ). l ++ d) e ∙ append_assoc a c d

regroup_stray :
    (a c d s : List ℕ) {b t : List ℕ} → t ≡ a ++ c → b ≡ t ++ d ++ s → b ≡ a ++ (c ++ d) ++ s
regroup_stray a c d s e f = f ∙ ap (λ (l : List ℕ). l ++ s) (regroup a c d e refl)

counted :
    (c : ℕ) (cs : List ℕ) (u u1 u' : Uart) (k : ℕ)
    → rx_queue u1 ≡ rx_queue u
    → tx_queue u1 ≡ tx_queue u ++ crlf c
    → Wrote cs u1 k u'
    → Wrote (c ∷ cs) u (suc k) u'
unfolding expand
counted c cs u u1 u' k rx tx (v, rx', inl (all, tx')) =
    (v, rx' ∙ rx, inl (ap suc all, regroup (tx_queue u) (crlf c) (expand cs) tx tx'))
counted c cs u u1 u' k rx tx (v, rx', inr (stray, some_left, full, tx', what)) = (
  v,
  rx' ∙ rx,
  inr (
    stray,
    omega arith,
    full,
    regroup_stray (tx_queue u) (crlf c) (expand (take k cs)) stray tx tx',
    what,
  ),
)

uart_put_loop_lem :
    (buf : List ℕ) (i : ℕ) (u : Uart)
    → IsValid u
    → let (n, u') = uart_put_loop buf i u in (k : ℕ) × (n ≡ i + k) × Wrote buf u k u'
unfolding uart_put_loop expand
uart_put_loop_lem [] i u v = (0, omega arith, (v, refl, inl (refl, sym (append-nil (tx_queue u)))))
uart_put_loop_lem (c ∷ cs) i u v =
    let (v1, rx, outcome) = uart_put_one_lem c v in
    elim outcome [
      | inl (drained, tx) ↦ rw drained (
          let (k, n, w) = uart_put_loop_lem cs (i + 1) (uart_put_one c u).1 v1 in
          (suc k, omega arith, counted c cs u (uart_put_one c u).1 _ k rx tx w))
      | inr (drained, full, inl tx) ↦ rw drained (
        0,
        omega arith,
        (
          v1,
          rx,
          inr ([], omega arith, full, tx ∙ sym (append-nil _) ∙ sym (append-nil _), inl refl),
        ),
      )
      | inr (drained, full, inr (nl, tx)) ↦ rw drained (
        0,
        omega arith,
        (
          v1,
          rx,
          inr (
            b'\r' ∷ [],
            omega arith,
            full,
            tx ∙ ap (λ (l : List ℕ). l ++ b'\r' ∷ []) (sym (append-nil _)),
            inr (refl, (cs, ap (λ (t : ℕ). t ∷ cs) nl)),
          ),
        ),
      )
    ]

-- `uart_put_bytes` queues every byte in order, each newline behind a carriage return, and counts
-- them all; or it stops at a full ring with a smaller count, having queued what it counted and
-- nothing else, but for the carriage return of the newline that it stopped at. It does not
-- touch the receive queue.
pub uart_put_bytes_lem :
    (buf : List ℕ) {u : Uart} → IsValid u → let (n, u') = uart_put_bytes buf u in Wrote buf u n u'
unfolding uart_put_bytes
uart_put_bytes_lem buf {u} v =
    let (k, n, w) = uart_put_loop_lem buf 0 u v in rw n (rw (zero-add k) w)

-- With exactly one free place a newline is not counted, yet its carriage return is queued: a
-- caller that tries again sends it twice.
pub uart_put_bytes-newline_stray :
    (cs : List ℕ) {u : Uart}
    → IsValid u
    → length (tx_queue u) + 1 ≡ capacity
    → let (n, u') = uart_put_bytes (b'\n' ∷ cs) u in
      (n ≡ 0) × (tx_queue u' ≡ tx_queue u ++ b'\r' ∷ [])
unfolding uart_put_bytes uart_put_loop crlf
uart_put_bytes-newline_stray cs {u} v one =
    let (v1, rx, outcome) = uart_put_one_lem b'\n' v in
    elim outcome [
      | inl (drained, tx) ↦ absurd (
          omega (
            arith,
            ap length tx,
            length-append (tx_queue u) (b'\r' ∷ b'\n' ∷ []),
            length-tx_queue-le v1,
          ))
      | inr (drained, full, inl tx) ↦ absurd (omega (arith, ap length tx))
      | inr (drained, full, inr (nl, tx)) ↦ rw drained (refl, tx)
    ]
