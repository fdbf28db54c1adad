-- ===== src/Uart/Interrupts.antt =====
-- Several interrupts of src/uart/uart.c, one after the other: what they send.
use first_os.Base.{
  ℕ, zero, suc, ◌+◌, ◌≡◌, refl, ap, ap₂, sym, ◌∙◌, List, [], ◌∷◌, ◌++◌, arith, take, drop,
}
use first_os.Uart.{Uart, uart_irq_handler}
use first_os.Uart.Contents.{IsValid, tx_queue}
use first_os.Uart.Device.{uart_irq_handler_lem}
use first_os.Uart.Blocking.{interrupts}

-- How often the device is ready in some interrupts.
abbrev pub readies : List (List ℕ × ℕ) → ℕ
readies [] = 0
readies ((incoming, ready) ∷ irqs) = ready + readies irqs

take-split : (a b : ℕ) (xs : List ℕ) → take a xs ++ take b (drop a xs) ≡ take (a + b) xs
take-split zero b xs = ap (λ k. take k xs) (omega arith)
take-split (suc a) b [] = take-nil b ∙ sym (take-nil (suc a + b))
  where
    take-nil : (k : ℕ) → take {A = ℕ} k [] ≡ []
    take-nil zero = refl
    take-nil (suc k) = refl
take-split (suc a) b (x ∷ xs) =
    ap (λ l. x ∷ l) (take-split a b xs)
    ∙ ap (λ k. take k (x ∷ xs)) (let e : suc (a + b) ≡ suc a + b = omega arith in e)

drop-split : (a b : ℕ) (xs : List ℕ) → drop b (drop a xs) ≡ drop (a + b) xs
drop-split zero b xs = ap (λ k. drop k xs) (omega arith)
drop-split (suc a) b [] = drop-nil b ∙ sym (drop-nil (suc a + b))
  where
    drop-nil : (k : ℕ) → drop {A = ℕ} k [] ≡ []
    drop-nil zero = refl
    drop-nil (suc k) = refl
drop-split (suc a) b (x ∷ xs) =
    drop-split a b xs
    ∙ ap (λ k. drop k (x ∷ xs)) (let e : suc (a + b) ≡ suc a + b = omega arith in e)

-- Some interrupts send the oldest bytes.
pub interrupts-Sent :
    (irqs : List (List ℕ × ℕ)) (u : Uart)
    → IsValid u
    → let (out, u') = interrupts irqs u in
      IsValid u'
      × (out ≡ take (readies irqs) (tx_queue u))
      × (tx_queue u' ≡ drop (readies irqs) (tx_queue u))
unfolding interrupts
interrupts-Sent [] u v = (v, refl, refl)
interrupts-Sent ((incoming, ready) ∷ irqs) u v =
    let (v1, rx, out, left, events) = uart_irq_handler_lem incoming ready {u = u} v in
    let u1 = (uart_irq_handler incoming ready u).2 in
    let (v2, out', left') = interrupts-Sent irqs u1 v1 in
    (
      v2,
      ap₂ ◌++◌ out (out' ∙ ap (take (readies irqs)) left)
          ∙ take-split ready (readies irqs) (tx_queue u),
      left' ∙ ap (drop (readies irqs)) left ∙ drop-split ready (readies irqs) (tx_queue u),
    )
