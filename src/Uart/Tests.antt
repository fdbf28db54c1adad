-- ===== src/Uart/Tests.antt =====
-- Runs of the serial driver, and the theorems on it at concrete rings.
use first_os.Base.{◌≡◌, refl, [], ◌∷◌, ◌++◌, replicate}
use native.Mathlib.Omega.{arith}
use first_os.Uart.{Uart, uart_get_bytes, uart_put_bytes, uart_irq_handler}
use first_os.Uart.Contents.{IsValid, tx_queue}
use first_os.Uart.Transfer.{
  Taken, Wrote, uart_get_bytes_lem, uart_put_bytes_lem, uart_put_bytes-newline_stray,
}
use first_os.Uart.Device.{Handled, uart_irq_handler_lem}

-- A ring that holds 510 bytes to send and three received ones.
abbrev busy : Uart
busy = record {
  rx_ring = 65 ∷ 66 ∷ 67 ∷ replicate 509 0;
  rx_head = 3;
  rx_tail = 0;
  tx_ring = replicate 512 46;
  tx_head = 510;
  tx_tail = 0;
  ier = 1;
}

busy-IsValid : IsValid busy
busy-IsValid = record {
  rx_size = refl;
  tx_size = refl;
  rx_head_in = omega arith;
  rx_tail_in = omega arith;
  tx_head_in = omega arith;
  tx_tail_in = omega arith;
}

uart_get_bytes_lem_example : Taken 2 busy (uart_get_bytes 2 busy)
uart_get_bytes_lem_example = uart_get_bytes_lem 2 {u = busy} busy-IsValid

uart_put_bytes_lem_example :
    let (n, u') = uart_put_bytes (72 ∷ 105 ∷ 10 ∷ []) busy in Wrote (72 ∷ 105 ∷ 10 ∷ []) busy n u'
uart_put_bytes_lem_example = uart_put_bytes_lem (72 ∷ 105 ∷ 10 ∷ []) {u = busy} busy-IsValid

uart_put_bytes-newline_stray_example :
    let (n, u') = uart_put_bytes (10 ∷ []) busy in
    (n ≡ 0) × (tx_queue u' ≡ tx_queue busy ++ 13 ∷ [])
uart_put_bytes-newline_stray_example = uart_put_bytes-newline_stray [] {u = busy} busy-IsValid refl

uart_irq_handler_lem_example :
    Handled (33 ∷ 34 ∷ []) 4 busy (uart_irq_handler (33 ∷ 34 ∷ []) 4 busy)
uart_irq_handler_lem_example = uart_irq_handler_lem (33 ∷ 34 ∷ []) 4 {u = busy} busy-IsValid
