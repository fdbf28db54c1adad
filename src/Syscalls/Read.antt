-- ===== src/Syscalls/Read.antt =====
-- `_syscall_uart_read` of src/kernel/interrupts/syscalls.c, through the dispatch.
use first_os.Base.{
  ℕ, zero, suc, ◌+◌, ◌%◌, ◌^◌, ◌≤◌, ◌<◌, ◌≡◌, ◌≢◌, ◌⊎◌, refl, ap, ap₂, sym, ◌∙◌, inl, inr, List, [],
  ◌∷◌, arith, ◌==◌, if◌then◌else◌, Bool-cases, ==→eq, ==→ne, ne→==, ==_refl, set, take, drop,
  length,
}
use first_os.Scheduler.{Clock, uart_read, cpu_scheduler_wait}
use first_os.Uart.{uart_get_bytes}
use first_os.Uart.Contents.{IsValid, rx_queue, tx_queue}
use first_os.Uart.Transfer.{uart_get_bytes_lem}
use first_os.Syscalls.{
  Kernel, get_syscall_id, get_param_by_index, set_result, after_ecall, at_ecall, write_bytes,
  read_bytes, syscall_uart_read, syscall_handler,
}

read_bytes-same :
    (n addr : ℕ) (f g : ℕ → ℕ)
    → ((a : ℕ) → addr ≤ a → f a ≡ g a)
    → read_bytes addr n f ≡ read_bytes addr n g
unfolding read_bytes
read_bytes-same zero addr f g h = refl
read_bytes-same (suc n) addr f g h =
    ap₂ (λ c cs. c ∷ cs) (h addr (omega arith))
      (read_bytes-same n (addr + 1) f g (λ a le. h a (omega arith)))

-- What a call has written the task reads back.
read_bytes-write_bytes :
    (cs : List ℕ) (addr : ℕ) (memory : ℕ → ℕ)
    → read_bytes addr (length cs) (write_bytes addr cs memory) ≡ cs
unfolding read_bytes write_bytes
read_bytes-write_bytes [] addr memory = refl
read_bytes-write_bytes (c ∷ cs) addr memory =
    ap₂ (λ x xs. x ∷ xs)
      (ap (λ b. if b then c else write_bytes (addr + 1) cs memory addr) (==_refl addr))
      (read_bytes-same (length cs) (addr + 1) _ (write_bytes (addr + 1) cs memory) (λ a le.
          ap (λ b. if b then c else write_bytes (addr + 1) cs memory a)
            (ne→== a addr (λ (e : a ≡ addr). omega arith)))
        ∙ read_bytes-write_bytes cs (addr + 1) memory)

-- The read hands over `bytes`, or waits if there are none.
abbrev pub ReadDone : Clock → List ℕ → Kernel → Kernel → Type 0
ReadDone clock bytes k k' =
    ((bytes ≡ [])
      × (k'.trapframe.regs ≡ k.trapframe.regs)
      × (k'.trapframe.sepc ≡ k.trapframe.sepc)
      × (k'.scheduler ≡ cpu_scheduler_wait uart_read clock k.scheduler))
    ⊎ ((bytes ≢ [])
        × (k'.trapframe.regs ≡ set k.trapframe.regs 10 (length bytes))
        × (k'.trapframe.sepc ≡ (k.trapframe.sepc + 4) % 2 ^ 64)
        × (k'.scheduler ≡ k.scheduler)
        × (read_bytes (get_param_by_index k.trapframe 0) (length bytes) k'.memory ≡ bytes))

length-zero : (xs : List ℕ) → length xs ≡ 0 → xs ≡ []
length-zero [] h = refl
length-zero (x ∷ xs) h = absurd (omega arith)

module _ (clock : Clock) (exec fork display : Kernel → Kernel) (now later : ℕ) (k : Kernel)
    (call : get_syscall_id k.trapframe ≡ 1) (in_word : k.trapframe.sepc < 2 ^ 64)
    (v : IsValid k.uart) where
  read_call :
      syscall_handler clock exec fork display now later k ≡ syscall_uart_read clock (after_ecall k)
  unfolding syscall_handler
  read_call = rw call refl

  -- The system call `read`, through the dispatch, takes from the serial driver the oldest bytes, at most as
  -- many as asked for. If there are any it stores them in the caller's buffer, returns their number and goes
  -- on behind the call. If there are none it leaves the registers and the program counter at the call,
  -- which is then made again, and waits for input.
  pub syscall_handler-ReadDone :
      let k' = syscall_handler clock exec fork display now later k in
      let count = get_param_by_index k.trapframe 1 % 2 ^ 32 in
      ReadDone clock (take count (rx_queue k.uart)) k k'
      × (rx_queue k'.uart ≡ drop count (rx_queue k.uart))
      × (tx_queue k'.uart ≡ tx_queue k.uart)
  unfolding syscall_uart_read set_result after_ecall at_ecall get_param_by_index
  syscall_handler-ReadDone =
      let count = get_param_by_index k.trapframe 1 % 2 ^ 32 in
      let bytes = (uart_get_bytes count k.uart).0 in
      let (out, left, tx, v') = uart_get_bytes_lem count {u = k.uart} v in
      rw read_call (elim (Bool-cases (length bytes == 0)) [
        | inl nothing ↦ rw nothing (
          inl (sym out ∙ length-zero bytes (==→eq _ _ nothing), refl, omega arith, refl),
          left,
          tx,
        )
        | inr something ↦ rw something (
          inr (
            (λ e. ==→ne _ _ something (ap length (out ∙ e))),
            ap (λ xs. set k.trapframe.regs 10 (length xs)) out,
            refl,
            refl,
            ap
                  (λ xs.
                    read_bytes (get_param_by_index k.trapframe 0) (length xs)
                      (write_bytes (get_param_by_index k.trapframe 0) bytes k.memory))
                  (sym out)
                ∙ read_bytes-write_bytes bytes _ k.memory
                ∙ out,
          ),
          left,
          tx,
        )
      ])
