-- ===== src/Logger/Waits.antt =====
-- The wait for the serial port of code/kernel/logger/logger.cpp.
use hry_os.Base.{
  ℕ, zero, suc, ◌+◌, ◌<◌, ◌≡◌, refl, sym, ap, ◌∙◌, true, false, some, [], ◌∷◌, ◌++◌, arith,
}
use hry_os.Logger.{com1_port, Serial, is_transmission_buffer_empty, write_char}

-- After `m` reads of the status that say that the device is busy and one that says it is ready.
abbrev pub written : ℕ → ℕ → Serial → Serial
written m ch s = record { reads = s.reads + m + 1; ports = s.ports ++ (com1_port, ch) ∷ [] }

-- Where the device is busy for a number of reads of its status below the fuel and ready at the
-- next, a character is written to the serial port once, after exactly these reads.
pub write_char-waits :
    (status : ℕ → ℕ) (fuel m ch : ℕ) (s : Serial)
    → m < fuel
    → ((j : ℕ) → j < m → is_transmission_buffer_empty (status (s.reads + j)) ≡ false)
    → is_transmission_buffer_empty (status (s.reads + m)) ≡ true
    → write_char status fuel ch s ≡ some (written m ch s)
unfolding write_char
write_char-waits status zero m ch s lt busy ready = absurd (omega arith)
write_char-waits status (suc fuel) zero ch s lt busy ready =
    let here : s.reads + 0 ≡ s.reads = omega arith in
    let now : is_transmission_buffer_empty (status s.reads) ≡ true =
      ap (λ n. is_transmission_buffer_empty (status n)) (sym here) ∙ ready in
    rw (now, here) refl
write_char-waits status (suc fuel) (suc m) ch s lt busy ready =
    let shift : (j : ℕ) → s.reads + 1 + j ≡ s.reads + suc j = λ j. omega arith in
    let here : s.reads + 0 ≡ s.reads = omega arith in
    let now : is_transmission_buffer_empty (status s.reads) ≡ false =
      ap (λ n. is_transmission_buffer_empty (status n)) (sym here) ∙ busy 0 (omega arith) in
    let rest =
      write_char-waits status fuel m ch (record s { reads = s.reads + 1 }) (omega arith)
        (λ j less.
          ap (λ n. is_transmission_buffer_empty (status n)) (shift j) ∙ busy (suc j) (omega arith))
        (ap (λ n. is_transmission_buffer_empty (status n)) (shift m) ∙ ready) in
    rw now (
      rest
      ∙ ap (λ n. some (record s { reads = n + 1; ports = s.ports ++ (com1_port, ch) ∷ [] }))
          (shift m))
