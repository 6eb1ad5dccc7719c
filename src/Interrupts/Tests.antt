-- ===== src/Interrupts/Tests.antt =====
-- The table and the flag at a kernel that has started.
use hry_os.Base.{◌+◌, ◌≡◌, true, false, [], replicate, get_or, length-replicate}
use hry_os.Interrupts.{Interrupts, no_entry, init}
use hry_os.Interrupts.Table.{handler, init-handler}

abbrev fresh : Interrupts
fresh = record {
  interrupts_lock = false;
  interrupts_enabled = true;
  cpu_flag = true;
  idt = replicate 256 no_entry;
  isr_callbacks = replicate 16 0;
  ports = [];
}

init-handler_example :
    get_or (init (λ k. k + 5) (λ k. k) 8 fresh).idt 14 no_entry
    ≡ handler (λ k. k + 5) (λ k. k) 8 fresh.idt 14
init-handler_example = init-handler (λ k. k + 5) (λ k. k) 8 14 fresh (length-replicate 256 no_entry)
