-- ===== src/Interrupts/Table.antt =====
-- The descriptor table after `init`: every handler stands at its place.
use hry_os.Base.{
  ℕ, zero, suc, ◌+◌, ◌-◌, ◌*◌, ◌<◌, ◌≤◌, ◌≡◌, ◌≢◌, refl, sym, ap, ◌∙◌, true, false, ◌&&◌, not, List,
  arith, if◌then◌else◌, ltb, leb, ◌==◌, ==_true, Bool-cases, inl, inr, set, get_or, length,
  length-set, get_or-set_self, get_or-set_ne,
}
use hry_os.Interrupts.{
  IdtEntry, no_entry, interrupt_32, Interrupts, entry_of, set_idt_entry, setup_lines, setup_faults,
  remap_pic, init,
}

-- The address that the processor jumps to.
abbrev pub address_of : IdtEntry → ℕ
address_of e = e.offset_higherbits * 65536 + e.offset_lowerbits

abbrev entry_at : ℕ → Interrupts → IdtEntry
entry_at j i = get_or i.idt j no_entry

set_idt_entry-at :
    (offset address selector j : ℕ) (i : Interrupts)
    → offset < length i.idt
    → entry_at j (set_idt_entry offset address selector interrupt_32 0 i)
      ≡ (if j == offset then entry_of address selector interrupt_32 0 else entry_at j i)
unfolding set_idt_entry
set_idt_entry-at offset address selector j i room = elim (Bool-cases (j == offset)) [
  | inl e ↦
      let new = entry_of address selector interrupt_32 0 in
      rw e (
        ap (λ k. get_or (set i.idt offset new) k no_entry) (==_true j offset e)
        ∙ get_or-set_self i.idt offset new no_entry room)
  | inr e ↦
      let other : offset ≢ j = ground arith in
      rw e (
        get_or-set_ne i.idt {i = offset} {j = j} (entry_of address selector interrupt_32 0) no_entry
          other)
]

length-setup_lines :
    (k : ℕ) (isr : ℕ → ℕ) (selector : ℕ) (i : Interrupts)
    → length (setup_lines k isr selector i).idt ≡ length i.idt
unfolding setup_lines set_idt_entry
length-setup_lines zero isr selector i = refl
length-setup_lines (suc k) isr selector i =
    length-set (setup_lines k isr selector i).idt _ _ ∙ length-setup_lines k isr selector i

length-setup_faults :
    (k : ℕ) (fault : ℕ → ℕ) (selector : ℕ) (i : Interrupts)
    → length (setup_faults k fault selector i).idt ≡ length i.idt
unfolding setup_faults set_idt_entry
length-setup_faults zero fault selector i = refl
length-setup_faults (suc k) fault selector i = elim (Bool-cases (k == 15)) [
  | inl e ↦ rw e (length-setup_faults k fault selector i)
  | inr e ↦ rw e (
      length-set (setup_faults k fault selector i).idt _ _ ∙ length-setup_faults k fault selector i)
]

setup_lines-at :
    (k : ℕ) (isr : ℕ → ℕ) (selector j : ℕ) (i : Interrupts)
    → k ≤ 16
    → length i.idt ≡ 256
    → entry_at j (setup_lines k isr selector i) ≡ (
        if leb 32 j && ltb j (32 + k)
        then entry_of (isr (j - 32)) selector interrupt_32 0
        else entry_at j i)
unfolding setup_lines
setup_lines-at zero isr selector j i few size =
    let out : (leb 32 j && ltb j (32 + 0)) ≡ false = ground arith in rw out refl
setup_lines-at (suc k) isr selector j i few size =
    let place : (if ltb k 8 then 32 + k else 40 + (k - 8)) ≡ 32 + k = ground arith in
    rw place (
      set_idt_entry-at (32 + k) (isr k) selector j (setup_lines k isr selector i)
        (omega (arith, length-setup_lines k isr selector i))
      ∙ elim (Bool-cases (j == 32 + k)) [
        | inl e ↦
            let inside : (leb 32 j && ltb j (32 + suc k)) ≡ true = ground arith in
            let line : j - 32 ≡ k = ground arith in rw (e, inside, line) refl
        | inr e ↦
            let same_range : (leb 32 j && ltb j (32 + suc k)) ≡ (leb 32 j && ltb j (32 + k)) =
              ground arith in
            rw (e, same_range) (setup_lines-at k isr selector j i (omega arith) size)
      ])

setup_faults-at :
    (k : ℕ) (fault : ℕ → ℕ) (selector j : ℕ) (i : Interrupts)
    → k ≤ 21
    → length i.idt ≡ 256
    → entry_at j (setup_faults k fault selector i) ≡ (
        if ltb j k && not (j == 15)
        then entry_of (fault j) selector interrupt_32 0
        else entry_at j i)
unfolding setup_faults
setup_faults-at zero fault selector j i few size =
    let out : (ltb j 0 && not (j == 15)) ≡ false = ground arith in rw out refl
setup_faults-at (suc k) fault selector j i few size =
    let rest = setup_faults-at k fault selector j i (omega arith) size in
    elim (Bool-cases (k == 15)) [
      | inl r ↦
          let same_range : (ltb j (suc k) && not (j == 15)) ≡ (ltb j k && not (j == 15)) =
            ground arith in
          rw (r, same_range) rest
      | inr r ↦ rw r (
          set_idt_entry-at k (fault k) selector j (setup_faults k fault selector i)
            (omega (arith, length-setup_faults k fault selector i))
          ∙ elim (Bool-cases (j == k)) [
            | inl e ↦
                let inside : (ltb j (suc k) && not (j == 15)) ≡ true = ground arith in
                let line : j ≡ k = ==_true j k e in
                rw (e, inside) (ap (λ n. entry_of (fault n) selector interrupt_32 0) (sym line))
            | inr e ↦
                let same_range : (ltb j (suc k) && not (j == 15)) ≡ (ltb j k && not (j == 15)) =
                  ground arith in
                rw (e, same_range) rest
          ])
    ]

-- The handler at each place of the table.
abbrev pub handler : (ℕ → ℕ) → (ℕ → ℕ) → ℕ → List IdtEntry → ℕ → IdtEntry
handler fault isr selector idt j =
    if leb 32 j && ltb j 48
    then entry_of (isr (j - 32)) selector interrupt_32 0
    else if ltb j 21 && not (j == 15)
    then entry_of (fault j) selector interrupt_32 0
    else get_or idt j no_entry

-- After `interrupts::init` each place of a table of 256 entries holds what it should: the handlers
-- of the 16 hardware lines from 32 on, those of the faults 0 to 20 without 15, and elsewhere what
-- was there.
pub init-handler :
    (fault isr : ℕ → ℕ) (selector j : ℕ) (i : Interrupts)
    → length i.idt ≡ 256
    → get_or (init fault isr selector i).idt j no_entry ≡ handler fault isr selector i.idt j
unfolding init remap_pic
init-handler fault isr selector j i size =
    let base : Interrupts = remap_pic i in
    setup_lines-at 16 isr selector j (setup_faults 21 fault selector base) (omega arith)
      (length-setup_faults 21 fault selector base ∙ size)
    ∙ ap (λ e. if leb 32 j && ltb j 48 then entry_of (isr (j - 32)) selector interrupt_32 0 else e)
        (setup_faults-at 21 fault selector j base (omega arith) size)

-- The two halves of an address make it up again.
address_of-entry_of :
    (address selector gate dpl : ℕ) → address_of (entry_of address selector gate dpl) ≡ address
address_of-entry_of address selector gate dpl = omega arith

-- After `interrupts::init` on a table of 256 entries, the two halves of the address in the entry of
-- a hardware line make up the address of its handler.
pub init-leads :
    (fault isr : ℕ → ℕ) (selector line : ℕ) (i : Interrupts)
    → length i.idt ≡ 256
    → line < 16
    → address_of (get_or (init fault isr selector i).idt (32 + line) no_entry) ≡ isr line
init-leads fault isr selector line i size few =
    let inside : (leb 32 (32 + line) && ltb (32 + line) 48) ≡ true = ground arith in
    let back : 32 + line - 32 ≡ line = omega arith in
    ap address_of (init-handler fault isr selector (32 + line) i size)
    ∙ rw (inside, back) (address_of-entry_of (isr line) selector interrupt_32 0)
