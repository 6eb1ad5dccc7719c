-- ===== src/Gdt/Segments.antt =====
-- What the processor reads from a descriptor.
use Prim.Native.Nat.{bit_and}
use hry_os.Base.{ℕ, ◌+◌, ◌*◌, ◌/◌, ◌%◌, ◌^◌, ◌<◌, ◌≡◌, ◌∙◌, refl, arith}
use hry_os.Base.Bits.{and_ones, and_shifted, and_fifteen}
use hry_os.Gdt.{GdtDescriptor, set_base, set_limit}

-- The two parts of the base and of the limit put together.
abbrev pub base_of : GdtDescriptor → ℕ
base_of d = d.base_low + 2 ^ 24 * d.base_high

abbrev pub limit_of : GdtDescriptor → ℕ
limit_of d = d.limit_low + 2 ^ 16 * d.limit_high

-- The fields of the access byte and the flags.
abbrev pub access_of : GdtDescriptor → ℕ
access_of d =
    d.accessed
    + 2 * d.read_write
    + 4 * d.dc
    + 8 * d.exectuable
    + 16 * d.descriptor_type
    + 32 * d.privilege
    + 128 * d.present

abbrev pub flags_of : GdtDescriptor → ℕ
flags_of d = d.zero_flags + 4 * d.big + 8 * d.granularity

high_base : (base : ℕ) → base < 2 ^ 32 → bit_and base 0xFF000000 / 2 ^ (4 * 6) ≡ base / 2 ^ 24
high_base base h = and_shifted 24 base 255 ∙ and_ones 8 (base / 2 ^ 24) (omega arith)

high_limit : (limit : ℕ) → bit_and limit 0x000F0000 / 2 ^ (4 * 4) ≡ limit / 2 ^ 16 % 16
high_limit limit = and_shifted 16 limit 15 ∙ and_fifteen (limit / 2 ^ 16)

-- The base of 32 bits and the lower 20 bits of the limit that are set in a descriptor are read back
-- from it, and its access byte and flags stay.
pub set_base-set_limit :
    (base limit : ℕ) (d : GdtDescriptor)
    → base < 2 ^ 32
    → let e = set_base base (set_limit limit d) in
      (base_of e ≡ base)
      × (limit_of e ≡ limit % 2 ^ 20)
      × (access_of e ≡ access_of d)
      × (flags_of e ≡ flags_of d)
set_base-set_limit base limit d h =
    let hb = high_base base h in
    let hl = high_limit limit in ((rw hb (omega arith)), (rw hl (omega arith)), refl, refl)
