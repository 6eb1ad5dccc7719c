-- ===== src/Gdt/Tests.antt =====
-- The global descriptor table at concrete values.
use hry_os.Base.{◌%◌, ◌^◌, ◌≡◌, arith}
use hry_os.Gdt.{set_base, set_limit, create_null_descriptor}
use hry_os.Gdt.Segments.{base_of, limit_of, access_of, flags_of, set_base-set_limit}

-- A segment that starts above 2^24, with a limit of more than 20 bits.
set_base-set_limit_example :
    let e = set_base 0x12345678 (set_limit 0xABCDEF create_null_descriptor) in
    (base_of e ≡ 0x12345678)
    × (limit_of e ≡ 0xABCDEF % 2 ^ 20)
    × (access_of e ≡ 0)
    × (flags_of e ≡ 0)
set_base-set_limit_example =
    set_base-set_limit 0x12345678 0xABCDEF create_null_descriptor (omega arith)
