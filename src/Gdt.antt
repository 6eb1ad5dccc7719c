-- ===== src/Gdt.antt =====
-- code/kernel/memory/gdt.cpp and gdt.hpp: the global descriptor table. A bit field takes its value
-- modulo its size. `load_gdt` (assembly) is left out: what it is given is the state.
pub mod Segments
mod Tests
use Prim.Native.Nat.{bit_and}
use hry_os.Base.{ℕ, ◌*◌, ◌/◌, ◌%◌, ◌^◌, List, [], ◌∷◌, length}

pub record GdtDescriptor : Type 0 where
  pub limit_low : ℕ
  pub base_low : ℕ
  pub accessed : ℕ
  pub read_write : ℕ
  pub dc : ℕ
  pub exectuable : ℕ
  pub descriptor_type : ℕ
  pub privilege : ℕ
  pub present : ℕ
  pub limit_high : ℕ
  pub zero_flags : ℕ
  pub big : ℕ
  pub granularity : ℕ
  pub base_high : ℕ

abbrev pub set_base : ℕ → GdtDescriptor → GdtDescriptor
set_base base d = record d {
  base_low = base % 2 ^ 24;
  base_high = bit_and base 0xFF000000 / 2 ^ (4 * 6);
}

abbrev pub set_limit : ℕ → GdtDescriptor → GdtDescriptor
set_limit limit d = record d {
  limit_low = limit % 2 ^ 16;
  limit_high = bit_and limit 0x000F0000 / 2 ^ (4 * 4);
}

abbrev pub create_null_descriptor : GdtDescriptor
create_null_descriptor = record {
  limit_low = 0;
  base_low = 0;
  accessed = 0;
  read_write = 0;
  dc = 0;
  exectuable = 0;
  descriptor_type = 0;
  privilege = 0;
  present = 0;
  limit_high = 0;
  zero_flags = 0;
  big = 0;
  granularity = 0;
  base_high = 0;
}

abbrev pub create_kernel_code_descriptor : GdtDescriptor
create_kernel_code_descriptor =
    let desc = set_limit 0xFFFFFFFF (set_base 0x0 create_null_descriptor) in
    record desc {
      read_write = 1;
      exectuable = 1;
      descriptor_type = 1;
      present = 1;
      granularity = 1;
      big = 1;
    }

abbrev pub create_kernel_data_descriptor : GdtDescriptor
create_kernel_data_descriptor =
    let desc = set_limit 0xFFFFFFFF (set_base 0x0 create_null_descriptor) in
    record desc { read_write = 1; descriptor_type = 1; present = 1; granularity = 1; big = 1 }

abbrev pub create_user_code_descriptor : GdtDescriptor
create_user_code_descriptor =
    let desc = set_limit 0xFFFFFFFF (set_base 0x0 create_null_descriptor) in
    record desc {
      read_write = 1;
      exectuable = 1;
      descriptor_type = 1;
      privilege = 3;
      present = 1;
      granularity = 1;
      big = 1;
    }

abbrev pub create_user_data_descriptor : GdtDescriptor
create_user_data_descriptor =
    let desc = set_limit 0xFFFFFFFF (set_base 0x0 create_null_descriptor) in
    record desc {
      read_write = 1;
      descriptor_type = 1;
      privilege = 3;
      present = 1;
      granularity = 1;
      big = 1;
    }

-- `GDT` and `GDTP`; `gdt` is the address of the table.
pub record Gdt : Type 0 where
  pub entries : List GdtDescriptor
  pub size : ℕ
  pub gdt : ℕ

abbrev pub sizeof_gdt_descriptor : ℕ
sizeof_gdt_descriptor = 8

pub init : ℕ → Gdt → Gdt
init address g =
    let entries : List GdtDescriptor =
      create_null_descriptor ∷ create_kernel_code_descriptor ∷ create_kernel_data_descriptor
      ∷ create_user_code_descriptor ∷ create_user_data_descriptor ∷ [] in
    record { entries = entries; size = sizeof_gdt_descriptor * length entries; gdt = address }

-- The selectors of gdt.hpp.
pub data Selector : Type 0 where
  null_selector kernel_code kernel_data user_code user_data : Selector

abbrev pub selector : Selector → ℕ
selector null_selector = 0x00
selector kernel_code = 0x08
selector kernel_data = 0x10
selector user_code = 0x18
selector user_data = 0x20
