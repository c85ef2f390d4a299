-- ===== src/Boot/Kernel.antt =====
-- src/boot/mod.rs: `validate_kernel_pe`.
use rignite.Common.{
  ℕ, ◌+◌, none, some, List, ok, err, fault, panic, ◌>>=◌, not, ltb, ◌==◌, if◌then◌else◌, length,
  get_elem?,
}
use rignite.Common.Bytes.{slice, from_le_bytes}
use rignite.Btrfs.Layout.{M, invalid_parameter}

-- `target_arch`, which selects the machine number that is compared.
pub data Arch : Type 0 where
  x86_64 aarch64 : Arch

abbrev pub machine_of : Arch → ℕ
machine_of x86_64 = 0x8664
machine_of aarch64 = 0xAA64

-- `l[i]`, which panics out of bounds.
unfoldable pub index : List ℕ → ℕ → M ℕ
index l i = elim (get_elem? l i) [ some b ↦ ok b | none ↦ fault panic ]

-- The part of the check that follows the offset to the PE header. `||` reads its second byte only
-- where the first is as it should be.
unfoldable pub check_pe : Arch → List ℕ → ℕ → M (Unit {0})
check_pe arch kernel_data pe_offset = do
  first ← index kernel_data pe_offset
  if not (first == 0x50) then err invalid_parameter else do
    second ← index kernel_data (pe_offset + 1)
    if not (second == 0x45) then err invalid_parameter else do
      raw ← slice kernel_data (pe_offset + 4) (pe_offset + 6)
      if not (from_le_bytes raw == machine_of arch) then err invalid_parameter else ok tt

unfoldable pub validate_kernel_pe : Arch → List ℕ → M (Unit {0})
validate_kernel_pe arch kernel_data = if not (ltb 0x40 (length kernel_data)) then ok tt else do
  first ← index kernel_data 0
  if not (first == 0x4d) then err invalid_parameter else do
    second ← index kernel_data 1
    if not (second == 0x5a) then err invalid_parameter else do
      raw ← slice kernel_data 0x3c 0x40
      let pe_offset = from_le_bytes raw
      if ltb (pe_offset + 6) (length kernel_data)
          then check_pe arch kernel_data pe_offset
          else ok tt
