-- ===== src/Rbc/Tag.antt =====
-- src/rbc.rs: the registries `Tag` and `FsType` with their conversions from and to `u16`, the
-- errors and the constants of the format.
use rignite.Common.{ℕ, ◌≡◌, List, [], ◌∷◌, arith, ◌==◌, if◌then◌else◌, ℕ_discrete}

abbrev pub rbc_magic : List ℕ
rbc_magic = 0x52 ∷ 0x47 ∷ 0x4E ∷ 0x21 ∷ []

abbrev pub rbc_version : ℕ
rbc_version = 1

abbrev pub header_size : ℕ
header_size = 16

pub data Tag : Type 0 where
  main_uuid main_fs_type main_kernel_params : Tag
  recovery_uuid recovery_fs_type recovery_kernel_params : Tag
  signature : Tag
  unknown : ℕ → Tag

-- `derive(PartialEq)`.
unfoldable pub Tag-discrete : Discrete Tag
unfolding ℕ_discrete
Tag-discrete = hlevel ℕ_discrete

unfoldable pub tag_from : ℕ → Tag
tag_from v =
    if v == 0x01
    then main_uuid
    else if v == 0x02
    then main_fs_type
    else if v == 0x03
    then main_kernel_params
    else if v == 0x10
    then recovery_uuid
    else if v == 0x11
    then recovery_fs_type
    else if v == 0x12
    then recovery_kernel_params
    else if v == 0xFF
    then signature
    else unknown v

unfoldable pub as_u16 : Tag → ℕ
as_u16 main_uuid = 0x01
as_u16 main_fs_type = 0x02
as_u16 main_kernel_params = 0x03
as_u16 recovery_uuid = 0x10
as_u16 recovery_fs_type = 0x11
as_u16 recovery_kernel_params = 0x12
as_u16 signature = 0xFF
as_u16 (unknown x) = x

pub data FsType : Type 0 where
  btrfs ext4 xfs zfs f2fs bcachefs : FsType
  erofs squash_fs : FsType
  fat12 fat16 fat32 ex_fat ntfs : FsType
  apfs hfs_plus : FsType
  unknown : ℕ → FsType

unfoldable pub fs_type_from : ℕ → FsType
fs_type_from v =
    if v == 1
    then btrfs
    else if v == 2
    then ext4
    else if v == 3
    then xfs
    else if v == 4
    then zfs
    else if v == 5
    then f2fs
    else if v == 6
    then bcachefs
    else if v == 10
    then erofs
    else if v == 11
    then squash_fs
    else if v == 20
    then fat12
    else if v == 21
    then fat16
    else if v == 22
    then fat32
    else if v == 23
    then ex_fat
    else if v == 24
    then ntfs
    else if v == 30
    then apfs
    else if v == 31
    then hfs_plus
    else FsType.unknown v

unfoldable pub fs_type_as_u16 : FsType → ℕ
fs_type_as_u16 btrfs = 1
fs_type_as_u16 ext4 = 2
fs_type_as_u16 xfs = 3
fs_type_as_u16 zfs = 4
fs_type_as_u16 f2fs = 5
fs_type_as_u16 bcachefs = 6
fs_type_as_u16 erofs = 10
fs_type_as_u16 squash_fs = 11
fs_type_as_u16 fat12 = 20
fs_type_as_u16 fat16 = 21
fs_type_as_u16 fat32 = 22
fs_type_as_u16 ex_fat = 23
fs_type_as_u16 ntfs = 24
fs_type_as_u16 apfs = 30
fs_type_as_u16 hfs_plus = 31
fs_type_as_u16 (FsType.unknown x) = x

pub data RbcError : Type 0 where
  buffer_too_small invalid_magic unsupported_version invalid_size : RbcError
  out_of_bounds utf8_error malformed_atom verification_failed io_error protocol_error : RbcError

-- The tags that `tag_from` returns: no registered code stands under `unknown`.
abbrev pub IsCanonical : Tag → Type 0
IsCanonical t = tag_from (as_u16 t) ≡ t

-- Every 16-bit code survives the way to `Tag` and back, and to `FsType` and back, so that no tag
-- and no filesystem code is lost or merged with another.
pub codes_preserved : (v : ℕ) → (as_u16 (tag_from v) ≡ v) × (fs_type_as_u16 (fs_type_from v) ≡ v)
unfolding tag_from as_u16 fs_type_from fs_type_as_u16
codes_preserved v = (ground arith, ground arith)
