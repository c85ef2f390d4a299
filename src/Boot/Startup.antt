-- ===== src/Boot/Startup.antt =====
-- src/boot/mod.rs: the kernel that `boot_linux_from_drive` reads from a volume with a well-formed
-- layout.
use rignite.Common.{
  ℕ, ◌^◌, ◌<◌, ◌≡◌, ◌≢◌, ◌⊎◌, inl, inr, refl, Option, none, some, List, ok, true, false, ◌==◌,
  ==_iff, arith,
}
use rignite.Common.Text.{Text, codes}
use rignite.Btrfs.Layout.{root_item_key, fs_tree_objectid}
use rignite.Btrfs.Volume.{Btrfs, BlockIo}
use rignite.Btrfs.Mount.{new, get_uuid}
use rignite.Btrfs.Search.{get_fs_root}
use rignite.Btrfs.Dir.{Location, find_file_in_dir}
use rignite.Btrfs.FileTree.{IsFile}
use rignite.Btrfs.Lookup.{
  TreeOf, RootOf, Leads, Lacks, HasExtents, get_tree_root_lem, find_file_in_dir-Leads,
  find_file_in_dir-Lacks, read_file-HasExtents,
}
use rignite.Boot.Image.{Drive, Firmware, boot_from_memory}
use rignite.Boot.Linux.{
  default_cmdline, unwrap_or, enter_core, read_initrd, read_startup, boot_startup, boot_volume,
  boot_linux_from_drive,
}

module _ (fs : Btrfs) (fuel : ℕ) where
  -- Where the search goes on from the entry Core: in the tree of its subvolume, whose root directory
  -- is 256, or in its directory of the same tree.
  abbrev pub Enters : TreeOf fs fuel fs.sb.root → ℕ → Location → ℕ → ℕ → Type 0
  Enters top fs_root (core_obj, core_type) root dir =
      ((core_type ≡ root_item_key) × RootOf fs fuel top core_obj root × (dir ≡ 256))
      ⊎ ((core_type ≢ root_item_key) × (root ≡ fs_root) × (dir ≡ core_obj))

  -- The initramfs is not there, or it is a file.
  pub data Initrd (root : ℕ) (t : TreeOf fs fuel root) (dir : ℕ) : Type 0 where
    absent : Lacks fs fuel t.entries dir (codes "initramfs-runixos.img") → Initrd root t dir
    present :
        (l : Location)
        → Leads fs fuel t.entries dir (codes "initramfs-runixos.img") l
        → HasExtents fs fuel t.entries l.0
        → Initrd root t dir

  -- The layout: /Core/Startup with the kernel and perhaps the initramfs.
  pub record HasStartup : Type 0 where
    pub small : fs.sb.nodesize < 2 ^ 63
    pub top : TreeOf fs fuel fs.sb.root
    pub fs_root : ℕ
    pub at_fs_root : RootOf fs fuel top fs_tree_objectid fs_root
    pub outer : TreeOf fs fuel fs_root
    pub core : Location
    pub at_core : Leads fs fuel outer.entries 256 (codes "Core") core
    pub root : ℕ
    pub dir : ℕ
    pub enters : Enters top fs_root core root dir
    pub inner : TreeOf fs fuel root
    pub startup : Location
    pub at_startup : Leads fs fuel inner.entries dir (codes "Startup") startup
    pub kernel : Location
    pub at_kernel : Leads fs fuel inner.entries startup.0 (codes "vmlinuz-runixos") kernel
    pub kernel_file : HasExtents fs fuel inner.entries kernel.0
    pub initrd : Initrd root inner startup.0

  -- The bytes of the initramfs, where there is one.
  abbrev pub IsInitrd :
      (root : ℕ) (t : TreeOf fs fuel root) (dir : ℕ) → Initrd root t dir → Option (List ℕ) → Type 0
  IsInitrd root t dir (absent a) none = Unit
  IsInitrd root t dir (absent a) (some bytes) = ⊥
  IsInitrd root t dir (present l a x) none = ⊥
  IsInitrd root t dir (present l a x) (some bytes) = IsFile x.frags bytes

  module _ (v : HasStartup) where
    enter_core_lem : enter_core fuel fs v.fs_root v.core ≡ ok (v.root, v.dir)
    unfolding enter_core
    enter_core_lem = elim v.enters [
      | inl (t, r, d) ↦
          let e : (v.core.1 == root_item_key) ≡ true = (==_iff _ _).1 t in
          rw (e, get_tree_root_lem fs fuel v.small v.top v.core.0 v.root r, d) refl
      | inr (t, r, d) ↦
          let e : (v.core.1 == root_item_key) ≡ false = ground (arith, t) in rw (e, r, d) refl
    ]

    -- What is found under the name of the initramfs, and read from there.
    initrd_lem :
        (i : Initrd v.root v.inner v.startup.0)
        → (res : Option Location) × (out : Option (List ℕ)) × (find_file_in_dir fuel fs v.root
              v.startup.0
              (codes "initramfs-runixos.img")
            ≡ ok res)
          × (read_initrd fuel fs v.root res ≡ ok out)
          × IsInitrd v.root v.inner v.startup.0 i out
    unfolding read_initrd
    initrd_lem (absent a) = (
      none,
      none,
      find_file_in_dir-Lacks fs fuel v.small v.root v.inner v.startup.0 _ a,
      refl,
      tt,
    )
    initrd_lem (present l a x) =
        let (out, e, f) = read_file-HasExtents fs fuel v.small v.root v.inner l.0 x in
        (
          some l,
          some out,
          find_file_in_dir-Leads fs fuel v.small v.root v.inner v.startup.0 _ l a,
          rw e refl,
          f,
        )

    read_startup_lem :
        (o : Option Text)
        → (kernel : List ℕ) × (initrd : Option (List ℕ)) × (read_startup fuel fs o
            ≡ ok (record {
              kernel_data = kernel;
              initrd_data = initrd;
              cmdline = unwrap_or o (default_cmdline (get_uuid fs));
            }))
          × IsFile v.kernel_file.frags kernel
          × IsInitrd v.root v.inner v.startup.0 v.initrd initrd
    unfolding read_startup get_fs_root
    read_startup_lem o =
        let r = get_tree_root_lem fs fuel v.small v.top fs_tree_objectid v.fs_root v.at_fs_root in
        let c =
          find_file_in_dir-Leads fs fuel v.small v.fs_root v.outer 256 (codes "Core") v.core
            v.at_core in
        let s =
          find_file_in_dir-Leads fs fuel v.small v.root v.inner v.dir (codes "Startup") v.startup
            v.at_startup in
        let k =
          find_file_in_dir-Leads fs fuel v.small v.root v.inner v.startup.0
            (codes "vmlinuz-runixos") v.kernel v.at_kernel in
        let (res, initrd, f, g, i) = initrd_lem v.initrd in
        let (kernel, e, w) =
          read_file-HasExtents fs fuel v.small v.root v.inner v.kernel.0 v.kernel_file in
        (kernel, initrd, rw (r, c, enter_core_lem, s, k, f, g, e) refl, w, i)

-- On a drive whose Btrfs has nodes of less than 2^63 bytes and well-formed trees, which the fuel is
-- enough to walk and whose directory items lie inside their nodes, with the layout /Core/Startup,
-- Core being a directory or a subvolume, a boot reads without a fault or an error, and goes on from
-- memory with the bytes of the kernel's extents in their places, with those of the initramfs if there
-- is one and nothing if there is none, and with the command line that was given, or the default one
-- with the volume's UUID. The layout asks that all entries of a directory with one of these names
-- lead to the same place, that no entry has the name of the initramfs if that is absent, and that
-- each of the two files has at least one extent and only uncompressed regular ones with 0 in their
-- field `offset`, which can be read and neither overlap nor pass 2^63. The bytes run to the end of
-- the last extent; the size in the inode does not cut them.
pub boot_linux_from_drive_lem :
    (fw : Firmware) (to_lowercase : Text → Text) (fuel : ℕ) (drive : Drive) (io : BlockIo)
    (fs : Btrfs) (o : Option Text)
    → drive.block_io ≡ some io
    → new io ≡ ok (some fs)
    → (v : HasStartup fs fuel)
    → (kernel : List ℕ) × (initrd : Option (List ℕ)) × (boot_linux_from_drive fw to_lowercase fuel
          drive o
        ≡ boot_from_memory fw kernel initrd (unwrap_or o (default_cmdline (get_uuid fs))))
      × IsFile v.kernel_file.frags kernel
      × IsInitrd fs fuel v.root v.inner v.startup.0 v.initrd initrd
unfolding boot_linux_from_drive boot_volume boot_startup
boot_linux_from_drive_lem fw to_lowercase fuel drive io fs o d n v =
    let (kernel, initrd, e, f, i) = read_startup_lem fs fuel v o in
    (kernel, initrd, rw (d, n, e) refl, f, i)
