-- ===== src/Boot/StartupExample.antt =====
-- src/boot/mod.rs and src/fs/btrfs.rs: a drive whose Btrfs holds /Core/Startup/vmlinuz-runixos.
use rignite.Common.{
  ℕ, ◌≡◌, refl, ap, inl, inr, Option, some, List, [], ◌∷◌, All, true, ok, err, arith, length, take,
  drop,
}
use rignite.Common.Bytes.{slice, from_le_bytes}
use rignite.Common.Text.{codes}
use rignite.Btrfs.Layout.{not_found, peek}
use rignite.Btrfs.Decode.{
  decode_key, decode_item, decode_dir_item, decode_super_block, decode_root_item,
  decode_file_extent_item, read_root_item,
}
use rignite.Btrfs.Volume.{read_logical}
use rignite.Btrfs.Mount.{get_uuid}
use rignite.Btrfs.Tree.{find_entry}
use rignite.Btrfs.DirTree.{HasDirItem}
use rignite.Btrfs.File.{Frag}
use rignite.Btrfs.Extents.{FragsOf, skip, take_frag, none_left}
use rignite.Btrfs.Lookup.{TreeOf, RootOf, Leads, Lacks, HasExtents}
use rignite.Btrfs.FileTree.{IsFile}
use rignite.Common.Text.{Text}
use rignite.Boot.Kernel.{Arch}
use rignite.Boot.Image.{Drive, Firmware, boot_from_memory}
use rignite.Boot.Linux.{boot_linux_from_drive, default_cmdline, unwrap_or}
use rignite.Boot.Startup.{HasStartup, IsInitrd, absent, boot_linux_from_drive_lem}
use rignite.Boot.StartupVolume.{
  root_leaf, fs_leaf, io, volume, volume_opens, item_of, root_leaf-LeafAt, fs_entries,
  fs_leaf-LeafAt,
}

top_tree : TreeOf volume 2 volume.sb.root
unfolding decode_super_block slice from_le_bytes
top_tree = record {
  level = 0;
  entries = (root_leaf, item_of root_leaf 0) ∷ [];
  tree = root_leaf-LeafAt;
  level_small = omega arith;
  nodes_small = omega arith;
}

fs_tree : TreeOf volume 2 4608
fs_tree = record {
  level = 0;
  entries = fs_entries;
  tree = fs_leaf-LeafAt;
  level_small = omega arith;
  nodes_small = omega arith;
}

fs_tree-RootOf : RootOf volume 2 top_tree 5 4608
unfolding decode_super_block find_entry read_root_item decode_root_item peek slice from_le_bytes
    decode_item decode_key top_tree
fs_tree-RootOf = record {
  leaf = root_leaf;
  item = item_of root_leaf 0;
  root_item = decode_root_item (take 239 (drop 126 root_leaf));
  found = refl;
  item_read = refl;
  stands = refl;
}

inside : (dir : ℕ) → All (HasDirItem volume.sb.nodesize dir) fs_entries
unfolding decode_super_block decode_item decode_key slice from_le_bytes
inside dir =
    ((λ k. omega arith), ((λ k. omega arith), ((λ k. omega arith), ((λ k. omega arith), tt))))

at_core : Leads volume 2 fs_entries 256 (codes "Core") (257, 1)
unfolding decode_super_block decode_item decode_key decode_dir_item slice from_le_bytes
at_core = record {
  inside = inside 256;
  entry = (fs_leaf, item_of fs_leaf 0);
  present = inl refl;
  named = ((refl, inr refl), omega arith, refl, refl);
  unique = (
    (λ l n. n.3),
    (
      (λ l n. absurd (omega (arith, n.0.0))),
      ((λ l n. absurd (omega (arith, n.0.0))), ((λ l n. absurd (omega (arith, n.0.0))), tt)),
    ),
  );
}

at_startup : Leads volume 2 fs_entries 257 (codes "Startup") (258, 1)
unfolding decode_super_block decode_item decode_key decode_dir_item slice from_le_bytes
at_startup = record {
  inside = inside 257;
  entry = (fs_leaf, item_of fs_leaf 1);
  present = inr (inl refl);
  named = ((refl, inr refl), omega arith, refl, refl);
  unique = (
    (λ l n. absurd (omega (arith, n.0.0))),
    (
      (λ l n. n.3),
      ((λ l n. absurd (omega (arith, n.0.0))), ((λ l n. absurd (omega (arith, n.0.0))), tt)),
    ),
  );
}

at_kernel : Leads volume 2 fs_entries 258 (codes "vmlinuz-runixos") (259, 1)
unfolding decode_super_block decode_item decode_key decode_dir_item slice from_le_bytes
at_kernel = record {
  inside = inside 258;
  entry = (fs_leaf, item_of fs_leaf 2);
  present = inr (inr (inl refl));
  named = ((refl, inr refl), omega arith, refl, refl);
  unique = (
    (λ l n. absurd (omega (arith, n.0.0))),
    (
      (λ l n. absurd (omega (arith, n.0.0))),
      ((λ l n. n.3), ((λ l n. absurd (omega (arith, n.0.0))), tt)),
    ),
  );
}

no_initrd : Lacks volume 2 fs_entries 258 (codes "initramfs-runixos.img")
unfolding decode_super_block decode_item decode_key decode_dir_item slice from_le_bytes
no_initrd = record {
  inside = inside 258;
  unnamed = (
    (λ l n. absurd (omega (arith, n.0.0))),
    (
      (λ l n. absurd (omega (arith, n.0.0))),
      (
        (λ l n. absurd (omega (arith, ap length n.2))),
        ((λ l n. absurd (omega (arith, n.0.0))), tt),
      ),
    ),
  );
}

abbrev frag : Frag
frag = (0, 1 ∷ 0 ∷ 0 ∷ 0 ∷ [])

kernel_frags : FragsOf volume 259 fs_entries (frag ∷ [])
unfolding decode_super_block read_logical decode_item decode_key decode_file_extent_item slice
    from_le_bytes
kernel_frags =
    skip _ (λ n. omega (arith, n.0))
      (skip _ (λ n. omega (arith, n.0))
        (skip _ (λ n. omega (arith, n.0))
          (take_frag _ frag (refl, refl)
            (record {
              inside = omega arith;
              plain = refl;
              regular = refl;
              unshifted = refl;
              small = omega arith;
              start = refl;
              bytes = inr ((λ e. cc), refl);
            })
            none_left)))

kernel_file : HasExtents volume 2 fs_entries 259
kernel_file = record {
  frags = frag ∷ [];
  each = kernel_frags;
  some_extent = λ e. cc;
  short = (omega arith, tt);
  disjoint = (tt, tt);
}

volume-HasStartup : HasStartup volume 2
unfolding decode_super_block top_tree fs_tree
volume-HasStartup = record {
  small = omega arith;
  top = top_tree;
  fs_root = 4608;
  at_fs_root = fs_tree-RootOf;
  outer = fs_tree;
  core = (257, 1);
  at_core = at_core;
  root = 4608;
  dir = 257;
  enters = inr ((λ e. omega (arith, e)), refl, refl);
  inner = fs_tree;
  startup = (258, 1);
  at_startup = at_startup;
  kernel = (259, 1);
  at_kernel = at_kernel;
  kernel_file = kernel_file;
  initrd = absent no_initrd;
}

-- A firmware that loads and starts anything, and the drive of the volume.
abbrev willing : Firmware
willing = record {
  arch = Arch.x86_64;
  install_device_path = λ d. ok 1;
  install_load_file2 = λ h. ok tt;
  load_image = λ d p. ok 2;
  open_loaded_image = λ h. ok tt;
  start_image = λ h. ok tt;
}

abbrev btrfs_drive : Drive
btrfs_drive = record {
  block_io = some io;
  device_path = ok (0x7f ∷ 0xff ∷ 4 ∷ 0 ∷ []);
  file_system = err not_found;
  open_volume = err not_found;
  to_ucs2 = λ t. true;
  open_file = λ t. err not_found;
  file_size = λ t. ok 0;
  read = λ t n. ok [];
}

abbrev given : Text
given = codes "quiet"

boot_linux_from_drive_lem_example :
    (kernel : List ℕ) × (initrd : Option (List ℕ)) × (boot_linux_from_drive willing
        (λ t. t)
        2
        btrfs_drive
        (some given)
      ≡ boot_from_memory willing kernel initrd
          (unwrap_or (some given) (default_cmdline (get_uuid volume))))
    × IsFile volume-HasStartup.kernel_file.frags kernel
    × IsInitrd volume 2 volume-HasStartup.root volume-HasStartup.inner volume-HasStartup.startup.0
        volume-HasStartup.initrd initrd
boot_linux_from_drive_lem_example =
    boot_linux_from_drive_lem willing (λ t. t) 2 btrfs_drive io volume (some given) refl
      volume_opens volume-HasStartup
