-- ===== src/Boot/Checked.antt =====
-- src/boot/mod.rs: what a boot asks of the firmware, and in which order.
use rignite.Common.{
  ℕ, Option, none, some, ◌≡◌, refl, List, [], ◌∷◌, inl, inr, ok, err, fault, Bool-cases,
}
use rignite.Common.Text.{Text}
use rignite.Btrfs.Layout.{M}
use rignite.Btrfs.Volume.{Btrfs, BlockIo}
use rignite.Btrfs.Mount.{new}
use rignite.Boot.Kernel.{validate_kernel_pe}
use rignite.Boot.Scan.{scan_dir_recursive, is_empty, start_target, try_boot_fat_fallback}
use rignite.Boot.Run.{Event, load_image, Run, attempt, call, ◌>>=◌}
use rignite.Boot.Image.{
  Drive, Firmware, install_initrd_protocol, install_some, boot_from_memory, boot_efi_app,
}
use rignite.Boot.Linux.{Startup, fallback, boot_startup, boot_volume, boot_linux_from_drive}
use rignite.Boot.Order.{
  IsLoaded, IsOrdered, IsOrdered-lift, IsOrdered-call, IsOrdered-last, IsOrdered-guard,
  IsOrdered-unit, IsOrdered-result,
}

module _ (fw : Firmware) where
  install-IsOrdered :
      (seen : List Event) (initrd : Option (List ℕ)) → IsOrdered fw seen (install_some fw initrd)
  unfolding install_some install_initrd_protocol
  install-IsOrdered seen none = IsOrdered-result fw seen _
  install-IsOrdered seen (some d) =
      IsOrdered-call fw seen _ _ _ tt
        (λ u e. IsOrdered-call fw _ _ _ _ tt (λ h e'. IsOrdered-last fw _ _ _ tt))

  -- Loading an image that passed the check, and what follows with its handle.
  load-IsOrdered :
      (seen : List Event) (d : List ℕ) (p : Option (List ℕ)) (f : ℕ → Run (Unit {0}))
      → validate_kernel_pe fw.arch d ≡ ok tt
      → ((h : ℕ)
          → IsLoaded fw (load_image d p ∷ seen) h
          → IsOrdered fw (load_image d p ∷ seen) (f h))
      → IsOrdered fw seen (call (load_image d p) (fw.load_image d p) >>= f)
  load-IsOrdered seen d p f v n = IsOrdered-call fw seen _ _ f v (λ h e. n h (d, p, inl refl, e, v))

  later : (seen : List Event) (e : Event) (h : ℕ) → IsLoaded fw seen h → IsLoaded fw (e ∷ seen) h
  later seen e h (d, p, i, l, v) = (d, p, inr i, l, v)

  boot_from_memory-IsOrdered :
      (seen : List Event) (kernel : List ℕ) (initrd : Option (List ℕ)) (cmdline : Text)
      → IsOrdered fw seen (boot_from_memory fw kernel initrd cmdline)
  unfolding boot_from_memory
  boot_from_memory-IsOrdered seen kernel initrd cmdline = IsOrdered-lift fw seen _ _ (λ u v.
      IsOrdered-unit fw seen _ _ (install-IsOrdered seen initrd) (λ seen'.
        load-IsOrdered seen' kernel none _ v (λ h l. IsOrdered-lift fw _ _ _ (λ u'' e''.
          IsOrdered-call fw _ _ _ _ l
            (λ u3 e3. IsOrdered-last fw _ _ _ (later (load_image kernel none ∷ seen') _ h l))))))

  pub attempt-IsOrdered :
      (seen : List Event) (r : Run (Unit {0})) → IsOrdered fw seen r → IsOrdered fw seen (attempt r)
  unfolding IsOrdered attempt
  attempt-IsOrdered seen r o = o

  module _ (to_lowercase : Text → Text) (fuel : ℕ) (drive : Drive) where
    pub boot_efi_app-IsOrdered :
        (seen : List Event) (path : Text) → IsOrdered fw seen (boot_efi_app fw fuel drive path)
    unfolding boot_efi_app
    boot_efi_app-IsOrdered seen path = IsOrdered-lift fw seen _ _ (λ dp e1.
        IsOrdered-lift fw seen _ _ (λ data_ e2. IsOrdered-lift fw seen _ _ (λ u e3.
          IsOrdered-lift fw seen _ _ (λ root e4. IsOrdered-guard fw seen _ _ _ (
            IsOrdered-lift fw _ _ _ (λ file e6. IsOrdered-lift fw _ _ _ (λ u'' e7.
              IsOrdered-lift fw _ _ _ (λ size e8. IsOrdered-lift fw _ _ _ (λ u3 e9.
                IsOrdered-lift fw _ _ _ (λ code e10. IsOrdered-lift fw _ _ _ (λ u4 v.
                  load-IsOrdered _ code (some data_) _ v
                    (λ h l. IsOrdered-last fw _ _ _ l))))))))))))

    start_target-IsOrdered :
        (seen : List Event) (o : Option Text)
        → IsOrdered fw seen (start_target (boot_efi_app fw fuel drive) o)
    unfolding start_target
    start_target-IsOrdered seen none = IsOrdered-result fw seen _
    start_target-IsOrdered seen (some path) = boot_efi_app-IsOrdered seen path

    fallback-IsOrdered :
        (seen : List Event) → IsOrdered fw seen (fallback fw to_lowercase fuel drive)
    unfolding try_boot_fat_fallback
    fallback-IsOrdered seen = IsOrdered-guard fw seen _ _ _ (
        IsOrdered-lift fw seen _ _ (λ root e.
          elim (Bool-cases (
            is_empty
              (scan_dir_recursive to_lowercase root []
                (record { apps = []; quibble = none })).apps)) [
                  | inl y ↦ rw y (IsOrdered-result fw seen _)
                  | inr n ↦ rw n (start_target-IsOrdered seen _)
                ]))

    boot_startup-IsOrdered :
        (seen : List Event) (m : M Startup)
        → IsOrdered fw seen (boot_startup fw to_lowercase fuel drive m)
    unfolding boot_startup
    boot_startup-IsOrdered seen (ok s) =
        boot_from_memory-IsOrdered seen s.kernel_data s.initrd_data s.cmdline
    boot_startup-IsOrdered seen (err e) = IsOrdered-result fw seen _
    boot_startup-IsOrdered seen (fault x) = IsOrdered-result fw seen _

    boot_volume-IsOrdered :
        (seen : List Event) (o : Option Text) (m : M (Option Btrfs))
        → IsOrdered fw seen (boot_volume fw to_lowercase fuel drive o m)
    unfolding boot_volume
    boot_volume-IsOrdered seen o (ok (some btrfs)) = boot_startup-IsOrdered seen _
    boot_volume-IsOrdered seen o (ok none) = fallback-IsOrdered seen
    boot_volume-IsOrdered seen o (err e) = fallback-IsOrdered seen
    boot_volume-IsOrdered seen o (fault x) = IsOrdered-result fw seen _

    from_block_io :
        (seen : List Event) (o : Option Text) (b : Option BlockIo)
        → IsOrdered fw seen (elim b [
          | none ↦ fallback fw to_lowercase fuel drive
          | some block_io ↦ boot_volume fw to_lowercase fuel drive o (new block_io)
        ])
    from_block_io seen o none = fallback-IsOrdered seen
    from_block_io seen o (some block_io) = boot_volume-IsOrdered seen o (new block_io)

    pub boot_linux_from_drive-IsOrdered :
        (seen : List Event) (cmdline_override : Option Text)
        → IsOrdered fw seen (boot_linux_from_drive fw to_lowercase fuel drive cmdline_override)
    unfolding boot_linux_from_drive
    boot_linux_from_drive-IsOrdered seen o = from_block_io seen o drive.block_io
