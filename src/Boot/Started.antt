-- ===== src/Boot/Started.antt =====
-- src/boot/mod.rs: when a boot answers that it succeeded.
use rignite.Common.{
  ℕ, Option, none, some, ◌≡◌, refl, List, [], ◌∷◌, ◌++◌, Bool, true, false, Fault, inl, inr, ok,
  err, fault,
}
use mathlib.Core.List.{append_assoc}
use rignite.Common.Text.{Text}
use rignite.Btrfs.Layout.{M, Status, not_found, unsupported}
use rignite.Btrfs.Volume.{Btrfs, BlockIo}
use rignite.Btrfs.Mount.{new}
use rignite.Boot.Scan.{Listing, try_boot_fat_fallback}
use rignite.Boot.Target.{fallback_lem}
use rignite.Boot.Run.{Event, start_image, Run, guard, chain, lift, call, ◌>>=◌}
use rignite.Boot.Image.{Drive, Firmware, boot_from_memory, boot_efi_app}
use rignite.Boot.Linux.{Startup, fallback, boot_startup, boot_volume, boot_linux_from_drive}

module _ (fw : Firmware) where
  -- The last event starts an image, and the firmware answers that the image returned well.
  abbrev pub EndsInStart : List Event → Type 0
  EndsInStart es =
      (before : List Event) × (h : ℕ) × (es ≡ before ++ (start_image h ∷ []))
      × (fw.start_image h ≡ ok tt)

  unfoldable pub IsStarted : Run (Unit {0}) → Type 0
  IsStarted r = r.result ≡ ok tt → EndsInStart r.events

  EndsInStart-append : (es es' : List Event) → EndsInStart es' → EndsInStart (es ++ es')
  EndsInStart-append es es' (before, h, e, s) = (es ++ before, h, rw (e, append_assoc) refl, s)

  chain-IsStarted :
      {A : Type 0} (es : List Event) (m : M A) (f : A → Run (Unit {0}))
      → ((a : A) → IsStarted (f a))
      → IsStarted (chain es m f)
  unfolding IsStarted
  chain-IsStarted es (ok a) f n e = EndsInStart-append es (f a).events (n a e)
  chain-IsStarted es (err x) f n e = cc
  chain-IsStarted es (fault x) f n e = cc

  bind-IsStarted :
      {A : Type 0} (r : Run A) (f : A → Run (Unit {0}))
      → ((a : A) → IsStarted (f a))
      → IsStarted (r >>= f)
  unfolding ◌>>=◌
  bind-IsStarted r f n = chain-IsStarted r.events r.result f n

  start-IsStarted : (h : ℕ) → IsStarted (call (start_image h) (fw.start_image h))
  unfolding IsStarted call
  start-IsStarted h e = ([], h, refl, e)

  err-IsStarted : (x : Status) → IsStarted (lift (err x))
  unfolding IsStarted lift
  err-IsStarted x e = cc

  fault-IsStarted : (x : Fault) → IsStarted (lift (fault x))
  unfolding IsStarted lift
  fault-IsStarted x e = cc

  boot_from_memory-IsStarted :
      (kernel : List ℕ) (initrd : Option (List ℕ)) (cmdline : Text)
      → IsStarted (boot_from_memory fw kernel initrd cmdline)
  unfolding boot_from_memory
  boot_from_memory-IsStarted kernel initrd cmdline =
      search (bind-IsStarted, start-IsStarted) depth 20

  module _ (to_lowercase : Text → Text) (fuel : ℕ) (drive : Drive) where
    boot_efi_app-IsStarted : (path : Text) → IsStarted (boot_efi_app fw fuel drive path)
    unfolding boot_efi_app
    boot_efi_app-IsStarted path = search (bind-IsStarted, start-IsStarted) depth 20

    fallback-IsStarted :
        (opens : Bool) (root : M Listing)
        → IsStarted (try_boot_fat_fallback to_lowercase (boot_efi_app fw fuel drive) opens root)
    unfolding try_boot_fat_fallback ◌>>=◌ lift guard
    fallback-IsStarted false root = err-IsStarted unsupported
    fallback-IsStarted true (err x) = err-IsStarted x
    fallback-IsStarted true (fault x) = fault-IsStarted x
    fallback-IsStarted true (ok root) =
        elim (fallback_lem to_lowercase (boot_efi_app fw fuel drive) root) [
          | inl (e, f) ↦ rw f (err-IsStarted not_found)
          | inr (t, f, a) ↦ rw f (boot_efi_app-IsStarted t)
        ]

    boot_startup-IsStarted : (m : M Startup) → IsStarted (boot_startup fw to_lowercase fuel drive m)
    unfolding boot_startup
    boot_startup-IsStarted (ok s) = boot_from_memory-IsStarted s.kernel_data s.initrd_data s.cmdline
    boot_startup-IsStarted (err e) = err-IsStarted e
    boot_startup-IsStarted (fault x) = fault-IsStarted x

    boot_volume-IsStarted :
        (o : Option Text) (m : M (Option Btrfs))
        → IsStarted (boot_volume fw to_lowercase fuel drive o m)
    unfolding boot_volume
    boot_volume-IsStarted o (ok (some btrfs)) = boot_startup-IsStarted _
    boot_volume-IsStarted o (ok none) = fallback-IsStarted _ _
    boot_volume-IsStarted o (err e) = fallback-IsStarted _ _
    boot_volume-IsStarted o (fault x) = fault-IsStarted x

    from_block_io :
        (o : Option Text) (b : Option BlockIo)
        → IsStarted (elim b [
          | none ↦ fallback fw to_lowercase fuel drive
          | some block_io ↦ boot_volume fw to_lowercase fuel drive o (new block_io)
        ])
    from_block_io o none = fallback-IsStarted _ _
    from_block_io o (some block_io) = boot_volume-IsStarted o (new block_io)

    -- A boot answers that it succeeded only when the last thing it asked the firmware for was to
    -- start an image, and the firmware answered that the image returned well.
    pub boot_linux_from_drive-IsStarted :
        (cmdline_override : Option Text)
        → IsStarted (boot_linux_from_drive fw to_lowercase fuel drive cmdline_override)
    unfolding boot_linux_from_drive
    boot_linux_from_drive-IsStarted o = from_block_io o drive.block_io
