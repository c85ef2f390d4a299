-- ===== src/Seat/Kernel.antt =====
-- What the Linux kernel documents of a card and an input device, as far as the tests of
-- seat-fdpass-smoke/src/main.rs rely on it: who is the master, and which open files are revoked.
use rignite.Common.{ℕ, suc, ◌≡◌, ◌≢◌, Option, none, some, List, ◌∷◌, In, length, All}
use rignite.Common.Text.{Text}
use rignite.Seat.Prog.{
  Answer, open_file, ioctl, mmap, fill, open_device, recv_msg, done, failed, Law,
}
use rignite.Seat.Device.{
  u32_at, drm_ioctl_set_master, drm_ioctl_drop_master, drm_ioctl_mode_getresources,
  drm_ioctl_mode_setcrtc, eviocgname_256, eviocgversion, drm_ioctl_version, eviocrevoke, eacces,
  eperm, ebusy,
}

-- The number of files that were opened, the open file that is master of the card, and the revoked
-- ones. A revoked one is dead in every process that holds it.
pub record Seat : Type 0 where
  pub opened : ℕ
  pub master : Option ℕ
  pub revoked : List ℕ

abbrev pub IsFailed : Answer → Type 0
IsFailed (done r arg buffers) = ⊥
IsFailed (failed errno) = Unit

-- MODE_GETRESOURCES gives the number of CRTCs, and into a buffer their numbers, which are not 0.
abbrev pub HasCrtcs : List (ℕ × List ℕ) → Answer → Type 0
HasCrtcs buffers (failed errno) = ⊥
HasCrtcs buffers (done r res filled) =
    (r ≡ 0)
    × (u32_at 36 res ≢ 0)
    × (length filled ≡ length buffers)
    × All (λ (b : List ℕ). u32_at 0 b ≢ 0) filled

-- The call did what it should, or it failed for another reason than the missing authority.
abbrev pub IsPast : Answer → Type 0
IsPast (done r arg buffers) = Unit
IsPast (failed errno) = (errno ≢ eacces) × (errno ≢ eperm) × (errno ≢ ebusy)

abbrev pub IsDone : Answer → Type 0
IsDone (done r arg buffers) = Unit
IsDone (failed errno) = ⊥

abbrev pub IsZero : Answer → Type 0
IsZero (done r arg buffers) = r ≡ 0
IsZero (failed errno) = ⊥

pub record OnIoctl (s : Seat) (uid fd request : ℕ) (buffers : List (ℕ × List ℕ)) (x : Answer)
    (s' : Seat) : Type 0 where
  -- Root becomes master where nobody is, and nobody takes it from another open file.
  pub set_master :
      request ≡ drm_ioctl_set_master
      → uid ≡ 0
      → s.master ≡ none
      → IsZero x × (s' ≡ record s { master = some fd })
  pub keep_master :
      request ≡ drm_ioctl_set_master → (g : ℕ) → s.master ≡ some g → g ≢ fd → IsFailed x × (s' ≡ s)
  pub drop_master :
      request ≡ drm_ioctl_drop_master → s.master ≡ some fd → s' ≡ record s { master = none }
  -- Only the master sets a CRTC.
  pub setcrtc_master : request ≡ drm_ioctl_mode_setcrtc → s.master ≡ some fd → IsPast x × (s' ≡ s)
  pub setcrtc_other :
      request ≡ drm_ioctl_mode_setcrtc → s.master ≢ some fd → (x ≡ failed eacces) × (s' ≡ s)
  pub getresources : request ≡ drm_ioctl_mode_getresources → HasCrtcs buffers x × (s' ≡ s)
  pub drm_version : request ≡ drm_ioctl_version → IsZero x × (s' ≡ s)
  -- An input device has a version and a name until it is revoked.
  pub input_version : request ≡ eviocgversion → ¬ In fd s.revoked → IsZero x × (s' ≡ s)
  pub name_dead : request ≡ eviocgname_256 → In fd s.revoked → IsFailed x × (s' ≡ s)
  pub name : request ≡ eviocgname_256 → ¬ In fd s.revoked → IsDone x × (s' ≡ s)
  pub revoke : request ≡ eviocrevoke → s' ≡ record s { revoked = fd ∷ s.revoked }

-- Root opens a device, and the open file is a new one. Nobody else may.
abbrev pub Documented : List Text → Law Seat
Documented devices s (open_file uid path) x s' =
    In path devices
    → (uid ≡ 0 → (x ≡ some s.opened) × (s' ≡ record s { opened = suc s.opened }))
      × (uid ≢ 0 → (x ≡ none) × (s' ≡ s))
Documented devices s (ioctl uid fd request arg buffers) x s' = OnIoctl s uid fd request buffers x s'
Documented devices s (mmap file size offset) x s' = Unit
Documented devices s (fill map count word) x s' = Unit
Documented devices s (open_device path) x s' = Unit
Documented devices s recv_msg x s' = Unit
