-- ===== src/Seat/Screen.antt =====
-- What the Linux kernel documents of the requests that show a frame, as far as
-- seat-wirebus-vm/src/bin/seat-client.rs relies on it.
use rignite.Common.{ℕ, ◌≡◌, ◌≢◌, ◌≤◌, Option, some, List, [], ◌∷◌, length, take, drop, All}
use rignite.Common.Bytes.{IsByte, to_le_bytes}
use rignite.Seat.Prog.{
  Answer, open_file, ioctl, mmap, fill, open_device, recv_msg, done, failed, Law,
}
use rignite.Seat.Device.{u32_at, drm_ioctl_mode_getresources, drm_ioctl_mode_setcrtc}
use rignite.Seat.Client.{
  u16_at, u64_at, drm_ioctl_mode_getconnector, drm_ioctl_mode_create_dumb, drm_ioctl_mode_addfb,
  drm_ioctl_mode_map_dumb,
}

pub record Dumb : Type 0 where
  pub handle : ℕ
  pub width : ℕ
  pub height : ℕ
  pub bpp : ℕ
  pub pitch : ℕ
  pub size : ℕ

pub record Fb : Type 0 where
  pub id : ℕ
  pub handle : ℕ
  pub width : ℕ
  pub height : ℕ
  pub pitch : ℕ
  pub bpp : ℕ
  pub depth : ℕ

pub record Shown : Type 0 where
  pub crtc : ℕ
  pub fb : Fb
  pub mode : List ℕ
  pub connectors : List (ℕ × List ℕ)

-- The open file that is the master of the card, the first CRTC and the first connector that the card
-- lists, and the first mode of that connector. The last buffer that was made, with the offset and the address at which it is mapped and the words
-- that it is filled with; the last framebuffer; and what is shown.
pub record Screen : Type 0 where
  pub master : Option ℕ
  pub crtc : ℕ
  pub connector : ℕ
  pub mode : List ℕ
  pub dumb : Option Dumb
  pub offset : Option ℕ
  pub map : Option ℕ
  pub words : Option (ℕ × ℕ)
  pub fb : Option Fb
  pub shown : Option Shown

-- The call returned 0, with bytes of which `P` holds.
abbrev pub Did : Answer → (List ℕ → List (List ℕ) → Type 0) → Type 0
Did (failed errno) P = ⊥
Did (done r arg filled) P =
    (r ≡ 0) × All IsByte arg × All (λ (b : List ℕ). All IsByte b) filled × P arg filled

-- The buffers keep their lengths.
abbrev pub SameLengths : List (ℕ × List ℕ) → List (List ℕ) → Type 0
SameLengths [] [] = Unit
SameLengths ((at, b) ∷ bs) (c ∷ cs) = (length c ≡ length b) × SameLengths bs cs
SameLengths [] (c ∷ cs) = ⊥
SameLengths (b ∷ bs) [] = ⊥

-- What holds of the buffer whose address stands at an offset of the argument, if there is one.
abbrev pub At : ℕ → (List ℕ → Type 0) → List (ℕ × List ℕ) → List (List ℕ) → Type 0
At at P [] cs = Unit
At at P (b ∷ bs) [] = Unit
At at P (b ∷ bs) (c ∷ cs) = (b.0 ≡ at → P c) × At at P bs cs

-- A list of numbers with room for one starts with this one.
abbrev pub Starts : ℕ → List ℕ → Type 0
Starts n c = 4 ≤ length c → u32_at 0 c ≡ n

-- A mode is 68 bytes, and one of a connected connector has a size.
abbrev pub HasSize : List ℕ → Type 0
HasSize mode = (u16_at 4 mode ≢ 0) × (u16_at 14 mode ≢ 0)

-- A list of modes with room for one starts with this one, which has a size.
abbrev pub HasMode : List ℕ → List ℕ → Type 0
HasMode mode c = 68 ≤ length c → (take 68 c ≡ mode) × HasSize mode

-- The card has a CRTC and a connector, and the first connector of its list is connected. Only the
-- master can show a frame, on that CRTC and the one connector that it names, in that connector's mode.
pub record OnDrm (s : Screen) (fd request : ℕ) (arg : List ℕ) (buffers : List (ℕ × List ℕ))
    (x : Answer) (s' : Screen) : Type 0 where
  pub getresources :
      request ≡ drm_ioctl_mode_getresources
      → Did x (λ res filled.
        (u32_at 36 res ≢ 0)
        × (u32_at 40 res ≢ 0)
        × SameLengths buffers filled
        × At 8 (Starts s.crtc) buffers filled
        × At 16 (Starts s.connector) buffers filled)
        × (s' ≡ s)
  pub getconnector :
      request ≡ drm_ioctl_mode_getconnector
      → u32_at 48 arg ≡ s.connector
      → Did x (λ c filled.
        (u32_at 32 c ≢ 0) × SameLengths buffers filled × At 8 (HasMode s.mode) buffers filled)
        × (s' ≡ s)
  pub create_dumb :
      request ≡ drm_ioctl_mode_create_dumb
      → Did x (λ cd filled. s' ≡ record s {
        dumb = some (record {
          handle = u32_at 16 cd;
          width = u32_at 4 arg;
          height = u32_at 0 arg;
          bpp = u32_at 8 arg;
          pitch = u32_at 20 cd;
          size = u64_at 24 cd;
        });
      })
  pub addfb :
      request ≡ drm_ioctl_mode_addfb
      → (d : Dumb) → s.dumb ≡ some d
      → u32_at 24 arg ≡ d.handle
      → Did x (λ out filled. s' ≡ record s {
        fb = some (record {
          id = u32_at 0 out;
          handle = u32_at 24 arg;
          width = u32_at 4 arg;
          height = u32_at 8 arg;
          pitch = u32_at 12 arg;
          bpp = u32_at 16 arg;
          depth = u32_at 20 arg;
        });
      })
  pub map_dumb :
      request ≡ drm_ioctl_mode_map_dumb
      → (d : Dumb) → s.dumb ≡ some d
      → u32_at 0 arg ≡ d.handle
      → Did x (λ md filled. s' ≡ record s { offset = some (u64_at 8 md) })
  pub setcrtc :
      request ≡ drm_ioctl_mode_setcrtc
      → (f : Fb) → s.fb ≡ some f
      → s.master ≡ some fd
      → u32_at 12 arg ≡ s.crtc
      → u32_at 16 arg ≡ f.id
      → u32_at 8 arg ≡ 1
      → buffers ≡ (0, to_le_bytes 4 s.connector) ∷ []
      → u32_at 32 arg ≡ 1
      → take 68 (drop 36 arg) ≡ s.mode
      → Did x (λ out filled. s' ≡ record s {
        shown = some (record {
          crtc = u32_at 12 arg;
          fb = f;
          mode = take 68 (drop 36 arg);
          connectors = buffers;
        });
      })

abbrev pub Drm : Law Screen
Drm s (ioctl uid fd request arg buffers) x s' = OnDrm s fd request arg buffers x s'
Drm s (mmap file size offset) x s' =
    (d : Dumb)
    → s.dumb ≡ some d
    → size ≡ d.size
    → s.offset ≡ some offset
    → (map : ℕ) × (x ≡ some map) × (s' ≡ record s { map = some map })
Drm s (fill map count word) x s' = s.map ≡ some map → s' ≡ record s { words = some (count, word) }
Drm s (open_file uid path) x s' = Unit
Drm s (open_device path) x s' = Unit
Drm s recv_msg x s' = Unit
