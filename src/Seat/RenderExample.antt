-- ===== src/Seat/RenderExample.antt =====
-- The theorem on seat-wirebus-vm/src/bin/seat-client.rs at a small card.
use rignite.Common.{
  ℕ, Option, none, some, List, [], ◌∷◌, ◌++◌, ◌==◌, if◌then◌else◌, length, take, drop, replicate,
  Bool, true, ltb, ◌&&◌,
}
use rignite.Seat.Prog.{
  Answer, done, open_file, ioctl, mmap, fill, open_device, recv_msg, bus_failed, Kernel,
}
use rignite.Seat.Device.{u32_at, drm_ioctl_mode_getresources}
use rignite.Seat.Client.{
  u64_at, Frame, drm_ioctl_mode_getconnector, drm_ioctl_mode_create_dumb, drm_ioctl_mode_addfb,
  drm_ioctl_mode_map_dumb,
}
use rignite.Seat.Screen.{Dumb, Fb, Screen}

-- Every buffer is filled with ones: the CRTC, the connector and the mode are of ones.
abbrev ones : List (ℕ × List ℕ) → List (List ℕ)
ones [] = []
ones ((at, b) ∷ bs) = replicate (length b) 1 ∷ ones bs

abbrev of_ones : ℕ
of_ones = 16843009

abbrev one_each : List ℕ
one_each = replicate 64 1

-- The handle 9, a pitch of 256 bytes and a size of 4096.
abbrev dumb_bytes : List ℕ
dumb_bytes = replicate 16 0 ++ (9 ∷ 0 ∷ 0 ∷ 0 ∷ 0 ∷ 1 ∷ 0 ∷ 0 ∷ 0 ∷ 16 ∷ replicate 6 0)

abbrev fb_bytes : List ℕ
fb_bytes = 5 ∷ replicate 27 0

abbrev dumb_made : List ℕ → Dumb
dumb_made arg = record {
  handle = u32_at 16 dumb_bytes;
  width = u32_at 4 arg;
  height = u32_at 0 arg;
  bpp = u32_at 8 arg;
  pitch = u32_at 20 dumb_bytes;
  size = u64_at 24 dumb_bytes;
}

abbrev fb_added : List ℕ → Fb
fb_added arg = record {
  id = u32_at 0 fb_bytes;
  handle = u32_at 24 arg;
  width = u32_at 4 arg;
  height = u32_at 8 arg;
  pitch = u32_at 12 arg;
  bpp = u32_at 16 arg;
  depth = u32_at 20 arg;
}

abbrev show : Screen → List ℕ → List (ℕ × List ℕ) → Option Fb → Screen
show s arg buffers none = s
show s arg buffers (some f) = record s {
  shown =
      some (record {
        crtc = u32_at 12 arg;
        fb = f;
        mode = take 68 (drop 36 arg);
        connectors = buffers;
      });
}

abbrev answers : Screen → ℕ → List ℕ → List (ℕ × List ℕ) → Answer × Screen
answers s request arg buffers =
    if request == drm_ioctl_mode_getresources
    then (done 0 one_each (ones buffers), s)
    else if request == drm_ioctl_mode_getconnector
    then (done 0 one_each (ones buffers), s)
    else if request == drm_ioctl_mode_create_dumb
    then (done 0 dumb_bytes [], record s { dumb = some (dumb_made arg) })
    else if request == drm_ioctl_mode_addfb
    then (done 0 fb_bytes [], record s { fb = some (fb_added arg) })
    else if request == drm_ioctl_mode_map_dumb
    then (done 0 (replicate 16 0) [], record s { offset = some (u64_at 8 (replicate 16 0)) })
    else (done 0 [] [], show s arg buffers s.fb)

abbrev card : Kernel Screen
card (ioctl uid fd request arg buffers) s = answers s request arg buffers
card (mmap fd size offset) s = (some 0, record s { map = some 0 })
card (fill map count word) s = (tt, record s { words = some (count, word) })
card (open_file uid path) s = (none, s)
card (open_device path) s = (bus_failed, s)
card recv_msg s = (none, s)

abbrev are_small : List ℕ → Bool
are_small [] = true
are_small (b ∷ bs) = ltb b 256 && are_small bs

-- The card's CRTC, connector and mode are those of ones, and the file 3 is its master.
abbrev on_card : Screen → Screen
on_card s = record s { master = some 3; crtc = of_ones; connector = of_ones; mode = replicate 68 1 }

abbrev dark : Screen
dark = record {
  master = none;
  crtc = 0;
  connector = 0;
  mode = [];
  dumb = none;
  offset = none;
  map = none;
  words = none;
  fb = none;
  shown = none;
}
