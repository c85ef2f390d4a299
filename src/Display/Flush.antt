-- ===== src/Display/Flush.antt =====
-- src/graphics.rs: `new` and `flush`. The firmware's current mode and its frame buffer stand in the
-- display.
use rignite.Common.{
  ℕ, ◌*◌, ◌/◌, ◌%◌, ◌^◌, List, ok, fault, wild, leb, length, take, replicate, if◌then◌else◌, ◌>>◌,
}
use rignite.Common.Index.{overwrite}
use rignite.Btrfs.Layout.{M}
use rignite.Btrfs.Volume.{allocate}
use rignite.Display.{Mode, PixelFormat, rgb, blt_only, other}

-- A transfer of the buffer's pixels, of four bytes each, to the origin of the screen.
pub record Blt : Type 0 where
  pub buffer : List ℕ
  pub px_stride : ℕ
  pub width : ℕ
  pub height : ℕ

-- What the firmware shows then: a transfer that it was asked for, or the frame buffer.
pub data Flushed : Type 0 where
  blt : Blt → Flushed
  frame_buffer : List ℕ → Flushed

pub record UefiDisplay : Type 0 where
  pub current_mode : Mode
  pub video : List ℕ
  pub backbuffer : List ℕ

unfoldable pub new : Mode → List ℕ → M UefiDisplay
new mode video = do
  let len = mode.height * mode.stride * 4 % 2 ^ 64
  allocate len
  ok (record { current_mode = mode; video = video; backbuffer = replicate len 0 })

-- The copy writes through a raw pointer.
abbrev pub copy_out : UefiDisplay → M Flushed
copy_out d =
    if leb (length d.backbuffer) (length d.video)
    then ok (frame_buffer (overwrite d.video 0 d.backbuffer))
    else fault wild

abbrev pub blt_out : UefiDisplay → Flushed
blt_out d = blt (record {
  buffer = take (length d.backbuffer / 4 * 4) d.backbuffer;
  px_stride = d.current_mode.stride;
  width = d.current_mode.width;
  height = d.current_mode.height;
})

abbrev pub flush_as : PixelFormat → UefiDisplay → M Flushed
flush_as rgb d = copy_out d
flush_as blt_only d = ok (blt_out d)
flush_as other d = copy_out d

unfoldable pub flush : UefiDisplay → M Flushed
flush d = flush_as d.current_mode.pixel_format d
