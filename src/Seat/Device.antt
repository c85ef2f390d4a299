-- ===== src/Seat/Device.antt =====
-- seat-fdpass-smoke/src/main.rs: the requests to a graphics card and an input device.
use rignite.Common.{
  ℕ, ◌+◌, ◌*◌, Option, none, some, List, [], ◌∷◌, ◌++◌, Bool, true, false, not, ◌&&◌, ◌||◌, ◌==◌,
  if◌then◌else◌, take, drop, replicate, length,
}
use rignite.Common.Bytes.{from_le_bytes, to_le_bytes}
use rignite.Seat.Prog.{Prog, ret, call, Request, ioctl, Answer, done, failed, ◌>>=◌}

abbrev pub drm_ioctl_version : ℕ
drm_ioctl_version = 0xc0406400

abbrev pub drm_ioctl_set_master : ℕ
drm_ioctl_set_master = 0x641e

abbrev pub drm_ioctl_drop_master : ℕ
drm_ioctl_drop_master = 0x641f

abbrev pub drm_ioctl_mode_getresources : ℕ
drm_ioctl_mode_getresources = 0xc04064a0

abbrev pub drm_ioctl_mode_setcrtc : ℕ
drm_ioctl_mode_setcrtc = 0xc06864a2

abbrev pub eviocgversion : ℕ
eviocgversion = 0x80044501

abbrev pub eviocgname_256 : ℕ
eviocgname_256 = 0x81004506

abbrev pub eviocrevoke : ℕ
eviocrevoke = 0x40044591

abbrev pub unpriv_uid : ℕ
unpriv_uid = 65534

-- The errors that mean that the caller is not the master.
abbrev pub eperm : ℕ
eperm = 1

abbrev pub eacces : ℕ
eacces = 13

abbrev pub ebusy : ℕ
ebusy = 16

-- `== 0` of what the call returns.
abbrev pub is_zero : Answer → Bool
is_zero (done r arg buffers) = r == 0
is_zero (failed errno) = false

-- A call without an argument.
abbrev pub plain : ℕ → ℕ → ℕ → Request
plain uid file request = ioctl uid file request [] []

-- `u32::from_le_bytes(bytes[at..at + 4])`
abbrev pub u32_at : ℕ → List ℕ → ℕ
u32_at at bytes = from_le_bytes (take 4 (drop at bytes))

-- `copy_from_slice` into a range, of bytes that are 0 elsewhere.
abbrev pub put : ℕ → List ℕ → List ℕ → List ℕ
put at bytes buffer = take at buffer ++ (bytes ++ drop (at + length bytes) buffer)

abbrev pub first_buffer : List (List ℕ) → List ℕ
first_buffer [] = []
first_buffer (b ∷ bs) = b

-- The answers of the two passes.
unfoldable pub crtc_found : ℕ → Answer → Option (ℕ × ℕ)
crtc_found count_connectors (failed errno) = none
crtc_found count_connectors (done r arg buffers) =
    if r == 0 then some (u32_at 0 (first_buffer buffers), count_connectors) else none

abbrev pub ids_request : ℕ → ℕ → ℕ → Request
ids_request uid fd count_crtcs =
    ioctl uid fd drm_ioctl_mode_getresources (put 36 (to_le_bytes 4 count_crtcs) (replicate 64 0))
      ((8, replicate (4 * count_crtcs) 0) ∷ [])

unfoldable pub crtcs_counted : ℕ → ℕ → Answer → Prog (Option (ℕ × ℕ))
unfolding crtc_found
crtcs_counted uid fd (failed errno) = ret none
crtcs_counted uid fd (done r res buffers) =
    if (r == 0) && not (u32_at 36 res == 0)
    then (call (ids_request uid fd (u32_at 36 res)) >>= λ a. ret (crtc_found (u32_at 40 res) a))
    else ret none

unfoldable pub first_crtc_id : ℕ → ℕ → Prog (Option (ℕ × ℕ))
unfolding crtcs_counted
first_crtc_id uid fd = do
  res ← call (ioctl uid fd drm_ioctl_mode_getresources (replicate 64 0) [])
  crtcs_counted uid fd res

-- The bytes before the first 0; all that the call counts where there is none.
abbrev pub up_to_zero : List ℕ → List ℕ
up_to_zero [] = []
up_to_zero (b ∷ bs) = if b == 0 then [] else b ∷ up_to_zero bs

unfoldable pub name_read : Answer → Option (List ℕ)
name_read (failed errno) = none
name_read (done n buf buffers) =
    let name = up_to_zero buf in some (if length name == length buf then take n buf else name)

unfoldable pub evdev_name : ℕ → ℕ → Prog (Option (List ℕ))
unfolding name_read
evdev_name uid fd = do
  a ← call (ioctl uid fd eviocgname_256 (replicate 256 0) [])
  ret (name_read a)

-- The argument of SETCRTC: the framebuffer 0 on a CRTC.
abbrev pub setcrtc : ℕ → ℕ → ℕ → Request
setcrtc uid fd crtc_id =
    ioctl uid fd drm_ioctl_mode_setcrtc (put 12 (to_le_bytes 4 crtc_id) (replicate 104 0)) []

-- Whether SETCRTC passed the gate of the master. `errno` is read only after a call that failed.
unfoldable pub passed_gate : Answer → Bool
passed_gate (done r arg buffers) = true
passed_gate (failed err) = not ((err == eacces) || ((err == eperm) || (err == ebusy)))

unfoldable pub setcrtc_master_ok : ℕ → Option ℕ → ℕ → Prog Bool
unfolding passed_gate
setcrtc_master_ok uid none crtc_id = ret false
setcrtc_master_ok uid (some card_fd) crtc_id =
    if crtc_id == 0
    then ret false
    else (call (setcrtc uid card_fd crtc_id) >>= λ a. ret (passed_gate a))
