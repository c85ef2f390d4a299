-- ===== src/Seat/Fields.antt =====
-- seat-wirebus-vm/src/bin/seat-client.rs: the numbers in the bytes of arguments and answers.
use rignite.Common.{
  ℕ, zero, suc, ◌^◌, ◌<◌, ◌≡◌, refl, sym, List, [], ◌∷◌, ◌++◌, length, take, drop, All, arith,
  replicate, take-append,
}
use native.Mathlib.Nat.{pow-suc}
use rignite.Common.Bytes.{IsByte, from_le_bytes, to_le_bytes, from_le_bytes-to_le_bytes}
use rignite.Seat.Device.{u32_at}
use rignite.Seat.Client.{set_crtc, put32}

pow_pos : (k : ℕ) → 0 < 256 ^ k
pow_pos zero = omega arith
pow_pos (suc k) = rw pow-suc (omega (arith, pow_pos k))

pub from_le_small : (k : ℕ) (bs : List ℕ) → All IsByte bs → from_le_bytes (take k bs) < 256 ^ k
unfolding from_le_bytes
from_le_small zero bs h = omega arith
from_le_small (suc k) [] h = rw pow-suc (omega (arith, pow_pos k))
from_le_small (suc k) (b ∷ bs) (p, h) = rw pow-suc (omega (arith, p, from_le_small k bs h))

pub drop_bytes : (k : ℕ) (bs : List ℕ) → All IsByte bs → All IsByte (drop k bs)
drop_bytes zero bs h = h
drop_bytes (suc k) [] h = tt
drop_bytes (suc k) (b ∷ bs) (p, h) = drop_bytes k bs h

pub u32_small : (at : ℕ) (bs : List ℕ) → All IsByte bs → u32_at at bs < 256 ^ 4
u32_small at bs h = from_le_small 4 (drop at bs) (drop_bytes at bs h)

-- The fields of the arguments.
take_exact : (n : ℕ) (xs ys : List ℕ) → length xs ≡ n → take n (xs ++ ys) ≡ xs
take_exact n xs ys e = rw (sym e) (take-append xs ys)

pub handle_at :
    (handle : ℕ) → handle < 256 ^ 4 → u32_at 0 (put32 0 handle (replicate 16 0)) ≡ handle
unfolding to_le_bytes
handle_at handle h = from_le_bytes-to_le_bytes 4 handle h

pub connector_at : (conn : ℕ) → conn < 256 ^ 4 → u32_at 48 (put32 48 conn (replicate 80 0)) ≡ conn
unfolding to_le_bytes
connector_at conn h = from_le_bytes-to_le_bytes 4 conn h

pub counted_connector_at :
    (conn n : ℕ) → conn < 256 ^ 4 → u32_at 48 (put32 48 conn (put32 32 n (replicate 80 0))) ≡ conn
unfolding to_le_bytes
counted_connector_at conn n h = from_le_bytes-to_le_bytes 4 conn h

module _ (crtc fb_id : ℕ) (mode : List ℕ) where
  pub crtc_at : crtc < 256 ^ 4 → u32_at 12 (set_crtc crtc fb_id mode) ≡ crtc
  unfolding to_le_bytes
  crtc_at h = from_le_bytes-to_le_bytes 4 crtc h

  pub fb_at : fb_id < 256 ^ 4 → u32_at 16 (set_crtc crtc fb_id mode) ≡ fb_id
  unfolding to_le_bytes
  fb_at h = from_le_bytes-to_le_bytes 4 fb_id h

  pub count_at : u32_at 8 (set_crtc crtc fb_id mode) ≡ 1
  unfolding to_le_bytes from_le_bytes
  count_at = refl

  pub valid_at : u32_at 32 (set_crtc crtc fb_id mode) ≡ 1
  unfolding to_le_bytes from_le_bytes
  valid_at = refl

  pub mode_at : length mode ≡ 68 → take 68 (drop 36 (set_crtc crtc fb_id mode)) ≡ mode
  unfolding to_le_bytes
  mode_at h = take_exact 68 mode _ h
