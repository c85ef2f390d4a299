-- ===== src/Seat/Io.antt =====
-- seat-wirebus-vm/src/bin/seat-client.rs: programs that ask the kernel and may end with an
-- `io::Error`, which `?` passes on.
use rignite.Common.{ℕ, Option, none, some, List, ◌==◌, if◌then◌else◌}
use rignite.Seat.Prog.{Prog, ret, stop, ask, ioctl, mmap, Answer, done, failed}

-- The error of the operating system, or one of the client's own.
pub data IoError : Type 0 where
  os_error : ℕ → IoError
  no_crtcs no_modes no_usable_mode map_failed refused no_fd : IoError

pub data Io (A : Type 0) : Type 0 where
  fine : A → Io A
  error : IoError → Io A

infixl 5 ◌>>=◌ ◌>>◌
abbrev pub ◌>>=◌ : {A B : Type 0} → Prog (Io A) → (A → Prog (Io B)) → Prog (Io B)
ret (fine a) >>= f = f a
ret (error e) >>= f = ret (error e)
stop e >>= f = stop e
ask r k >>= f = ask r (λ x. k x >>= f)

abbrev pub ◌>>◌ : {A B : Type 0} → Prog (Io A) → Prog (Io B) → Prog (Io B)
p >> q = p >>= λ _. q

-- The argument and the buffers after an `ioctl` that returned 0.
abbrev pub Filled : Type 0
Filled = List ℕ × List (List ℕ)

unfoldable pub checked : Answer → Io Filled
checked (done r arg buffers) = if r == 0 then fine (arg, buffers) else error (os_error 0)
checked (failed errno) = error (os_error errno)

-- The client has the uid 0.
unfoldable pub io_ctl : ℕ → ℕ → List ℕ → List (ℕ × List ℕ) → Prog (Io Filled)
unfolding checked
io_ctl fd request arg buffers = ask (ioctl 0 fd request arg buffers) (λ a. ret (checked a))

abbrev pub mapped : Option ℕ → Io ℕ
mapped none = error map_failed
mapped (some map) = fine map

abbrev pub lift : {A : Type 0} → Prog A → Prog (Io A)
lift (ret a) = ret (fine a)
lift (stop e) = stop e
lift (ask r k) = ask r (λ x. lift (k x))

abbrev pub io_map : ℕ → ℕ → ℕ → Prog (Io ℕ)
io_map fd size offset = ask (mmap fd size offset) (λ x. ret (mapped x))
