-- ===== src/Seat/Prog.antt =====
-- Programs that ask the kernel: one request after another, each with its reply. An open file is a
-- number, which stands for the open file description: a copy that is passed to another process is
-- the same open file.
use rignite.Common.{ℕ, ◌≡◌, Option, List}
use rignite.Common.Text.{Text}

-- What an `ioctl` answers: its value, the bytes of the argument and of the buffers that the argument
-- points to; or -1 with `errno`.
pub data Answer : Type 0 where
  done : ℕ → List ℕ → List (List ℕ) → Answer
  failed : ℕ → Answer

-- `open_file uid path` opens with O_RDWR and O_CLOEXEC. `ioctl uid file request arg buffers` carries
-- the pointers of its argument apart: an offset in `arg`, whose 8 bytes there stay 0, and the bytes
-- of the buffer. `mmap file size offset` maps a file shared, for reading and writing, and `fill map
-- count word` stores the word `count` times from the map on. `open_device path` asks the bus: it
-- connects, sends the request and receives the answer; `recv_msg` receives the open files of each
-- control message.
pub data BusReply : Type 0 where
  bus_ok bus_error bus_other bus_failed : BusReply

pub data Request : Type 0 where
  open_file : ℕ → Text → Request
  ioctl : ℕ → ℕ → ℕ → List ℕ → List (ℕ × List ℕ) → Request
  mmap : ℕ → ℕ → ℕ → Request
  fill : ℕ → ℕ → ℕ → Request
  open_device : Text → Request
  recv_msg : Request

abbrev pub Reply : Request → Type 0
Reply (open_file uid path) = Option ℕ
Reply (ioctl uid file request arg buffers) = Answer
Reply (mmap file size offset) = Option ℕ
Reply (fill map count word) = Unit {0}
Reply (open_device path) = BusReply
Reply recv_msg = Option (List (List ℕ))

-- Why a program does not come to its result: it powers off with a report, or it waits for bytes that
-- nobody sends.
pub data Stop : Type 0 where
  setup_failed waits_forever : Stop

pub data Prog (A : Type 0) : Type 0 where
  ret : A → Prog A
  stop : Stop → Prog A
  ask : (r : Request) → (Reply r → Prog A) → Prog A

infixl 5 ◌>>=◌ ◌>>◌
abbrev pub ◌>>=◌ : {A B : Type 0} → Prog A → (A → Prog B) → Prog B
ret a >>= f = f a
stop e >>= f = stop e
ask r k >>= f = ask r (λ x. k x >>= f)

abbrev pub ◌>>◌ : {A B : Type 0} → Prog A → Prog B → Prog B
p >> q = p >>= λ _. q

abbrev pub call : (r : Request) → Prog (Reply r)
call r = ask r ret

-- A kernel on states `W`, and how a program ends on it.
abbrev pub Kernel : Type 0 → Type 0
Kernel W = (r : Request) → W → Reply r × W

pub data End (A : Type 0) : Type 0 where
  ended : A → End A
  stopped : Stop → End A

unfoldable pub run : {A W : Type 0} → Kernel W → Prog A → W → End A × W
run k (ret a) w = (ended a, w)
run k (stop e) w = (stopped e, w)
run k (ask r f) w = let (x, w') = k r w in run k (f x) w'

-- `R` says what a kernel may reply to a request in a state, and in which state it then is. However
-- it replies, the program ends in a way and a state of which `P` holds.
abbrev pub Law : Type 0 → Type 1
Law S = S → (r : Request) → Reply r → S → Type 0

abbrev pub Wp : {A S : Type 0} → Law S → S → Prog A → (End A → S → Type 0) → Type 0
Wp R s (ret a) P = P (ended a) s
Wp R s (stop e) P = P (stopped e) s
Wp {S = S} R s (ask r f) P = (x : Reply r) (s' : S) → R s r x s' → Wp R s' (f x) P

-- The program ends with a result.
abbrev pub Ends : {A S : Type 0} → (A → S → Type 0) → End A → S → Type 0
Ends Q (ended a) s = Q a s
Ends Q (stopped e) s = ⊥

pub Wp->>= :
    {A B S : Type 0} (R : Law S) (s : S) (p : Prog A) (f : A → Prog B) (Q : A → S → Type 0)
    (P : End B → S → Type 0)
    → Wp R s p (Ends Q)
    → ((a : A) (s' : S) → Q a s' → Wp R s' (f a) P)
    → Wp R s (p >>= f) P
Wp->>= R s (ret a) f Q P h g = g a s h
Wp->>= R s (stop e) f Q P h g = absurd h
Wp->>= R s (ask r k) f Q P h g = λ x s' d. Wp->>= R s' (k x) f Q P (h x s' d) g

-- A program that gives `v` in the state `t`, and goes on.
abbrev pub Gives : {A S : Type 0} → Law S → S → Prog A → A → S → Type 0
Gives R s p v t = Wp R s p (Ends (λ a s'. (a ≡ v) × (s' ≡ t)))

pub Gives->>= :
    {A B S : Type 0} (R : Law S) (s t : S) (p : Prog A) (v : A) (f : A → Prog B)
    (P : End B → S → Type 0)
    → Gives R s p v t
    → Wp R t (f v) P
    → Wp R s (p >>= f) P
Gives->>= R s t p v f P h k =
    Wp->>= R s p f (λ a s'. (a ≡ v) × (s' ≡ t)) P h (λ a s' (e, q). rw (e, q) k)

-- A program that stops.
abbrev pub StopsBy : {A S : Type 0} → Stop → End A → S → Type 0
StopsBy e (ended a) s = ⊥
StopsBy e (stopped x) s = x ≡ e

pub Stops->>= :
    {A B S : Type 0} (R : Law S) (s : S) (p : Prog A) (f : A → Prog B) (e : Stop)
    → Wp R s p (StopsBy e)
    → Wp R s (p >>= f) (StopsBy e)
Stops->>= R s (ret a) f e h = absurd h
Stops->>= R s (stop x) f e h = h
Stops->>= R s (ask r k) f e h = λ x s' d. Stops->>= R s' (k x) f e (h x s' d)

-- A kernel whose states are seen as states of the law.
pub run_lem :
    {A S W : Type 0} (R : Law S) (k : Kernel W) (view : W → S)
    → ((r : Request) (w : W) → R (view w) r (k r w).0 (view (k r w).1))
    → (p : Prog A) (P : End A → S → Type 0) (w : W) → Wp R (view w) p P
    → P (run k p w).0 (view (run k p w).1)
unfolding run
run_lem R k view l (ret a) P w h = h
run_lem R k view l (stop e) P w h = h
run_lem R k view l (ask r f) P w h =
    run_lem R k view l (f (k r w).0) P (k r w).1 (h (k r w).0 (view (k r w).1) (l r w))
