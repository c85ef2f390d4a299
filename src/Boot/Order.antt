-- ===== src/Boot/Order.antt =====
-- src/boot/mod.rs: events that may follow each other, and runs of such events.
use rignite.Common.{
  ℕ, Option, ◌≡◌, refl, List, [], ◌∷◌, ◌++◌, In, ok, err, fault, true, false, Bool,
}
use rignite.Btrfs.Layout.{M, Status}
use rignite.Boot.Kernel.{validate_kernel_pe}
use rignite.Boot.Run.{
  Event, set_initrd_data, install_device_path, install_load_file2, load_image, set_load_options,
  start_image, set_os_indications, reset, Run, guard, chain, lift, call, ◌>>=◌,
}
use rignite.Boot.Image.{Firmware}

module _ (fw : Firmware) where
  -- The handle of an image that was checked and then loaded.
  abbrev pub IsLoaded : List Event → ℕ → Type 0
  IsLoaded seen h =
      (d : List ℕ) × (p : Option (List ℕ)) × In (load_image d p) seen
      × (fw.load_image d p ≡ ok h)
      × (validate_kernel_pe fw.arch d ≡ ok tt)

  -- An event that may follow the events of `seen`.
  abbrev pub Allowed : List Event → Event → Type 0
  Allowed seen (set_initrd_data d) = Unit
  Allowed seen (install_device_path d) = Unit
  Allowed seen (install_load_file2 h) = Unit
  Allowed seen (load_image d p) = validate_kernel_pe fw.arch d ≡ ok tt
  Allowed seen (set_load_options h o n) = IsLoaded seen h
  Allowed seen (start_image h) = IsLoaded seen h
  Allowed seen (set_os_indications v) = Unit
  Allowed seen (reset r) = Unit

  abbrev pub Each : List Event → List Event → Type 0
  Each seen [] = Unit
  Each seen (e ∷ es) = Allowed seen e × Each (e ∷ seen) es

  -- A run after the events of `seen`.
  unfoldable pub IsOrdered : {A : Type 0} → List Event → Run A → Type 0
  IsOrdered seen r = Each seen r.events

  abbrev passed : List Event → List Event → List Event
  passed seen [] = seen
  passed seen (e ∷ es) = passed (e ∷ seen) es

  pub Each-append :
      (seen es es' : List Event) → Each seen es → Each (passed seen es) es' → Each seen (es ++ es')
  Each-append seen [] es' a b = b
  Each-append seen (e ∷ es) es' (a, as') b = (a, Each-append (e ∷ seen) es es' as' b)

  -- A run goes on with the events that follow those before.
  pub IsOrdered-chain :
      {A B : Type 0} (seen es : List Event) (m : M A) (f : A → Run B)
      → Each seen es
      → ((a : A) → m ≡ ok a → IsOrdered (passed seen es) (f a))
      → IsOrdered seen (chain es m f)
  unfolding IsOrdered
  IsOrdered-chain seen es (ok a) f e n = Each-append seen es (f a).events e (n a refl)
  IsOrdered-chain seen es (err x) f e n = e
  IsOrdered-chain seen es (fault x) f e n = e

  pub IsOrdered-lift :
      {A B : Type 0} (seen : List Event) (m : M A) (f : A → Run B)
      → ((a : A) → m ≡ ok a → IsOrdered seen (f a))
      → IsOrdered seen (lift m >>= f)
  unfolding lift ◌>>=◌
  IsOrdered-lift seen m f n = IsOrdered-chain seen [] m f tt n

  pub IsOrdered-call :
      {A B : Type 0} (seen : List Event) (e : Event) (m : M A) (f : A → Run B)
      → Allowed seen e
      → ((a : A) → m ≡ ok a → IsOrdered (e ∷ seen) (f a))
      → IsOrdered seen (call e m >>= f)
  unfolding call ◌>>=◌
  IsOrdered-call seen e m f a n = IsOrdered-chain seen (e ∷ []) m f (a, tt) n

  pub IsOrdered-last :
      (seen : List Event) (e : Event) (m : M (Unit {0}))
      → Allowed seen e
      → IsOrdered seen (call e m)
  unfolding IsOrdered call
  IsOrdered-last seen e m a = (a, tt)

  pub IsOrdered-guard :
      (seen : List Event) (b : Bool) (e : Status) (f : Unit {0} → Run (Unit {0}))
      → IsOrdered seen (f tt)
      → IsOrdered seen (guard b e >>= f)
  unfolding IsOrdered guard ◌>>=◌ lift
  IsOrdered-guard seen true e f n = n
  IsOrdered-guard seen false e f n = tt

  pub IsOrdered-unit :
      {B : Type 0} (seen : List Event) (r : Run (Unit {0})) (f : Unit {0} → Run B)
      → IsOrdered seen r
      → ((seen' : List Event) → IsOrdered seen' (f tt))
      → IsOrdered seen (r >>= f)
  unfolding IsOrdered ◌>>=◌
  IsOrdered-unit seen r f o n = IsOrdered-chain seen r.events r.result f o (λ u e. n _)

  pub IsOrdered-bind :
      {A B : Type 0} (seen : List Event) (r : Run A) (f : A → Run B)
      → IsOrdered seen r
      → ((seen' : List Event) (a : A) → IsOrdered seen' (f a))
      → IsOrdered seen (r >>= f)
  unfolding IsOrdered ◌>>=◌
  IsOrdered-bind seen r f o n = IsOrdered-chain seen r.events r.result f o (λ a e. n _ a)

  pub IsOrdered-result : {A : Type 0} (seen : List Event) (m : M A) → IsOrdered seen (lift m)
  unfolding IsOrdered lift
  IsOrdered-result seen m = tt
