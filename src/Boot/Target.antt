-- ===== src/Boot/Target.antt =====
-- src/boot/mod.rs: what the scan collects, and the application that the fallback starts.
use rignite.Common.{
  In, In-append_left, ◌≡◌, ◌≢◌, refl, Option, none, some, List, [], ◌∷◌, ◌++◌, true, false,
  Bool-cases, inl, inr, ◌⊎◌,
}
use rignite.Common.{ok, err}
use rignite.Boot.Run.{Run, lift, guard, ◌>>=◌}
use rignite.Btrfs.Layout.{not_found}
use rignite.Common.Text.{Text}
use rignite.Boot.Scan.{
  Listing, end, file, locked, dir, Found, is_dots, join, is_efi, is_quibble, add_file,
  scan_dir_recursive, is_boot_manager, find_boot_manager, or_else, first, choose_target,
  start_target, is_empty, try_boot_fat_fallback,
}

In-last : (t : Text) (xs : List Text) → In t (xs ++ (t ∷ []))
In-last t [] = inl refl
In-last t (x ∷ xs) = inr (In-last t xs)

In-split : (t : Text) (xs ys : List Text) → In t (xs ++ ys) → In t xs ⊎ In t ys
In-split t [] ys m = inr m
In-split t (x ∷ xs) ys (inl e) = inl (inl e)
In-split t (x ∷ xs) ys (inr m) = elim (In-split t xs ys m) [ inl k ↦ inl (inr k) | inr k ↦ inr k ]

empty_cases :
    (apps : List Text)
    → ((apps ≡ []) × (is_empty apps ≡ true)) ⊎ ((apps ≢ []) × (is_empty apps ≡ false))
empty_cases [] = inl (refl, refl)
empty_cases (a ∷ as') = inr ((λ e. cc), refl)

module _ (to_lowercase : Text → Text) where
  -- A path of the volume, from the directory `path_prefix` on: that of a file, in a directory or in
  -- one of its subdirectories that can be opened, whose name ends in ".efi" in lower case. An entry
  -- called "." or ".." is none.
  abbrev pub IsApp : Listing → Text → Text → Type 0
  IsApp end path_prefix path = ⊥
  IsApp (file name rest) path_prefix path =
      ((is_dots name ≡ false) × (is_efi to_lowercase name ≡ true) × (path ≡ join path_prefix name))
      ⊎ IsApp rest path_prefix path
  IsApp (locked name rest) path_prefix path = IsApp rest path_prefix path
  IsApp (dir name sub rest) path_prefix path =
      ((is_dots name ≡ false) × IsApp sub (join path_prefix name) path)
      ⊎ IsApp rest path_prefix path

  abbrev Among : Option Text → List Text → Type 0
  Among none apps = Unit
  Among (some q) apps = In q apps

  Among-left : (o : Option Text) (xs ys : List Text) → Among o xs → Among o (xs ++ ys)
  Among-left none xs ys a = tt
  Among-left (some q) xs ys a = In-append_left q xs ys a

  add_file-Among :
      (path_prefix name : Text) (found : Found)
      → Among found.quibble found.apps
      → let after = add_file to_lowercase path_prefix name found in Among after.quibble after.apps
  unfolding add_file
  add_file-Among p name found q = elim (Bool-cases (is_efi to_lowercase name)) [
    | inr e ↦ rw e q
    | inl e ↦ elim (Bool-cases (is_quibble to_lowercase name)) [
      | inl f ↦ rw (e, f) (In-last (join p name) found.apps)
      | inr f ↦ rw (e, f) (Among-left found.quibble found.apps (join p name ∷ []) q)
    ]
  ]

  scan-Among :
      (entries : Listing) (p : Text) (found : Found)
      → Among found.quibble found.apps
      → let after = scan_dir_recursive to_lowercase entries p found in
        Among after.quibble after.apps
  unfolding scan_dir_recursive
  scan-Among end p found s = s
  scan-Among (file name rest) p found s = scan-Among rest p _ (elim (Bool-cases (is_dots name)) [
    | inl e ↦ rw e s
    | inr e ↦ rw e (add_file-Among p name found s)
  ])
  scan-Among (locked name rest) p found s = scan-Among rest p found s
  scan-Among (dir name sub rest) p found s = scan-Among rest p _ (elim (Bool-cases (is_dots name)) [
    | inl e ↦ rw e s
    | inr e ↦ rw e (scan-Among sub (join p name) found s)
  ])

  -- What the scan adds to the paths found before: every application, and nothing else.
  add_file_sound :
      (p name : Text) (found : Found) (t : Text)
      → In t (add_file to_lowercase p name found).apps
      → In t found.apps ⊎ ((is_efi to_lowercase name ≡ true) × (t ≡ join p name))
  unfolding add_file
  add_file_sound p name found t i = elim (Bool-cases (is_efi to_lowercase name)) [
    | inr e ↦ inl (rw e at i)
    | inl e ↦ elim (In-split t found.apps (join p name ∷ []) (rw e at i)) [
      | inl k ↦ inl k
      | inr (inl q) ↦ inr (e, q)
      | inr (inr k) ↦ absurd k
    ]
  ]

  scan_sound :
      (entries : Listing) (p : Text) (found : Found) (t : Text)
      → In t (scan_dir_recursive to_lowercase entries p found).apps
      → In t found.apps ⊎ IsApp entries p t
  unfolding scan_dir_recursive
  scan_sound end p found t i = inl i
  scan_sound (file name rest) p found t i = elim (scan_sound rest p _ t i) [
    | inr a ↦ inr (inr a)
    | inl k ↦ elim (Bool-cases (is_dots name)) [
      | inl e ↦ inl (rw e at k)
      | inr e ↦ elim (add_file_sound p name found t (rw e at k)) [
        | inl m ↦ inl m
        | inr (f, q) ↦ inr (inl (e, f, q))
      ]
    ]
  ]
  scan_sound (locked name rest) p found t i = scan_sound rest p found t i
  scan_sound (dir name sub rest) p found t i = elim (scan_sound rest p _ t i) [
    | inr a ↦ inr (inr a)
    | inl k ↦ elim (Bool-cases (is_dots name)) [
      | inl e ↦ inl (rw e at k)
      | inr e ↦ elim (scan_sound sub (join p name) found t (rw e at k)) [
        | inl m ↦ inl m
        | inr a ↦ inr (inl (e, a))
      ]
    ]
  ]

  add_file-keeps :
      (p name : Text) (found : Found) (t : Text)
      → In t found.apps
      → In t (add_file to_lowercase p name found).apps
  unfolding add_file
  add_file-keeps p name found t i = elim (Bool-cases (is_efi to_lowercase name)) [
    | inr e ↦ rw e i
    | inl e ↦ rw e (In-append_left t found.apps (join p name ∷ []) i)
  ]

  scan-keeps :
      (entries : Listing) (p : Text) (found : Found) (t : Text)
      → In t found.apps
      → In t (scan_dir_recursive to_lowercase entries p found).apps
  unfolding scan_dir_recursive
  scan-keeps end p found t i = i
  scan-keeps (file name rest) p found t i =
      scan-keeps rest p _ t (elim (Bool-cases (is_dots name)) [
        | inl e ↦ rw e i
        | inr e ↦ rw e (add_file-keeps p name found t i)
      ])
  scan-keeps (locked name rest) p found t i = scan-keeps rest p found t i
  scan-keeps (dir name sub rest) p found t i =
      scan-keeps rest p _ t (elim (Bool-cases (is_dots name)) [
        | inl e ↦ rw e i
        | inr e ↦ rw e (scan-keeps sub (join p name) found t i)
      ])

  scan_complete :
      (entries : Listing) (p : Text) (found : Found) (t : Text)
      → IsApp entries p t
      → In t (scan_dir_recursive to_lowercase entries p found).apps
  unfolding scan_dir_recursive add_file
  scan_complete end p found t a = absurd a
  scan_complete (file name rest) p found t (inl (e, f, q)) =
      scan-keeps rest p _ t (rw (e, f, q) (In-last (join p name) found.apps))
  scan_complete (file name rest) p found t (inr a) = scan_complete rest p _ t a
  scan_complete (locked name rest) p found t a = scan_complete rest p found t a
  scan_complete (dir name sub rest) p found t (inl (e, a)) =
      scan-keeps rest p _ t (rw e (scan_complete sub (join p name) found t a))
  scan_complete (dir name sub rest) p found t (inr a) = scan_complete rest p _ t a

  weaken : (o : Option Text) (a : Text) (as' : List Text) → Among o as' → Among o (a ∷ as')
  weaken none a as' m = tt
  weaken (some q) a as' m = inr m

  find_boot_manager-In : (apps : List Text) → Among (find_boot_manager to_lowercase apps) apps
  unfolding find_boot_manager
  find_boot_manager-In [] = tt
  find_boot_manager-In (a ∷ as') = elim (Bool-cases (is_boot_manager to_lowercase a)) [
    | inl e ↦ rw e (inl refl)
    | inr e ↦ rw e (weaken (find_boot_manager to_lowercase as') a as' (find_boot_manager-In as'))
  ]

  pick :
      (q manager : Option Text) (apps : List Text)
      → Among q apps
      → Among manager apps
      → apps ≢ []
      → (target : Text) × (or_else to_lowercase q
            (or_else to_lowercase manager (first to_lowercase apps))
          ≡ some target)
        × In target apps
  pick (some q) manager apps a b n = (q, refl, a)
  pick none (some m) apps a b n = (m, refl, b)
  pick none none [] a b n = absurd (n refl)
  pick none none (x ∷ xs) a b n = (x, refl, inl refl)

  abbrev nothing_found : Found
  nothing_found = record { apps = []; quibble = none }

  not-nil : (t : Text) (xs : List Text) → In t xs → xs ≢ []
  not-nil t [] m e = m
  not-nil t (x ∷ xs) m e = cc

  choose_target_lem :
      (root : Listing)
      → let found = scan_dir_recursive to_lowercase root [] nothing_found in
        found.apps ≢ []
        → (target : Text) × (choose_target to_lowercase found ≡ some target) × IsApp root [] target
  unfolding choose_target
  choose_target_lem root n =
      let found = scan_dir_recursive to_lowercase root [] nothing_found in
      let (t, e, m) =
        pick found.quibble (find_boot_manager to_lowercase found.apps) found.apps
          (scan-Among root [] nothing_found tt) (find_boot_manager-In found.apps) n in
      (t, e, elim (scan_sound root [] nothing_found t m) [ inl k ↦ absurd k | inr a ↦ a ])

  -- On a volume that opens, either there is no application at all, in no directory that can be
  -- opened, and the fallback answers that; or it starts one application of the volume and answers as
  -- that start does. An application is a file that the volume has, whose name ends in ".efi" in lower
  -- case, and the path that is started is the file's own.
  pub fallback_lem :
      (boot_efi_app : Text → Run (Unit {0})) (root : Listing)
      → let answer = try_boot_fat_fallback to_lowercase boot_efi_app true (ok root) in
        (((path : Text) → ¬ IsApp root [] path) × (answer ≡ lift (err not_found)))
        ⊎ ((target : Text) × (answer ≡ boot_efi_app target) × IsApp root [] target)
  unfolding try_boot_fat_fallback start_target ◌>>=◌ lift guard
  fallback_lem boot root =
      let found = scan_dir_recursive to_lowercase root [] nothing_found in
      elim (empty_cases found.apps) [
        | inl (e, f) ↦
            inl ((λ t a. not-nil t found.apps (scan_complete root [] nothing_found t a) e), rw f)
        | inr (n, f) ↦ let (t, c, a) = choose_target_lem root n in inr (t, rw (f, c), a)
      ]
