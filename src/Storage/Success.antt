-- ===== src/Storage/Success.antt =====
-- When a file is published: with directories that can be made, and nothing cut short.
use mathlib.Core.List.{append_assoc}
use pakstak.Base.{
  Text, ◌≡◌, inl, inr, refl, ap, sym, ◌∙◌, subst, ok, none, some, Option-cases, true, false, [],
  ◌∷◌, ◌++◌, arith, is_empty,
}
use pakstak.Fs.Paths.{FilePath, push, resolve}
use pakstak.Fs.PathLaws.{drop_last-append}
use pakstak.Fs.Files.{Files, regular_file, strip, lookup, is_dir_at}
use pakstak.Fs.FileLaws.{ne_of_strip, strip-child, strip_sound, strip-append, strip-append-eq-none}
use pakstak.Fs.Directories.{
  OpenBelow, OpenBelow-Unharmed, is_dir_at-Unharmed, create_below_succeeds, is_dir_at-create_below,
  is_dir_at_moved,
}
use pakstak.Fs.Effects.{
  create_below-Unharmed, create_below_outside, write_at_outside, lookup-write_at,
}
use pakstak.Fs.World.{
  still, create_dir_all, create_below, write, write_at, rename, rename_at, may_replace,
}
use pakstak.Storage.Action.{Action, ◌>>=◌, ◌>>◌, do_io}
use pakstak.Storage.Layout.{Storage, temporary_path_for}
use pakstak.Storage.Triple.{operation_succeeds, bind_succeeds}
use pakstak.Storage.Places.{IsPlace, temporary_apart, directory_apart}
use pakstak.Storage.Reader.{ensure_parent_dir}
use pakstak.Storage.Writer.{atomic_write}

write_at_succeeds :
    (d : FilePath) (n bytes : Text) (fs : Files)
    → is_dir_at d fs ≡ true
    → is_dir_at (d ++ n ∷ []) fs ≡ false
    → (write_at (d ++ n ∷ []) bytes fs).0 ≡ ok tt
unfolding write_at
write_at_succeeds d n bytes fs h k = ground (arith, drop_last-append d n, h, k)

rename_at_succeeds :
    (a d : FilePath) (n bytes : Text) (fs : Files)
    → lookup a fs ≡ some (regular_file bytes)
    → strip a (d ++ n ∷ []) ≡ none
    → is_dir_at d fs ≡ true
    → is_dir_at (d ++ n ∷ []) fs ≡ false
    → (rename_at a (d ++ n ∷ []) fs).0 ≡ ok tt
unfolding rename_at may_replace is_dir_at
rename_at_succeeds a d n bytes fs h s k l = elim (Option-cases (lookup (d ++ n ∷ []) fs)) [
  | inl e ↦ ground (arith, e, drop_last-append d n, h, s, k)
  | inr (m, e) ↦ ground (arith, e, h, s, l)
]

-- The directory is on no path that ends where nothing may be.
directory_there :
    (p : FilePath) (fs : Files)
    → is_empty p ≡ false
    → OpenBelow [] p fs
    → is_dir_at p (create_below [] p fs).1 ≡ true
directory_there [] fs n h = cc
directory_there (c ∷ p) fs n h = is_dir_at-create_below [] c p fs h

-- The directory and the temporary one can be made, and neither the file nor its temporary copy is a
-- directory.
abbrev pub CanPublish : FilePath → FilePath → FilePath → FilePath → Files → Type 0
CanPublish dir temporary file copy fs =
    (is_empty dir ≡ false)
    × (is_empty temporary ≡ false)
    × OpenBelow [] dir fs
    × OpenBelow [] temporary fs
    × (is_dir_at file fs ≡ false)
    × (is_dir_at copy fs ≡ false)

module _ {s : Storage} {path dir : FilePath} {name : Text} (place : IsPlace s path dir name)
    (contents : Text) (fs : Files) where
  abbrev p : FilePath
  p = resolve path

  abbrev d : FilePath
  d = resolve dir

  abbrev temp : FilePath
  temp = resolve s.temporary_path

  abbrev t : FilePath
  t = resolve (push s.temporary_path name)

  abbrev fs₁ : Files
  fs₁ = (create_below [] d fs).1

  abbrev fs₂ : Files
  fs₂ = (create_below [] temp fs₁).1

  abbrev fs₃ : Files
  fs₃ = (write_at t contents fs₂).1

  temporary_not_above : strip temp d ≡ none
  temporary_not_above = elim (Option-cases (strip temp d)) [
    | inl e ↦ e
    | inr (r, e) ↦
        let at : p ≡ temp ++ (r ++ name ∷ []) =
          place.at_path
          ∙ ap (λ x. x ++ name ∷ []) (strip_sound temp d r e)
          ∙ append_assoc temp r (name ∷ []) in
        cc (place.apart, ap (strip temp) at, strip-append temp (r ++ name ∷ []))
  ]

  t_outside_d : strip t d ≡ none
  t_outside_d =
      rw (place.at_temporary) (strip-append-eq-none temp (name ∷ []) d temporary_not_above)

  t_outside_temp : strip t temp ≡ none
  t_outside_temp = rw (place.at_temporary) (strip-child temp name)

  p_after : is_dir_at p fs ≡ false → is_dir_at p fs₂ ≡ false
  p_after h =
      is_dir_at_moved p p fs₁ fs₂ (create_below_outside p [] temp fs₁ place.apart')
      ∙ is_dir_at_moved p p fs fs₁ (create_below_outside p [] d fs (directory_apart place))
      ∙ h

  t_after : is_dir_at t fs ≡ false → is_dir_at t fs₂ ≡ false
  t_after h =
      is_dir_at_moved t t fs₁ fs₂ (create_below_outside t [] temp fs₁ t_outside_temp)
      ∙ is_dir_at_moved t t fs fs₁ (create_below_outside t [] d fs t_outside_d)
      ∙ h

  open_after : OpenBelow [] temp fs → OpenBelow [] temp fs₁
  open_after = OpenBelow-Unharmed [] temp fs fs₁ (λ q. create_below-Unharmed q [] d fs)

  creates :
      (x : FilePath) (gs : Files)
      → OpenBelow [] (resolve x) gs
      → do_io (create_dir_all x) (still gs) ≡ (ok tt, still (create_below [] (resolve x) gs).1)
  unfolding create_dir_all
  creates x gs h = operation_succeeds _ _ gs tt (create_below_succeeds [] (resolve x) gs h)

  parent_made : OpenBelow [] d fs → ensure_parent_dir path (still fs) ≡ (ok tt, still fs₁)
  unfolding ensure_parent_dir
  parent_made h = rw (place.parent_is, ensure_parent_dir) (creates dir fs h)

  named :
      (gs : Files)
      → temporary_path_for s path (still gs) ≡ (ok (push s.temporary_path name), still gs)
  named gs = rw (place.name_is) refl

  write_done :
      is_dir_at temp fs₂ ≡ true → is_dir_at t fs₂ ≡ false → (write_at t contents fs₂).0 ≡ ok tt
  write_done h k =
      subst (λ x. is_dir_at x fs₂ ≡ false → (write_at x contents fs₂).0 ≡ ok tt)
        (sym place.at_temporary) (write_at_succeeds temp name contents fs₂ h) k

  written :
      (write_at t contents fs₂).0 ≡ ok tt
      → do_io (write (push s.temporary_path name) contents) (still fs₂) ≡ (ok tt, still fs₃)
  unfolding write
  written h = operation_succeeds _ _ fs₂ tt h

  rename_done :
      is_dir_at d fs₃ ≡ true
      → is_dir_at p fs₃ ≡ false
      → lookup t fs₃ ≡ some (regular_file contents)
      → (rename_at t p fs₃).0 ≡ ok tt
  rename_done h k l =
      subst (λ x. is_dir_at x fs₃ ≡ false → strip t x ≡ none → (rename_at t x fs₃).0 ≡ ok tt)
        (sym place.at_path) (λ k' s'. rename_at_succeeds t d name contents fs₃ l s' h k') k
        (temporary_apart place)

  renamed :
      (rename_at t p fs₃).0 ≡ ok tt
      → do_io (rename (push s.temporary_path name) path) (still fs₃)
        ≡ (ok tt, still (rename_at t p fs₃).1)
  unfolding rename
  renamed h = operation_succeeds _ _ fs₃ tt h

  abbrev publish : FilePath → Action (Unit {0})
  publish x = do do_io (write x contents); do_io (rename x path)

  abbrev name_and_publish : Action (Unit {0})
  name_and_publish = temporary_path_for s path >>= publish

  pub atomic_write_succeeds :
      CanPublish d temp p t fs
      → atomic_write s path contents (still fs) ≡ (ok tt, still (rename_at t p fs₃).1)
  unfolding atomic_write
  atomic_write_succeeds (some_d, some_temp, open_d, open_temp, no_p, no_t) =
      let temp_there = directory_there temp fs₁ some_temp (open_after open_temp) in
      let d_there =
        is_dir_at-Unharmed d fs₁ fs₂ (create_below-Unharmed d [] temp fs₁)
          (directory_there d fs some_d open_d) in
      let outside = λ (q : FilePath) (h : strip t q ≡ none).
        is_dir_at_moved q q fs₂ fs₃ (write_at_outside q t contents fs₂ (ne_of_strip t q h)) in
      let done = write_done temp_there (t_after no_t) in
      let moved =
        rename_done (outside d t_outside_d ∙ d_there)
          (outside p (temporary_apart place) ∙ p_after no_p)
          (lookup-write_at t contents fs₂ done) in
      bind_succeeds (ensure_parent_dir path)
        (λ _. do_io (create_dir_all s.temporary_path) >> name_and_publish) (still fs) (still fs₁) tt
        (parent_made open_d)
        (bind_succeeds (do_io (create_dir_all s.temporary_path)) (λ _. name_and_publish) (still fs₁)
          (still fs₂) tt (creates s.temporary_path fs₁ (open_after open_temp))
          (bind_succeeds (temporary_path_for s path) publish (still fs₂) (still fs₂)
            (push s.temporary_path name) (named fs₂)
            (bind_succeeds (do_io (write (push s.temporary_path name) contents))
              (λ _. do_io (rename (push s.temporary_path name) path)) (still fs₂) (still fs₃) tt
              (written done) (renamed moved))))
