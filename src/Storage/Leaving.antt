-- ===== src/Storage/Leaving.antt =====
-- Actions that leave a part of the files as it is, however they end. The part is a predicate on paths.
use pakstak.Base.{Text, [], ℕ, Bool, none, take, ◌≡◌, refl, ◌∙◌}
use pakstak.Fs.Paths.{FilePath, resolve}
use pakstak.Fs.Files.{Files, strip, lookup}
use pakstak.Fs.FileLaws.{ne_of_strip, lookup-remove_tree_outside, strip-take}
use pakstak.Fs.Effects.{
  rename_at_outside, remove_file_at_outside, set_mode_at_outside, remove_dir_all_at_outside,
  create_below_outside, write_at_outside,
}
use pakstak.Fs.Attributes.{set_xattr, create_new, set_xattr_at_outside, create_new_at_outside}
use pakstak.Fs.World.{
  write, World, rename, remove_file, set_permissions, remove_dir_all, create_dir_all,
}
use pakstak.Storage.Action.{Action, ◌>>=◌, pure, do_io, when, query}
use pakstak.Storage.Frames.{
  Any, Framing, IsPreorder, Framing-pure, Framing-when, Framing-value, Framing-operation,
  Framing-bind,
}

module _ (Q : FilePath → Type 0) where
  pub record SameOn (fs fs' : Files) : Type 0 where
    pub at : (q : FilePath) → Q q → lookup q fs' ≡ lookup q fs

  abbrev pub Leaving : {A : Type 0} → (A → Type 0) → Action A → Type 0
  Leaving R m = Framing SameOn R m

  -- No path of `Q` is at or below the path.
  abbrev pub IsClear : FilePath → Type 0
  IsClear t = (q : FilePath) → Q q → strip t q ≡ none

  -- Nor is any on the way to it.
  abbrev pub IsOff : FilePath → Type 0
  IsOff t = (q : FilePath) → Q q → strip q t ≡ none

module _ {Q : FilePath → Type 0} where
  pub SameOn-IsPreorder : IsPreorder (SameOn Q)
  SameOn-IsPreorder = record {
    reflexive = λ fs. record { at = λ q _. refl };
    transitive = λ fs gs hs h k. record { at = λ q x. k.at q x ∙ h.at q x };
  }

  Same : (fs : Files) → SameOn Q fs fs
  Same fs = record { at = λ q _. refl }

  pub Leaving-pure : {A : Type 0} {R : A → Type 0} (a : A) → R a → Leaving Q R (pure a)
  Leaving-pure a h = Framing-pure SameOn-IsPreorder a h

  pub Leaving-query : {A : Type 0} (f : World → A) → Leaving Q Any (query f)
  Leaving-query f = Framing-value SameOn-IsPreorder f (λ w. tt)

  pub Leaving-bind :
      {A B : Type 0} {R : A → Type 0} {S : B → Type 0} (m : Action A) (f : A → Action B)
      → Leaving Q R m
      → ((a : A) → R a → Leaving Q S (f a))
      → Leaving Q S (m >>= f)
  Leaving-bind m f h k = Framing-bind SameOn-IsPreorder m f h k

  pub Leaving-when : (b : Bool) (m : Action (Unit {0})) → Leaving Q Any m → Leaving Q Any (when b m)
  Leaving-when b m h = Framing-when SameOn-IsPreorder b m h

  pub Leaving-rename :
      (a b : FilePath)
      → IsClear Q (resolve a)
      → IsClear Q (resolve b)
      → Leaving Q Any (do_io (rename a b))
  unfolding rename
  Leaving-rename a b ca cb =
      Framing-operation SameOn-IsPreorder _ _
        (λ fs. record {
          at = λ q x. rename_at_outside q (resolve a) (resolve b) fs (ca q x) (cb q x);
        })
        (λ n fs. Same fs)

  pub Leaving-remove_file :
      (p : FilePath) → IsClear Q (resolve p) → Leaving Q Any (do_io (remove_file p))
  unfolding remove_file
  Leaving-remove_file p c =
      Framing-operation SameOn-IsPreorder _ _
        (λ fs. record {
          at = λ q x. remove_file_at_outside q (resolve p) fs (ne_of_strip (resolve p) q (c q x));
        })
        (λ n fs. Same fs)

  pub Leaving-set_permissions :
      (p : FilePath) (mode : ℕ)
      → IsClear Q (resolve p)
      → Leaving Q Any (do_io (set_permissions p mode))
  unfolding set_permissions
  Leaving-set_permissions p mode c =
      Framing-operation SameOn-IsPreorder _ _
        (λ fs. record { at = λ q x. set_mode_at_outside (resolve p) q mode fs (c q x) })
        (λ n fs. Same fs)

  pub Leaving-remove_dir_all :
      (p : FilePath) → IsClear Q (resolve p) → Leaving Q Any (do_io (remove_dir_all p))
  unfolding remove_dir_all
  Leaving-remove_dir_all p c =
      Framing-operation SameOn-IsPreorder _ _
        (λ fs. record { at = λ q x. remove_dir_all_at_outside (resolve p) q fs (c q x) })
        (λ n fs. record { at = λ q x. lookup-remove_tree_outside (resolve p) q n fs (c q x) })

  pub Leaving-create_dir_all :
      (p : FilePath) → IsOff Q (resolve p) → Leaving Q Any (do_io (create_dir_all p))
  unfolding create_dir_all
  Leaving-create_dir_all p o =
      Framing-operation SameOn-IsPreorder _ _
        (λ fs. record { at = λ q x. create_below_outside q [] (resolve p) fs (o q x) })
        (λ n fs. record {
          at = λ q x.
              create_below_outside q [] (take n (resolve p)) fs
                (strip-take q (resolve p) n (o q x));
        })

  pub Leaving-write :
      (p : FilePath) (bytes : Text) → IsClear Q (resolve p) → Leaving Q Any (do_io (write p bytes))
  unfolding write
  Leaving-write p bytes c =
      Framing-operation SameOn-IsPreorder _ _
        (λ fs. record {
          at = λ q x. write_at_outside q (resolve p) bytes fs (ne_of_strip (resolve p) q (c q x));
        })
        (λ n fs. record {
          at = λ q x.
              write_at_outside q (resolve p) (take n bytes) fs (ne_of_strip (resolve p) q (c q x));
        })

  pub Leaving-set_xattr :
      (p : FilePath) (name value : Text)
      → IsClear Q (resolve p)
      → Leaving Q Any (do_io (set_xattr p name value))
  unfolding set_xattr
  Leaving-set_xattr p name value c =
      Framing-operation SameOn-IsPreorder _ _
        (λ fs. record {
          at = λ q x.
              set_xattr_at_outside (resolve p) q name value fs (ne_of_strip (resolve p) q (c q x));
        })
        (λ n fs. Same fs)

  pub Leaving-create_new :
      (p : FilePath) → IsClear Q (resolve p) → Leaving Q Any (do_io (create_new p))
  unfolding create_new
  Leaving-create_new p c =
      Framing-operation SameOn-IsPreorder _ _
        (λ fs. record {
          at = λ q x. create_new_at_outside (resolve p) q fs (ne_of_strip (resolve p) q (c q x));
        })
        (λ n fs. Same fs)
