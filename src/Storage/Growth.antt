-- ===== src/Storage/Growth.antt =====
-- Actions that change nothing that is there, however they end.
use pakstak.Base.{
  Text, Result, ok, err, Bool, true, false, Option, none, some, Option-cases, inl, inr, List, [],
  ◌∷◌, ℕ, take,
}
use pakstak.Manifest.{Json}
use pakstak.Fs.Paths.{FilePath, parent, resolve}
use pakstak.Fs.Files.{Files}
use pakstak.Fs.Effects.{Grows, Grows-refl, Grows-trans, create_below-Grows, open_create_at-Grows}
use pakstak.Fs.World.{IoKind, World, operate, operation, read, create_dir_all, open_create}
use pakstak.Storage.Action.{
  StorageError, Action, continue, ◌>>=◌, pure, do_io, some_or, check, query,
}
use pakstak.Storage.Layout.{Storage}
use pakstak.Storage.Reader.{
  ensure_parent_dir, open_lock_file, read_to_string, read_container_manifest_digest,
  read_manifest_bytes, read_manifest, ensure_container_installed, create_layer_lock_file,
}

pub record Adds {A : Type 0} (m : Action A) : Type 0 where
  pub at : (w : World) → Grows w.files (m w).1.files

module _ {A : Type 0} where
  pub Adds-pure : (a : A) → Adds (pure a)
  Adds-pure a = record { at = λ w. Grows-refl w.files }

  pub Adds-query : (f : World → A) → Adds (query f)
  Adds-query f = record { at = λ w. Grows-refl w.files }

  pub Adds-some_or : (o : Option A) (e : StorageError) → Adds (some_or o e)
  Adds-some_or none e = record { at = λ w. Grows-refl w.files }
  Adds-some_or (some a) e = record { at = λ w. Grows-refl w.files }

  operate-Grows :
      (act : Files → Result IoKind A × Files) (partial : ℕ → Files → Files)
      → ((fs : Files) → Grows fs (act fs).1)
      → ((n : ℕ) (fs : Files) → Grows fs (partial n fs))
      → (fs : Files) (l : List (Option ℕ)) → Grows fs (operate act partial fs l).1.files
  unfolding operate
  operate-Grows act partial h k fs [] = h fs
  operate-Grows act partial h k fs (none ∷ l) = h fs
  operate-Grows act partial h k fs (some n ∷ l) = k n fs

  pub Adds-operation :
      (act : Files → Result IoKind A × Files) (partial : ℕ → Files → Files)
      → ((fs : Files) → Grows fs (act fs).1)
      → ((n : ℕ) (fs : Files) → Grows fs (partial n fs))
      → Adds (do_io (operation act partial))
  Adds-operation act partial h k = record {
    at = λ w. operate-Grows act partial h k w.files w.faults;
  }

pub Adds-check : (b : Bool) (e : StorageError) → Adds (check b e)
Adds-check true e = record { at = λ w. Grows-refl w.files }
Adds-check false e = record { at = λ w. Grows-refl w.files }

module _ {A B : Type 0} where
  Adds-continue :
      (f : A → Action B)
      → ((a : A) → Adds (f a))
      → (r : Result StorageError A) (w : World) → Grows w.files (continue r f w).1.files
  Adds-continue f h (ok a) w = (h a).at w
  Adds-continue f h (err e) w = Grows-refl w.files

  pub Adds-bind :
      (m : Action A) (f : A → Action B) → Adds m → ((a : A) → Adds (f a)) → Adds (m >>= f)
  Adds-bind m f h k = record {
    at = λ w. Grows-trans _ _ _ (h.at w) (Adds-continue f k (m w).0 (m w).1);
  }

pub Adds-read : (p : FilePath) → Adds (do_io (read p))
unfolding read
Adds-read p = Adds-operation _ _ (λ fs. Grows-refl fs) (λ n fs. Grows-refl fs)

pub Adds-create_dir_all : (p : FilePath) → Adds (do_io (create_dir_all p))
unfolding create_dir_all
Adds-create_dir_all p =
    Adds-operation _ _ (λ fs. create_below-Grows [] (resolve p) fs)
      (λ n fs. create_below-Grows [] (take n (resolve p)) fs)

pub Adds-open_create : (p : FilePath) → Adds (do_io (open_create p))
unfolding open_create
Adds-open_create p =
    Adds-operation _ _ (λ fs. open_create_at-Grows (resolve p) fs) (λ n fs. Grows-refl fs)

pub ruleset adds_rules = (
  Adds-pure, Adds-query, Adds-some_or, Adds-check, Adds-bind, Adds-read, Adds-create_dir_all,
  Adds-open_create,
)

pub Adds-ensure_parent_dir : (p : FilePath) → Adds (ensure_parent_dir p)
unfolding ensure_parent_dir
Adds-ensure_parent_dir p = elim (Option-cases (parent p)) [
  | inl e ↦ rw (e, ensure_parent_dir) (Adds-pure tt)
  | inr (d, e) ↦ rw (e, ensure_parent_dir) (Adds-create_dir_all d)
]

pub Adds-read_to_string : (p : FilePath) → Adds (read_to_string p)
unfolding read_to_string
Adds-read_to_string p = search adds_rules

pub Adds-open_lock_file : (p : FilePath) → Adds (open_lock_file p)
unfolding open_lock_file
Adds-open_lock_file p = search (adds_rules, Adds-ensure_parent_dir)

module _ (s : Storage) where
  pub Adds-create_layer_lock_file : (digest : Text) → Adds (create_layer_lock_file s digest)
  unfolding create_layer_lock_file
  Adds-create_layer_lock_file digest = search (adds_rules, Adds-open_lock_file)

  pub Adds-ensure_container_installed :
      (container : Text) → Adds (ensure_container_installed s container)
  unfolding ensure_container_installed
  Adds-ensure_container_installed container = search adds_rules

  pub Adds-read_container_manifest_digest :
      (container : Text) → Adds (read_container_manifest_digest s container)
  unfolding read_container_manifest_digest
  Adds-read_container_manifest_digest container = search (adds_rules, Adds-read_to_string)

  pub Adds-read_manifest : (json : Json) (digest : Text) → Adds (read_manifest json s digest)
  unfolding read_manifest read_manifest_bytes
  Adds-read_manifest json digest = search adds_rules
