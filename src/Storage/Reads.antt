-- ===== src/Storage/Reads.antt =====
-- Methods that change nothing; where they succeed, they read what is there.
use pakstak.Base.{
  ℕ, Text, Result, ok, err, map_err, Bool, true, false, Option, none, some, List, [], ◌∷◌, is_empty,
  not, ◌≡◌, refl, sym, ◌∙◌,
}
use pakstak.Base.Utf8.{is_utf8, trim}
use pakstak.Manifest.{Json}
use pakstak.Fs.Paths.{FilePath, push, resolve}
use pakstak.Fs.Files.{Files, is_dir_at}
use pakstak.Fs.World.{still, IoKind, World, operate, read, read_at, read_dir, names_at, fault}
use pakstak.Storage.Action.{
  container_not_installed, StorageError, io, Action, continue, ◌>>=◌, pure, do_io, some_or, check,
  query, collect, chain_value,
}
use pakstak.Storage.Layout.{Storage, containers_path, container_path}
use pakstak.Storage.Reader.{
  or_empty, select, into_string, map_names, read_dir_entries, read_to_string, read_containers,
  read_container_manifest_digest, read_manifest_bytes, read_manifest, ensure_container_installed,
  read_container_reference,
}

-- The action changes nothing; if it succeeds, it does so with the value that it has in a still world.
pub record Reads {A : Type 0} (m : Action A) : Type 0 where
  pub same : (w : World) → (m w).1.files ≡ w.files
  pub calm : (fs : Files) → (m (still fs)).1 ≡ still fs
  pub agrees : (w : World) (a : A) → (m w).0 ≡ ok a → (m (still w.files)).0 ≡ ok a

module _ {A : Type 0} where
  pub Reads-pure : (a : A) → Reads (pure a)
  Reads-pure a = record { same = λ w. refl; calm = λ fs. refl; agrees = λ w b h. h }

  pub Reads-from_result : (r : Result StorageError A) → Reads (λ w. (r, w))
  Reads-from_result r = record { same = λ w. refl; calm = λ fs. refl; agrees = λ w b h. h }

  pub Reads-query : (f : Files → A) → Reads (query (λ w. f w.files))
  Reads-query f = record { same = λ w. refl; calm = λ fs. refl; agrees = λ w b h. h }

  pub Reads-some_or : (o : Option A) (e : StorageError) → Reads (some_or o e)
  Reads-some_or none e = record { same = λ w. refl; calm = λ fs. refl; agrees = λ w b h. h }
  Reads-some_or (some a) e = record { same = λ w. refl; calm = λ fs. refl; agrees = λ w b h. h }

  module _ (f : Files → Result IoKind A) (g : Result IoKind A → Result StorageError A)
      (failing : (a : A) → g (err fault) ≡ ok a → ⊥) where
    abbrev look : Action A
    look w = let (r, w') = operate (λ fs. (f fs, fs)) (λ n fs. fs) w.files w.faults in (g r, w')

    look_same :
        (fs : Files) (l : List (Option ℕ)) → (look (record { files = fs; faults = l })).1.files ≡ fs
    unfolding operate
    look_same fs [] = refl
    look_same fs (none ∷ l) = refl
    look_same fs (some n ∷ l) = refl

    look_calm : (fs : Files) → (look (still fs)).1 ≡ still fs
    unfolding operate
    look_calm fs = refl

    look_agrees :
        (fs : Files) (l : List (Option ℕ)) (a : A)
        → (look (record { files = fs; faults = l })).0 ≡ ok a
        → (look (still fs)).0 ≡ ok a
    unfolding operate
    look_agrees fs [] a h = h
    look_agrees fs (none ∷ l) a h = h
    look_agrees fs (some n ∷ l) a h = absurd (failing a h)

    Reads-look : Reads look
    Reads-look = record {
      same = λ w. look_same w.files w.faults;
      calm = look_calm;
      agrees = λ w a h. look_agrees w.files w.faults a h;
    }

pub Reads-check : (b : Bool) (e : StorageError) → Reads (check b e)
Reads-check true e = Reads-pure tt
Reads-check false e = record { same = λ w. refl; calm = λ fs. refl; agrees = λ w b h. h }

module _ {A B : Type 0} where
  continue_same :
      (f : A → Action B)
      → ((a : A) → Reads (f a))
      → (r : Result StorageError A) (w : World) → (continue r f w).1.files ≡ w.files
  continue_same f k (ok a) w = (k a).same w
  continue_same f k (err e) w = refl

  continue_calm :
      (f : A → Action B)
      → ((a : A) → Reads (f a))
      → (r : Result StorageError A) (fs : Files) → (continue r f (still fs)).1 ≡ still fs
  continue_calm f k (ok a) fs = (k a).calm fs
  continue_calm f k (err e) fs = refl

  pub Reads-bind :
      (m : Action A) (f : A → Action B) → Reads m → ((a : A) → Reads (f a)) → Reads (m >>= f)
  Reads-bind m f h k = record {
    same = λ w. continue_same f k (m w).0 (m w).1 ∙ h.same w;
    calm = λ fs. rw (h.calm fs) (continue_calm f k (m (still fs)).0 fs);
    agrees = λ w b e.
        let (a, p, q) = chain_value m f w b e in
        let there = (k a).agrees (m w).1 b q in
        rw (h.agrees w a p, h.calm w.files) (rw (sym (h.same w)) there);
  }

pub Reads-collect :
    {A B : Type 0} (f : A → Action B) → ((a : A) → Reads (f a)) → (l : List A) → Reads (collect f l)
unfolding collect
Reads-collect f k [] = Reads-pure []
Reads-collect f k (a ∷ l) =
    Reads-bind (f a) (λ b. collect f l >>= λ bs. pure (b ∷ bs)) (k a)
      λ b. Reads-bind (collect f l) _ (Reads-collect f k l) λ bs. Reads-pure (b ∷ bs)

do_io_failing : {A : Type 0} (a : A) → ◌≡◌ {A = Result StorageError A} (err (io fault)) (ok a) → ⊥
do_io_failing a h = cc

pub Reads-read : (p : FilePath) → Reads (do_io (read p))
unfolding read
Reads-read p = Reads-look (read_at (resolve p)) (map_err io) do_io_failing

pub Reads-read_dir_entries : (p : FilePath) → Reads (read_dir_entries p)
unfolding read_dir_entries read_dir or_empty
Reads-read_dir_entries p = Reads-look (names_at (resolve p)) or_empty do_io_failing

module _ (s : Storage) where
  pub Reads-read_containers : Reads (read_containers s)
  unfolding read_containers
  Reads-read_containers = Reads-bind _ _ (Reads-read_dir_entries _) λ names.
      Reads-bind _ _
        (Reads-query
          (λ fs. select (λ name. is_dir_at (resolve (push (containers_path s) name)) fs) names))
        λ dirs. Reads-pure (map_names into_string dirs)

  pub Reads-read_container_manifest_digest :
      (container : Text) → Reads (read_container_manifest_digest s container)
  unfolding read_container_manifest_digest read_to_string
  Reads-read_container_manifest_digest container =
      Reads-bind _ _
        (Reads-bind _ _ (Reads-read _)
          λ bytes. Reads-bind _ _ (Reads-check (is_utf8 bytes) _) λ _. Reads-pure bytes)
        λ text.
          Reads-bind _ _ (Reads-check (not (is_empty (trim text))) _) λ _. Reads-pure (trim text)

  pub Reads-ensure_container_installed :
      (container : Text) → Reads (ensure_container_installed s container)
  unfolding ensure_container_installed
  Reads-ensure_container_installed container =
      Reads-bind _ _ (Reads-query (λ fs. is_dir_at (resolve (container_path s container)) fs))
        (λ installed. Reads-check installed (container_not_installed container))

module _ (json : Json) (s : Storage) where
  pub Reads-read_manifest : (digest : Text) → Reads (read_manifest json s digest)
  unfolding read_manifest read_manifest_bytes
  Reads-read_manifest digest =
      Reads-bind _ _ (Reads-read _) λ bytes. Reads-some_or (json.parse_manifest bytes) _

  pub Reads-read_container_reference :
      (container : Text) → Reads (read_container_reference json s container)
  unfolding read_container_reference
  Reads-read_container_reference container =
      Reads-bind _ _ (Reads-read _) λ bytes. Reads-some_or (json.parse_reference bytes) _
