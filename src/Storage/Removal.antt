-- ===== src/Storage/Removal.antt =====
-- What the removal of files and trees leaves alone: all but the path and its place in the temporary
-- directory.
use mathlib.Core.List.{append_assoc, append-nil}
use pakstak.Base.{
  ℕ, zero, suc, Text, ok, not, Option, none, some, inl, inr, List, [], ◌∷◌, ◌++◌, All, length, ◌≡◌,
  refl, ap, sym, ◌∙◌, nat_eq, arith, Bool-cases,
}
use pakstak.Fs.Paths.{FilePath, push, resolve, file_name, IsPlain}
use pakstak.Fs.PathLaws.{push_plain, resolve-child}
use pakstak.Fs.Files.{
  Files, Node, Kind, names, names-IsPlain, node_is_dir, regular, directory, symlink,
}
use pakstak.Fs.FileLaws.{strip-append-eq-none}
use pakstak.Fs.World.{World, fault, operate, exists, read_dir, set_permissions, names_at}
use pakstak.Storage.Action.{io, do_io}
use pakstak.Storage.Layout.{Storage, temporary_path_for}
use pakstak.Storage.Writer.{remove_published_file}
use pakstak.Storage.Trees.{
  set_writable, make_path_writable, push_all, pending_below, make_writable, make_tree_writable,
  remove_dir_all_writable, remove_directory, writable_mode,
}
use pakstak.Storage.Frames.{
  Any, Framing, IsPreorder, Framing-operation, Framing-pure, Framing-fail, Framing-when,
  Framing-symlink_metadata,
}
use pakstak.Storage.Leaving.{
  SameOn-IsPreorder, Leaving, IsClear, Leaving-pure, Leaving-query, Leaving-bind, Leaving-when,
  Leaving-rename, Leaving-remove_file, Leaving-set_permissions, Leaving-remove_dir_all,
}

abbrev IsBelow : FilePath → FilePath → Type 0
IsBelow t path = (r : FilePath) × (resolve path ≡ t ++ r)

IsBelow-push :
    (t path : FilePath) (name : Text) → IsPlain name → IsBelow t path → IsBelow t (push path name)
IsBelow-push t path name h (r, e) = (
  r ++ name ∷ [],
  ap resolve (push_plain path name h)
      ∙ resolve-child path name h
      ∙ ap (λ x. x ++ name ∷ []) e
      ∙ append_assoc t r (name ∷ []),
)

IsBelow-push_all :
    (t path : FilePath) (names : List Text) (pending : List FilePath)
    → IsBelow t path
    → All IsPlain names
    → All (IsBelow t) pending
    → All (IsBelow t) (push_all path names pending)
unfolding push_all
IsBelow-push_all t path [] pending h p k = k
IsBelow-push_all t path (n ∷ names) pending h (p, ps) k =
    IsBelow-push_all t path names (push path n ∷ pending) h ps (IsBelow-push t path n p h, k)

names_at-IsPlain :
    (p : FilePath) (fs : Files) (l : List Text) → names_at p fs ≡ ok l → All IsPlain l
unfolding names_at
names_at-IsPlain p fs l h = ground (arith, names-IsPlain p fs)

pub operate-IsPlain :
    (p : FilePath) (fs : Files) (fl : List (Option ℕ)) (l : List Text)
    → (do_io
        (λ (w : World). operate (λ gs. (names_at p gs, gs)) (λ n gs. gs) fs fl)
        (record { files = fs; faults = fl })).0
      ≡ ok l
    → All IsPlain l
unfolding operate
operate-IsPlain p fs [] l h = ground (arith, names_at-IsPlain p fs l)
operate-IsPlain p fs (none ∷ fl) l h = ground (arith, names_at-IsPlain p fs l)
operate-IsPlain p fs (some n ∷ fl) l h = cc

module _ {Rel : Files → Files → Type 0} (order : IsPreorder Rel) where
  pub Framing-read_dir : (p : FilePath) → Framing Rel (All IsPlain) (do_io (read_dir p))
  unfolding read_dir
  Framing-read_dir p = record {
    framed =
        (Framing-operation order (λ fs. (names_at (resolve p) fs, fs)) (λ n fs. fs) order.reflexive
          (λ n. order.reflexive)).framed;
    result = λ w l h. operate-IsPlain (resolve p) w.files w.faults l h;
  }

  pub Framing-make_path_writable :
      (p : FilePath) (n : Node)
      → ((mode : ℕ) → Framing Rel Any (do_io (set_permissions p mode)))
      → Framing Rel Any (make_path_writable p n)
  unfolding make_path_writable set_writable
  Framing-make_path_writable p n h = by_kind n.kind refl
    where
      writing : Framing Rel Any (set_writable p n)
      writing = Framing-when order (not (nat_eq (writable_mode n) n.mode)) _ (h (writable_mode n))

      by_kind : (k : Kind) → n.kind ≡ k → Framing Rel Any (make_path_writable p n)
      by_kind (symlink target) e = rw (e, make_path_writable) (Framing-pure order tt tt)
      by_kind (regular bytes) e = rw (e, make_path_writable) writing
      by_kind directory e = rw (e, make_path_writable) writing

module _ {Q : FilePath → Type 0} where
  IsClear-below : (t path : FilePath) → IsClear Q t → IsBelow t path → IsClear Q (resolve path)
  IsClear-below t path c (r, e) q x = rw e (strip-append-eq-none t r q (c q x))

  pub Leaving-read_dir : (p : FilePath) → Leaving Q (All IsPlain) (do_io (read_dir p))
  Leaving-read_dir p = Framing-read_dir SameOn-IsPreorder p

  Leaving-make_path_writable :
      (p : FilePath) (n : Node) → IsClear Q (resolve p) → Leaving Q Any (make_path_writable p n)
  Leaving-make_path_writable p n c =
      Framing-make_path_writable SameOn-IsPreorder p n (λ mode. Leaving-set_permissions p mode c)

  module _ (t : FilePath) (clear : IsClear Q t) where
    Leaving-pending_below :
        (p : FilePath) (n : Node) (pending : List FilePath)
        → IsBelow t p
        → All (IsBelow t) pending
        → Leaving Q (All (IsBelow t)) (pending_below p n pending)
    unfolding pending_below
    Leaving-pending_below p n pending h k = elim (Bool-cases (node_is_dir n)) [
      | inl e ↦
          rw (e, pending_below)
            (Leaving-bind _ _ (Leaving-read_dir p)
              (λ l plain. Leaving-pure _ (IsBelow-push_all t p l pending h plain k)))
      | inr e ↦ rw (e, pending_below) (Leaving-pure pending k)
    ]

    Leaving-make_writable :
        (fuel : ℕ) (pending : List FilePath)
        → All (IsBelow t) pending
        → Leaving Q Any (make_writable fuel pending)
    unfolding make_writable
    Leaving-make_writable fuel [] h = Leaving-pure tt tt
    Leaving-make_writable zero (p ∷ pending) h = Framing-fail SameOn-IsPreorder (io fault)
    Leaving-make_writable (suc fuel) (p ∷ pending) (h, k) =
        Leaving-bind _ _ (Framing-symlink_metadata SameOn-IsPreorder p) λ n _.
          Leaving-bind _ _ (Leaving-make_path_writable p n (IsClear-below t p clear h)) λ _ _.
            Leaving-bind _ _ (Leaving-pending_below p n pending h k)
              λ pending' below. Leaving-make_writable fuel pending' below

  pub Leaving-remove_dir_all_writable :
      (p : FilePath) → IsClear Q (resolve p) → Leaving Q Any (remove_dir_all_writable p)
  unfolding remove_dir_all_writable make_tree_writable
  Leaving-remove_dir_all_writable p c =
      Leaving-bind _ _
        (record {
          framed = λ w.
              (Leaving-make_writable (resolve p) c (length w.files) (p ∷ [])
                  (([], sym (append-nil (resolve p))), tt)).framed
                w;
          result = λ w a _. tt;
        })
        (λ _ _. Leaving-remove_dir_all p c)

  module _ (s : Storage) (path : FilePath) (name : Text) (named : file_name path ≡ some name)
      (clear : IsClear Q (resolve path))
      (clear' : IsClear Q (resolve (push s.temporary_path name))) where
    abbrev temporary : FilePath
    temporary = push s.temporary_path name

    temporary_is : Leaving Q (λ t. t ≡ temporary) (temporary_path_for s path)
    temporary_is = rw named (Leaving-pure temporary refl)

    pub Leaving-remove_directory : Leaving Q Any (remove_directory s path)
    unfolding remove_directory
    Leaving-remove_directory = Leaving-bind _ _ temporary_is λ t e. rw e (
        Leaving-bind _ _ (Leaving-query (exists temporary)) λ stale _.
          Leaving-bind _ _ (Leaving-when stale _ (Leaving-remove_dir_all_writable temporary clear'))
            λ _ _.
              Leaving-bind _ _ (Leaving-rename path temporary clear clear')
                λ _ _. Leaving-remove_dir_all_writable temporary clear')

    pub Leaving-remove_published_file : Leaving Q Any (remove_published_file s path)
    unfolding remove_published_file
    Leaving-remove_published_file = Leaving-bind _ _ temporary_is λ t e. rw e (
        Leaving-bind _ _ (Leaving-query (exists temporary)) λ stale _.
          Leaving-bind _ _ (Leaving-when stale _ (Leaving-remove_file temporary clear')) λ _ _.
            Leaving-bind _ _ (Leaving-rename path temporary clear clear')
              λ _ _. Leaving-remove_file temporary clear')
