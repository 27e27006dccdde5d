-- ===== src/Storage/Walk.antt =====
-- The walk that makes a tree writable comes to its end: the fuel is enough.
use pakstak.Base.{
  ℕ, zero, suc, ◌+◌, ◌≤◌, ◌<◌, ◌≡◌, inl, inr, refl, ap, ◌∙◌, Text, true, Bool-cases, some, List, [],
  ◌∷◌, ◌++◌, All, length, arith, ok,
}
use pakstak.Fs.Paths.{FilePath, push, resolve, IsPlain}
use pakstak.Fs.PathLaws.{push_plain, resolve-child}
use pakstak.Fs.Files.{Files, Node, lookup, names, names-IsPlain, node_is_dir}
use pakstak.Fs.Counts.{
  count, count_all, names-NoTwice, count-length, below-lt-count, count_all-below,
}
use pakstak.Fs.World.{still, symlink_metadata, read_dir, names_at, metadata_at}
use pakstak.Storage.Action.{Action, ◌>>=◌, ◌>>◌, pure, do_io}
use pakstak.Storage.Trees.{
  make_path_writable, push_all, pending_below, make_writable, make_tree_writable,
}
use pakstak.Storage.Triple.{operation_succeeds, bind_succeeds}
use pakstak.Fs.Children.{ChildThere, names-there}
use pakstak.Storage.Modes.{IsThere, total, Changed, make_path_writable-Writes}

resolve-push :
    (path : FilePath) (c : Text) → IsPlain c → resolve (push path c) ≡ resolve path ++ c ∷ []
resolve-push path c h = ap resolve (push_plain path c h) ∙ resolve-child path c h

total-push_all :
    (path : FilePath) (cs : List Text) (fs : Files) (pending : List FilePath)
    → All IsPlain cs
    → total fs (push_all path cs pending) ≡ count_all (resolve path) cs fs + total fs pending
unfolding push_all
total-push_all path [] fs pending h = omega arith
total-push_all path (c ∷ cs) fs pending (h, hs) = omega (
  arith,
  total-push_all path cs fs (push path c ∷ pending) hs,
  ap (λ q. count q fs) (resolve-push path c h),
)

All-push_all :
    (path : FilePath) (cs : List Text) (fs : Files) (pending : List FilePath)
    → All IsPlain cs
    → All (ChildThere (resolve path) fs) cs
    → All (IsThere fs) pending
    → All (IsThere fs) (push_all path cs pending)
unfolding push_all
All-push_all path [] fs pending h k l = l
All-push_all path (c ∷ cs) fs pending (h, hs) ((n, k), ks) l =
    All-push_all path cs fs (push path c ∷ pending) hs ks
      ((n, ap (λ q. lookup q fs) (resolve-push path c h) ∙ k), l)

total_smaller :
    (p : FilePath) (n : Node) (fs fs' : Files) (pending : List FilePath)
    → Changed p n fs fs'
    → total fs' pending ≤ total fs pending
total_smaller p n fs fs' [] h = omega arith
total_smaller p n fs fs' (path ∷ pending) h =
    omega (arith, h.smaller (resolve path), total_smaller p n fs fs' pending h)

-- The stack after a step: all of it is there, and it stands for fewer files.
abbrev Goes : FilePath → Files → List FilePath → Action (List FilePath) → Type 0
Goes p fs pending m =
    (pending' : List FilePath) × (m (still fs) ≡ (ok pending', still fs))
    × All (IsThere fs) pending'
    × (total fs pending' < count (resolve p) fs + total fs pending)

metadata_succeeds :
    (p : FilePath) (n : Node) (fs : Files)
    → lookup (resolve p) fs ≡ some n
    → do_io (symlink_metadata p) (still fs) ≡ (ok n, still fs)
unfolding symlink_metadata metadata_at
metadata_succeeds p n fs h = operation_succeeds _ _ fs n (ground (arith, h))

read_dir_succeeds :
    (p : FilePath) (n : Node) (fs : Files)
    → lookup (resolve p) fs ≡ some n
    → node_is_dir n ≡ true
    → do_io (read_dir p) (still fs) ≡ (ok (names (resolve p) fs), still fs)
unfolding read_dir names_at
read_dir_succeeds p n fs h k =
    operation_succeeds _ _ fs (names (resolve p) fs) (ground (arith, h, k))

pending_below-Goes :
    (p : FilePath) (n m : Node) (fs : Files) (pending : List FilePath)
    → lookup (resolve p) fs ≡ some m
    → m.kind ≡ n.kind
    → All (IsThere fs) pending
    → Goes p fs pending (pending_below p n pending)
unfolding pending_below
pending_below-Goes p n m fs pending h k l = elim (Bool-cases (node_is_dir n)) [
  | inr e ↦
      rw (e, pending_below) (pending, refl, l, omega (arith, below-lt-count (resolve p) fs m h))
  | inl e ↦
      let cs = names (resolve p) fs in
      let plain = names-IsPlain (resolve p) fs in
      let dir : node_is_dir m ≡ true = rw k e in
      rw (e, pending_below)
        (
          push_all p cs pending,
          bind_succeeds (do_io (read_dir p)) (λ names. pure (push_all p names pending)) (still fs)
              (still fs) cs (read_dir_succeeds p m fs h dir) refl,
          All-push_all p cs fs pending plain (names-there (resolve p) fs) l,
          omega (
            arith,
            total-push_all p cs fs pending plain,
            below-lt-count (resolve p) fs m h,
            count_all-below (resolve p) cs fs (names-NoTwice (resolve p) fs),
          ),
        )
]

abbrev Ends : Files → Action (Unit {0}) → Type 0
Ends fs m = (fs' : Files) × (m (still fs) ≡ (ok tt, still fs'))

make_writable_enough :
    (fuel : ℕ) (pending : List FilePath) (fs : Files)
    → All (IsThere fs) pending
    → total fs pending ≤ fuel
    → Ends fs (make_writable fuel pending)
unfolding make_writable
make_writable_enough fuel [] fs h k = (fs, refl)
make_writable_enough zero (p ∷ pending) fs ((n, h), hs) k =
    absurd (omega (arith, k, below-lt-count (resolve p) fs n h))
make_writable_enough (suc fuel) (p ∷ pending) fs ((n, h), hs) k =
    let (fs', wrote, changed) = make_path_writable-Writes p n fs h in
    let (m, there, same) = changed.node in
    let (pending', went, all_there, fewer) =
      pending_below-Goes p n m fs' pending there same (changed.there pending hs) in
    let enough : total fs' pending' ≤ fuel = omega (
      arith,
      fewer,
      k,
      changed.smaller (resolve p),
      total_smaller (resolve p) n fs fs' pending changed,
    ) in
    let (fs'', ended) = make_writable_enough fuel pending' fs' all_there enough in
    (
      fs'',
      bind_succeeds (do_io (symlink_metadata p))
          (λ metadata.
            make_path_writable p metadata
            >> (pending_below p metadata pending >>= make_writable fuel))
          (still fs) (still fs) n (metadata_succeeds p n fs h)
          (bind_succeeds (make_path_writable p n)
            (λ _. pending_below p n pending >>= make_writable fuel) (still fs) (still fs') tt wrote
            (bind_succeeds (pending_below p n pending) (make_writable fuel) (still fs') (still fs')
              pending' went ended)),
    )

-- When nothing is cut short, making a tree writable comes to its end, wherever something stands.
pub make_tree_writable_ends :
    (path : FilePath) (fs : Files) (n : Node)
    → lookup (resolve path) fs ≡ some n
    → (fs' : Files) × (make_tree_writable path (still fs) ≡ (ok tt, still fs'))
unfolding make_tree_writable
make_tree_writable_ends path fs n h =
    make_writable_enough (length fs) (path ∷ []) fs ((n, h), tt)
      (omega (arith, count-length (resolve path) fs))
