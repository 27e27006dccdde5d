-- ===== src/Storage/Frames.antt =====
-- Actions by how they change the files, however they end, and by the value that they give.
use pakstak.Base.{
  Bool, true, false, ℕ, Result, ok, err, Option, none, some, List, [], ◌∷◌, All, ◌≡◌, refl, ap,
  subst, ok_injective,
}
use pakstak.Fs.Files.{Files}
use pakstak.Fs.Paths.{FilePath, resolve}
use pakstak.Fs.World.{Io, symlink_metadata, metadata_at, IoKind, World, operate, operation}
use pakstak.Storage.Action.{
  StorageError, Action, continue, pure, fail, check, io_caught, when, ◌>>=◌, do_io, query, caught,
  collect,
}

abbrev pub Any : {A : Type 0} → A → Type 0
Any a = Unit

module _ (Rel : Files → Files → Type 0) where
  -- The files before and after are related, and a value that the action gives has the property `R`.
  pub record Framing {A : Type 0} (R : A → Type 0) (m : Action A) : Type 0 where
    pub framed : (w : World) → Rel w.files (m w).1.files
    pub result : (w : World) (a : A) → (m w).0 ≡ ok a → R a

  pub record IsPreorder : Type 0 where
    pub reflexive : (fs : Files) → Rel fs fs
    pub transitive : (fs gs hs : Files) → Rel fs gs → Rel gs hs → Rel fs hs

module _ {Rel : Files → Files → Type 0} {A : Type 0} {R : A → Type 0} {m : Action A} where
  -- What is known of one run that succeeds.
  pub Framing-run :
      Framing Rel R m → (w v : World) (a : A) → m w ≡ (ok a, v) → Rel w.files v.files × R a
  Framing-run h w v a e = (
    subst (λ (o : Result StorageError A × World). Rel w.files o.1.files) e (h.framed w),
    h.result w a (ap (λ (o : Result StorageError A × World). o.0) e),
  )

module _ {Rel : Files → Files → Type 0} (order : IsPreorder Rel) where
  module _ {A : Type 0} where
    pub Framing-value :
        {R : A → Type 0} (f : World → A) → ((w : World) → R (f w)) → Framing Rel R (query f)
    Framing-value {R} f h = record {
      framed = λ w. order.reflexive w.files;
      result = λ w b e. subst R (ok_injective (f w) b e) (h w);
    }

    pub Framing-from_result :
        {R : A → Type 0} (r : Result StorageError A)
        → ((a : A) → r ≡ ok a → R a)
        → Framing Rel R (λ w. (r, w))
    Framing-from_result r h = record {
      framed = λ w. order.reflexive w.files;
      result = λ w a e. h a e;
    }

    pub Framing-pure : {R : A → Type 0} (a : A) → R a → Framing Rel R (pure a)
    Framing-pure a h = Framing-value (λ w. a) (λ w. h)

    pub Framing-fail : {R : A → Type 0} (e : StorageError) → Framing Rel R (fail e)
    Framing-fail e = Framing-from_result (err e) (λ a h. cc)

    operate-framed :
        (act : Files → Result IoKind A × Files) (partial : ℕ → Files → Files)
        → ((fs : Files) → Rel fs (act fs).1)
        → ((n : ℕ) (fs : Files) → Rel fs (partial n fs))
        → (fs : Files) (l : List (Option ℕ)) → Rel fs (operate act partial fs l).1.files
    unfolding operate
    operate-framed act partial h k fs [] = h fs
    operate-framed act partial h k fs (none ∷ l) = h fs
    operate-framed act partial h k fs (some n ∷ l) = k n fs

    pub Framing-operation :
        (act : Files → Result IoKind A × Files) (partial : ℕ → Files → Files)
        → ((fs : Files) → Rel fs (act fs).1)
        → ((n : ℕ) (fs : Files) → Rel fs (partial n fs))
        → Framing Rel Any (do_io (operation act partial))
    Framing-operation act partial h k = record {
      framed = λ w. operate-framed act partial h k w.files w.faults;
      result = λ w a _. tt;
    }

  module _ {A B : Type 0} {R : A → Type 0} {S : B → Type 0} where
    continue-framed :
        (f : A → Action B)
        → ((a : A) → R a → Framing Rel S (f a))
        → (r : Result StorageError A) (w : World) → ((a : A) → r ≡ ok a → R a)
        → Rel w.files (continue r f w).1.files
    continue-framed f k (ok a) w h = (k a (h a refl)).framed w
    continue-framed f k (err e) w h = order.reflexive w.files

    continue_result :
        (f : A → Action B)
        → ((a : A) → R a → Framing Rel S (f a))
        → (r : Result StorageError A) (w : World) → ((a : A) → r ≡ ok a → R a)
        → (b : B) → (continue r f w).0 ≡ ok b
        → S b
    continue_result f k (ok a) w h b e = (k a (h a refl)).result w b e
    continue_result f k (err e) w h b d = cc

    pub Framing-bind :
        (m : Action A) (f : A → Action B)
        → Framing Rel R m
        → ((a : A) → R a → Framing Rel S (f a))
        → Framing Rel S (m >>= f)
    Framing-bind m f h k = record {
      framed = λ w.
          order.transitive _ _ _ (h.framed w) (continue-framed f k (m w).0 (m w).1 (h.result w));
      result = λ w. continue_result f k (m w).0 (m w).1 (h.result w);
    }

  pub Framing-collect :
      {A B : Type 0} {R : A → Type 0} {Q : B → Type 0} (f : A → Action B)
      → ((a : A) → R a → Framing Rel Q (f a))
      → (l : List A) → All R l
      → Framing Rel (All Q) (collect f l)
  unfolding collect
  Framing-collect f k [] h = Framing-pure [] tt
  Framing-collect f k (a ∷ l) (h, hs) =
      Framing-bind (f a) (λ b. collect f l >>= λ bs. pure (b ∷ bs)) (k a h)
        λ b q.
          Framing-bind (collect f l) _ (Framing-collect f k l hs)
            λ bs qs. Framing-pure (b ∷ bs) (q, qs)

  pub Framing-check : (b : Bool) (e : StorageError) → Framing Rel Any (check b e)
  Framing-check true e = Framing-pure tt tt
  Framing-check false e = Framing-fail e

  pub Framing-when :
      (b : Bool) (m : Action (Unit {0})) → Framing Rel Any m → Framing Rel Any (when b m)
  Framing-when true m h = h
  Framing-when false m h = Framing-pure tt tt

  pub Framing-symlink_metadata : (p : FilePath) → Framing Rel Any (do_io (symlink_metadata p))
  unfolding symlink_metadata
  Framing-symlink_metadata p =
      Framing-operation (λ fs. (metadata_at (resolve p) fs, fs)) (λ n fs. fs) order.reflexive
        (λ n. order.reflexive)

module _ {Rel Wider : Files → Files → Type 0} {A : Type 0} {R : A → Type 0} where
  pub Framing-weaken :
      {m : Action A}
      → ((fs gs : Files) → Rel fs gs → Wider fs gs)
      → Framing Rel R m
      → Framing Wider R m
  Framing-weaken f h = record { framed = λ w. f _ _ (h.framed w); result = h.result }

module _ {Rel : Files → Files → Type 0} {A : Type 0} where
  pub Framing-io_caught :
      (m : Io IoKind A) → Framing Rel Any (do_io m) → Framing Rel Any (io_caught m)
  Framing-io_caught m h = record { framed = h.framed; result = λ w a _. tt }

  pub Framing-caught :
      {R : A → Type 0} {m : Action A} → Framing Rel R m → Framing Rel Any (caught m)
  Framing-caught h = record { framed = h.framed; result = λ w a _. tt }
