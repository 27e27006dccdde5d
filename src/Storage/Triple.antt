-- ===== src/Storage/Triple.antt =====
-- Postconditions of actions: one for success and one for failure, wherever it happens.
use pakstak.Base.{
  subst, sym, ap, ◌∙◌, Result, ok, err, map_err, Option, none, some, List, [], ◌∷◌, ◌≡◌, refl, ℕ,
  arith,
}
use pakstak.Fs.Files.{Files}
use pakstak.Fs.World.{still, IoKind, World, operate, operation}
use pakstak.Storage.Action.{StorageError, io, Action, continue, ◌>>=◌, pure, do_io}

abbrev pub Post :
    {A : Type 0} → (A → World → Type 0) → (World → Type 0) → Result StorageError A × World → Type 0
Post Q E (ok a, w) = Q a w
Post Q E (err e, w) = E w

-- From a world with `P` the action ends in one with `Q`, or it fails in one with `E`.
pub record Triple {A : Type 0} (P : World → Type 0) (m : Action A) (Q : A → World → Type 0)
    (E : World → Type 0) : Type 0 where
  pub at : (w : World) → P w → Post Q E (m w)

module _ {A B : Type 0} {Q : A → World → Type 0} {R : B → World → Type 0} {E : World → Type 0} where
  continue_post :
      (f : A → Action B)
      → ((a : A) → Triple (Q a) (f a) R E)
      → (r : Result StorageError A) (w : World) → Post Q E (r, w)
      → Post R E (continue r f w)
  continue_post f k (ok a) w h = (k a).at w h
  continue_post f k (err e) w h = h

  pub Triple-bind :
      {P : World → Type 0} (m : Action A) (f : A → Action B)
      → Triple P m Q E
      → ((a : A) → Triple (Q a) (f a) R E)
      → Triple P (m >>= f) R E
  Triple-bind m f t k = record { at = λ w h. continue_post f k (m w).0 (m w).1 (t.at w h) }

module _ {A : Type 0} {P E : World → Type 0} where
  pub Triple-pure :
      {Q : A → World → Type 0} (a : A) → ((w : World) → P w → Q a w) → Triple P (pure a) Q E
  Triple-pure a h = record { at = h }

  -- An operation of the file system, by what it does whole and what it does cut short.
  pub Triple-operation :
      {Q : A → World → Type 0} (act : Files → Result IoKind A × Files) (partial : ℕ → Files → Files)
      → ((w w' : World)
          → P w
          → (w'.files ≡ (act w.files).1)
          → Post Q E (map_err io (act w.files).0, w'))
      → ((n : ℕ) (w w' : World) → P w → w'.files ≡ partial n w.files → E w')
      → Triple P (do_io (operation act partial)) Q E
  unfolding operate
  Triple-operation {Q} act partial whole cut = record { at = λ w h. go w h w.faults }
    where
      go :
          (w : World)
          → P w
          → (l : List (Option ℕ)) → Post Q E (do_io (λ v. operate act partial v.files l) w)
      go w h [] = whole w _ h refl
      go w h (none ∷ rest) = whole w _ h refl
      go w h (some n ∷ rest) = cut n w _ h refl

pub Post-map :
    {A : Type 0} {Q R : A → World → Type 0} {E F : World → Type 0}
    (o : Result StorageError A × World)
    → ((a : A) (w : World) → Q a w → R a w)
    → ((w : World) → E w → F w)
    → Post Q E o
    → Post R F o
Post-map (ok a, w) f g h = f a w h
Post-map (err e, w) f g h = g w h

-- What holds however an action ends.
pub Post-both :
    {A : Type 0} (X : World → Type 0) (r : Result StorageError A) (w : World)
    → X w
    → Post (λ _. X) X (r, w)
Post-both X (ok a) w h = h
Post-both X (err e) w h = h

-- An operation that is not cut short, and a chain whose first step succeeds.
pub operation_succeeds :
    {A : Type 0} (act : Files → Result IoKind A × Files) (partial : ℕ → Files → Files) (fs : Files)
    (a : A)
    → (act fs).0 ≡ ok a
    → do_io (operation act partial) (still fs) ≡ (ok a, still (act fs).1)
unfolding operate
operation_succeeds act partial fs a h = ap (λ r. (map_err io r, still (act fs).1)) h

pub bind_succeeds :
    {A B : Type 0} (m : Action A) (f : A → Action B) (w w' : World) (a : A)
    {o : Result StorageError B × World}
    → m w ≡ (ok a, w')
    → f a w' ≡ o
    → (m >>= f) w ≡ o
bind_succeeds m f w w' a h k = ap (λ o. continue o.0 f o.1) h ∙ k

-- An operation that succeeds was not cut short.
pub operation-eq-ok :
    {A : Type 0} (act : Files → Result IoKind A × Files) (partial : ℕ → Files → Files) (w v : World)
    (a : A)
    → do_io (operation act partial) w ≡ (ok a, v)
    → act w.files ≡ (ok a, v.files)
unfolding operate
operation-eq-ok {A} act partial w v a h = by_faults w.faults h
  where
    lowered :
        (o : Result IoKind A × Files) (l : List (Option ℕ))
        → ◌≡◌ {A = Result StorageError A × World}
            (map_err io o.0, record { files = o.1; faults = l })
            (ok a, v)
        → o ≡ (ok a, v.files)
    lowered (ok b, fs) l e = ground arith
    lowered (err x, fs) l e = cc

    by_faults :
        (l : List (Option ℕ))
        → do_io (λ u. operate act partial w.files l) w ≡ (ok a, v)
        → act w.files ≡ (ok a, v.files)
    by_faults [] e = lowered (act w.files) [] e
    by_faults (none ∷ l) e = lowered (act w.files) l e
    by_faults (some n ∷ l) e = cc

-- An operation by what it does to the files, when it is done, when it fails and when it is cut short.
module _ (K L E : Files → Type 0) (act : Files → Result IoKind (Unit {0}) × Files)
    (partial : ℕ → Files → Files) (done : (fs : Files) → K fs → (act fs).0 ≡ ok tt → L (act fs).1)
    (failed : (fs : Files) (e : IoKind) → K fs → (act fs).0 ≡ err e → E (act fs).1)
    (cut : (n : ℕ) (fs : Files) → K fs → E (partial n fs)) where
  files_post :
      (fs : Files) (w : World) (r : Result IoKind (Unit {0}))
      → K fs
      → w.files ≡ (act fs).1
      → (act fs).0 ≡ r
      → Post (λ _ v. L v.files) (λ v. E v.files) (map_err io r, w)
  files_post fs w (ok u) k e h = subst L (sym e) (done fs k h)
  files_post fs w (err x) k e h = subst E (sym e) (failed fs x k h)

  pub Triple-files :
      Triple (λ w. K w.files) (do_io (operation act partial)) (λ _ w. L w.files) (λ w. E w.files)
  Triple-files =
      Triple-operation act partial (λ w w' k e. files_post w.files w' (act w.files).0 k e refl)
        (λ n w w' k e. subst E (sym e) (cut n w.files k))
