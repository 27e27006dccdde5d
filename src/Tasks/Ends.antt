-- ===== src/Tasks/Ends.antt =====
-- What tasks leave in the files, where they succeed and where they fail.
use pakstak.Base.{Result, ok, err, map_err, refl, subst, ok_injective, ◌≡◌}
use pakstak.Fs.Files.{Files}
use pakstak.Fs.World.{World}
use pakstak.Network.{Fetch, FetchError, RegistryClient, Gives}
use pakstak.Storage.Action.{StorageError, Action}
use pakstak.Storage.Triple.{Post, Triple}
use pakstak.Storage.Frames.{Framing}
use pakstak.Tasks.{
  TaskError, Session, Task, continue, ◌>>=◌, pure, fail, from_result, on_storage, on_registry,
  new_client, storage, registry,
}

abbrev pub Ended :
    {S A : Type 0}
    → (A → Files → Type 0)
    → (Files → Type 0)
    → Result TaskError A × Session S
    → Type 0
Ended Q E (ok a, x) = Q a x.world.files
Ended Q E (err e, x) = E x.world.files

pub Ended-ok :
    {S A : Type 0} (Q : A → Files → Type 0) (E : Files → Type 0)
    (o : Result TaskError A × Session S) (a : A)
    → o.0 ≡ ok a
    → Ended Q E o
    → Q a o.1.world.files
Ended-ok Q E (ok b, x) a e h = subst (λ c. Q c x.world.files) (ok_injective b a e) h
Ended-ok Q E (err y, x) a e h = cc

-- From files with `P` the task ends in files with `Q`, or it fails in files with `E`.
pub record Ends {S A : Type 0} (P : Files → Type 0) (m : Task S A) (Q : A → Files → Type 0)
    (E : Files → Type 0) : Type 0 where
  pub at : (x : Session S) → P x.world.files → Ended Q E (m x)

module _ {S A B : Type 0} {Q : A → Files → Type 0} {R : B → Files → Type 0}
    {E : Files → Type 0} where
  continue-Ended :
      (f : A → Task S B)
      → ((a : A) → Ends (Q a) (f a) R E)
      → (r : Result TaskError A) (x : Session S) → Ended Q E (r, x)
      → Ended R E (continue r f x)
  continue-Ended f k (ok a) x h = (k a).at x h
  continue-Ended f k (err e) x h = h

  pub Ends-bind :
      {P : Files → Type 0} (m : Task S A) (f : A → Task S B)
      → Ends P m Q E
      → ((a : A) → Ends (Q a) (f a) R E)
      → Ends P (m >>= f) R E
  Ends-bind m f t k = record { at = λ x h. continue-Ended f k (m x).0 (m x).1 (t.at x h) }

module _ {S A : Type 0} {P : Files → Type 0} where
  pub Ends-weaken :
      {Q R : A → Files → Type 0} {E F : Files → Type 0} (m : Task S A)
      → ((a : A) (fs : Files) → Q a fs → R a fs)
      → ((fs : Files) → E fs → F fs)
      → Ends P m Q E
      → Ends P m R F
  Ends-weaken {Q} {R} {E} {F} m f g t = record { at = λ x k. by_end (m x) (t.at x k) }
    where
      by_end : (o : Result TaskError A × Session S) → Ended Q E o → Ended R F o
      by_end (ok a, x) h = f a x.world.files h
      by_end (err e, x) h = g x.world.files h

  -- A fact that does not depend on the files.
  pub Ends-given :
      {X : Type 0} {Q : A → Files → Type 0} {E : Files → Type 0} {m : Task S A}
      → (X → Ends P m Q E)
      → Ends (λ fs. P fs × X) m Q E
  Ends-given h = record { at = λ x k. (h k.1).at x k.0 }

module _ {S A : Type 0} {P E : Files → Type 0} where
  pub Ends-pure :
      {Q : A → Files → Type 0} (a : A)
      → ((fs : Files) → P fs → Q a fs)
      → Ends {S = S} P (pure a) Q E
  Ends-pure a h = record { at = λ x. h x.world.files }

  pub Ends-fail :
      {Q : A → Files → Type 0} (e : TaskError)
      → ((fs : Files) → P fs → E fs)
      → Ends {S = S} P (fail e) Q E
  Ends-fail e h = record { at = λ x. h x.world.files }

  pub Ends-from_result :
      (r : Result TaskError A)
      → ((fs : Files) → P fs → E fs)
      → Ends {S = S} P (from_result r) (λ a fs. P fs × (r ≡ ok a)) E
  Ends-from_result r h = record { at = λ x k. by_result r x k }
    where
      by_result :
          (r : Result TaskError A) (x : Session S)
          → P x.world.files
          → Ended {S = S} (λ a fs. P fs × (r ≡ ok a)) E (r, x)
      by_result (ok a) x k = (k, refl)
      by_result (err e) x k = h x.world.files k

  -- A method of the storage.
  pub Ends-on_storage :
      {Q : A → Files → Type 0} (m : Action A)
      → Triple (λ w. P w.files) m (λ a w. Q a w.files) (λ w. E w.files)
      → Ends {S = S} P (on_storage m) Q E
  Ends-on_storage {Q} m t = record { at = λ x k. by_end x (m x.world) (t.at x.world k) }
    where
      by_end :
          (x : Session S) (o : Result StorageError A × World)
          → Post (λ a w. Q a w.files) (λ w. E w.files) o
          → Ended {S = S} Q E (map_err storage o.0, record x { world = o.1 })
      by_end x (ok a, w) h = h
      by_end x (err e, w) h = h

  -- A method of the client leaves the files.
  pub Ends-on_registry :
      {R : A → Type 0} (m : Fetch S A)
      → Gives R m
      → ((fs : Files) → P fs → E fs)
      → Ends {S = S} P (on_registry m) (λ a fs. P fs × R a) E
  Ends-on_registry {R} m g h = record {
    at = λ x k. by_end x (m x.client).0 (m x.client).1 k (g.at x.client);
  }
    where
      by_end :
          (x : Session S) (r : Result FetchError A) (c : RegistryClient S)
          → P x.world.files
          → ((a : A) → r ≡ ok a → R a)
          → Ended {S = S} (λ a fs. P fs × R a) E (map_err registry r, record x { client = c })
      by_end x (ok a) c k f = (k, f a refl)
      by_end x (err e) c k f = h x.world.files k

module _ {A : Type 0} {Rel : Files → Files → Type 0} {R : A → Type 0} where
  -- A method by what it keeps however it ends.
  pub Framing-Triple :
      {m : Action A} (J : Files → Type 0)
      → ((fs fs' : Files) → Rel fs fs' → J fs → J fs')
      → Framing Rel R m
      → Triple (λ w. J w.files) m (λ a w. J w.files × R a) (λ w. J w.files)
  Framing-Triple {m} J keep f = record {
    at = λ w k. by_end (m w).0 (m w).1 (keep w.files (m w).1.files (f.framed w) k) (f.result w);
  }
    where
      by_end :
          (r : Result StorageError A) (w : World)
          → J w.files
          → ((a : A) → r ≡ ok a → R a)
          → Post (λ a w. J w.files × R a) (λ w. J w.files) (r, w)
      by_end (ok a) w k g = (k, g a refl)
      by_end (err e) w k g = k

pub Ends-new_client : {S : Type 0} {P E : Files → Type 0} → Ends {S = S} P new_client (λ u. P) E
unfolding new_client
Ends-new_client = record { at = λ x k. k }
