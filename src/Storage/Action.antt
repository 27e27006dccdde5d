-- ===== src/Storage/Action.antt =====
-- Methods of the storage: actions on the world of files that may fail. The messages of `context`
-- are left out; the error is the one at the root of the chain.
use mathlib.Core.Path.{fun_ext}
use pakstak.Base.{
  arith, ◌≡◌, refl, ap, Text, Result, ok, err, map_err, Bool, true, false, Option, none, some, List,
  [], ◌∷◌,
}
use pakstak.Digest.Verifier.{DigestError}
use pakstak.Fs.World.{IoKind, World, Io}

pub data StorageError : Type 0 where
  io : IoKind → StorageError
  no_file_name not_utf8 manifest_digest_empty manifest_unparsable : StorageError
  reference_unparsable no_json_suffix : StorageError
  container_not_installed : Text → StorageError
  container_required command_empty no_layers : StorageError
  layer_missing : Text → StorageError
  layer_digest : DigestError → StorageError
  layer_unread : StorageError

abbrev pub Action : Type 0 → Type 0
Action A = Io StorageError A

-- What was done before a failure stays done.
infixl 5 ◌>>=◌ ◌>>◌
abbrev pub continue : {A B : Type 0} → Result StorageError A → (A → Action B) → Action B
continue (ok a) f w = f a w
continue (err e) f w = (err e, w)

abbrev pub ◌>>=◌ : {A B : Type 0} → Action A → (A → Action B) → Action B
◌>>=◌ m f w = let (r, w') = m w in continue r f w'

abbrev pub ◌>>◌ : {A B : Type 0} → Action A → Action B → Action B
m >> n = m >>= λ _. n

abbrev pub pure : {A : Type 0} → A → Action A
pure a w = (ok a, w)

abbrev pub fail : {A : Type 0} → StorageError → Action A
fail e w = (err e, w)

-- `?` on a result of `std::io`.
abbrev pub do_io : {A : Type 0} → Io IoKind A → Action A
do_io m w = let (r, w') = m w in (map_err io r, w')

-- A result of `std::io` as a value.
abbrev pub io_caught : {A : Type 0} → Io IoKind A → Action (Result IoKind A)
io_caught m w = let (r, w') = m w in (ok r, w')

abbrev pub some_or : {A : Type 0} → Option A → StorageError → Action A
some_or none e = fail e
some_or (some a) e = pure a

abbrev pub check : Bool → StorageError → Action (Unit {0})
check true e = pure tt
check false e = fail e

-- The value of a query.
abbrev pub query : {A : Type 0} → (World → A) → Action A
query f w = (ok (f w), w)

-- `?` on a result that is at hand.
abbrev pub from_result : {A : Type 0} → Result StorageError A → Action A
from_result r w = (r, w)

-- The error of an action as a value.
abbrev pub caught : {A : Type 0} → Action A → Action (Result StorageError A)
caught m w = let (r, w') = m w in (ok r, w')

abbrev pub when : Bool → Action (Unit {0}) → Action (Unit {0})
when b m = elim b [ true ↦ m | false ↦ pure tt ]

-- `iter().map(…).collect::<Result<Vec<_>, _>>()`
unfoldable pub collect : {A B : Type 0} → (A → Action B) → List A → Action (List B)
collect f [] = pure []
collect f (a ∷ as') = do b ← f a; bs ← collect f as'; pure (b ∷ bs)

-- The laws of the chain.
pub bind-ext :
    {A B : Type 0} (m : Action A) (f g : A → Action B)
    → ((a : A) → f a ≡ g a)
    → (m >>= f) ≡ (m >>= g)
bind-ext m f g h = ap (λ k. m >>= k) (fun_ext h)

continue-continue :
    {A B C : Type 0} (f : A → Action B) (g : B → Action C) (r : Result StorageError A) (w : World)
    → (continue r f >>= g) w ≡ continue r (λ a. f a >>= g) w
continue-continue f g (ok a) w = refl
continue-continue f g (err e) w = refl

pub bind_assoc :
    {A B C : Type 0} (m : Action A) (f : A → Action B) (g : B → Action C)
    → (m >>= f >>= g) ≡ (m >>= λ a. f a >>= g)
bind_assoc m f g = fun_ext λ w. continue-continue f g (m w).0 (m w).1

-- A successful chain had a successful first step, and went on from where that ended.
continue-eq-ok :
    {A B : Type 0} (f : A → Action B) (r : Result StorageError A) (w : World) {b : B} {w' : World}
    → continue r f w ≡ (ok b, w')
    → (a : A) × (r ≡ ok a) × (f a w ≡ (ok b, w'))
continue-eq-ok f (ok a) w h = (a, refl, h)
continue-eq-ok f (err e) w h = cc

pub bind-eq-ok :
    {A B : Type 0} (m : Action A) (f : A → Action B) (w : World) {b : B} {w' : World}
    → (m >>= f) w ≡ (ok b, w')
    → (a : A) × (v : World) × (m w ≡ (ok a, v)) × (f a v ≡ (ok b, w'))
bind-eq-ok m f w h =
    let (a, e, k) = continue-eq-ok f (m w).0 (m w).1 h in (a, (m w).1, ap (λ r. (r, (m w).1)) e, k)

pub check-eq-ok :
    (b : Bool) (e : StorageError) (w v : World) (u : Unit {0})
    → check b e w ≡ (ok u, v)
    → (b ≡ true) × (v ≡ w)
check-eq-ok true e w v u h = ground arith
check-eq-ok false e w v u h = cc

continue_value :
    {A B : Type 0} (f : A → Action B) (r : Result StorageError A) (w : World) (b : B)
    → (continue r f w).0 ≡ ok b
    → (a : A) × (r ≡ ok a) × ((f a w).0 ≡ ok b)
continue_value f (ok a) w b h = (a, refl, h)
continue_value f (err e) w b h = cc

-- The value of a chain that succeeds comes from a value of its first step.
pub chain_value :
    {A B : Type 0} (m : Action A) (f : A → Action B) (w : World) (b : B)
    → ((m >>= f) w).0 ≡ ok b
    → (a : A) × ((m w).0 ≡ ok a) × ((f a (m w).1).0 ≡ ok b)
chain_value m f w b h = continue_value f (m w).0 (m w).1 b h

-- What follows a step may be exchanged where it does the same.
pub continue-ext :
    {A B : Type 0} (f g : A → Action B) (r : Result StorageError A) (w : World)
    → ((a : A) → r ≡ ok a → f a w ≡ g a w)
    → continue r f w ≡ continue r g w
continue-ext f g (ok a) w h = h a refl
continue-ext f g (err e) w h = refl
