-- ===== src/Run/Stack.antt =====
-- The stack of layers: all the layers of the containers in their order, each once.
use mathlib.Core.List.{append-nil, append_assoc}
use pakstak.Base.{
  Text, ◌==◌, ==_iff, false, not, ◌&&◌, List, [], ◌∷◌, ◌++◌, all, if◌then◌else◌, ◌≡◌, refl, ap, sym,
  ◌∙◌, arith, Bool-cases, inl, inr,
}
use pakstak.Manifest.{Descriptor, Json}
use pakstak.Storage.Action.{Action, ◌>>=◌, ◌>>◌, pure, collect, bind-ext, bind_assoc}
use pakstak.Storage.Layout.{Storage}
use pakstak.Storage.Reader.{
  ensure_container_installed, read_container_manifest_digest, read_manifest,
}
use pakstak.Run.{is_new, add_layers, stack_containers, read_stacked_layers}

-- The list without the layers of one digest.
abbrev pub remove : Text → List Descriptor → List Descriptor
remove d [] = []
remove d (x ∷ xs) = let rest = remove d xs in if x.digest == d then rest else x ∷ rest

-- The first layer of each digest.
abbrev pub nub : List Descriptor → List Descriptor
nub [] = []
nub (x ∷ xs) = x ∷ remove x.digest (nub xs)

abbrev keep : List Descriptor → List Descriptor → List Descriptor
keep acc [] = []
keep acc (y ∷ ys) = let rest = keep acc ys in if is_new acc y then y ∷ rest else rest

is_new-append :
    (acc : List Descriptor) (x y : Descriptor)
    → is_new (acc ++ x ∷ []) y ≡ (is_new acc y && not (y.digest == x.digest))
unfolding is_new
is_new-append [] x y = ground arith
is_new-append (z ∷ acc) x y = ground (arith, is_new-append acc x y)

is_new_same :
    (acc : List Descriptor) (x y : Descriptor) → y.digest ≡ x.digest → is_new acc y ≡ is_new acc x
unfolding is_new
is_new_same acc x y e = ap (λ d. all (λ old. not (d == old.digest)) acc) e

keep-append :
    (acc : List Descriptor) (x : Descriptor) (ys : List Descriptor)
    → keep (acc ++ x ∷ []) ys ≡ keep acc (remove x.digest ys)
keep-append acc x [] = refl
keep-append acc x (y ∷ ys) = ground (arith, is_new-append acc x y, keep-append acc x ys)

keep-remove :
    (acc : List Descriptor) (x : Descriptor) (ys : List Descriptor)
    → is_new acc x ≡ false
    → keep acc (remove x.digest ys) ≡ keep acc ys
keep-remove acc x [] h = refl
keep-remove acc x (y ∷ ys) h = elim (Bool-cases (y.digest == x.digest)) [
  | inl e ↦
      ground (arith, is_new_same acc x y ((==_iff y.digest x.digest).0 e), keep-remove acc x ys h)
  | inr e ↦ ground (arith, keep-remove acc x ys h)
]

add_layers-keep : (acc new : List Descriptor) → add_layers acc new ≡ acc ++ keep acc (nub new)
unfolding add_layers
add_layers-keep acc [] = sym (append-nil acc)
add_layers-keep acc (x ∷ new) = elim (Bool-cases (is_new acc x)) [
  | inl e ↦ rw e (
      add_layers-keep (acc ++ x ∷ []) new
      ∙ append_assoc acc (x ∷ []) (keep (acc ++ x ∷ []) (nub new))
      ∙ ap (λ l. acc ++ x ∷ l) (keep-append acc x (nub new)))
  | inr e ↦
      rw e (add_layers-keep acc new ∙ ap (λ l. acc ++ l) (sym (keep-remove acc x (nub new) e)))
]

keep-nil : (ys : List Descriptor) → keep [] ys ≡ ys
unfolding is_new
keep-nil [] = refl
keep-nil (y ∷ ys) = ap (λ l. y ∷ l) (keep-nil ys)

pub add_layers-nub : (new : List Descriptor) → add_layers [] new ≡ nub new
add_layers-nub new = add_layers-keep [] new ∙ keep-nil (nub new)

add_layers-append :
    (acc a b : List Descriptor) → add_layers (add_layers acc a) b ≡ add_layers acc (a ++ b)
unfolding add_layers
add_layers-append acc [] b = refl
add_layers-append acc (x ∷ a) b =
    add_layers-append (if is_new acc x then acc ++ x ∷ [] else acc) a b

abbrev pub concat : List (List Descriptor) → List Descriptor
concat [] = []
concat (l ∷ ls) = l ++ concat ls

module _ (json : Json) (s : Storage) where
  -- The layers of one container.
  abbrev pub container_layers : Text → Action (List Descriptor)
  container_layers container = do
    ensure_container_installed s container
    digest ← read_container_manifest_digest s container
    manifest ← read_manifest json s digest
    pure manifest.layers

  stack-cons :
      (acc : List Descriptor) (c : Text) (cs : List Text)
      → stack_containers json s acc (c ∷ cs)
        ≡ (container_layers c >>= λ ls. stack_containers json s (add_layers acc ls) cs)
  unfolding stack_containers
  stack-cons acc c cs =
      let k = λ (ls : List Descriptor). stack_containers json s (add_layers acc ls) cs in
      sym (
        bind_assoc (ensure_container_installed s c) _ k
        ∙ bind-ext (ensure_container_installed s c) _ _ (λ _.
          bind_assoc (read_container_manifest_digest s c) _ k
          ∙ bind-ext (read_container_manifest_digest s c) _ _
              (λ d. bind_assoc (read_manifest json s d) _ k)))

  collect-cons :
      (c : Text) (cs : List Text) (f : List (List Descriptor) → List Descriptor)
      → (collect container_layers (c ∷ cs) >>= λ ls. pure (f ls))
        ≡ (container_layers c >>= λ b. collect container_layers cs >>= λ bs. pure (f (b ∷ bs)))
  unfolding collect
  collect-cons c cs f =
      bind_assoc (container_layers c) _ _
      ∙ bind-ext (container_layers c) _ _ (λ b. bind_assoc (collect container_layers cs) _ _)

  stack-collect :
      (acc : List Descriptor) (containers : List Text)
      → stack_containers json s acc containers
        ≡ (collect container_layers containers >>= λ ls. pure (add_layers acc (concat ls)))
  unfolding stack_containers collect
  stack-collect acc [] = unfold add_layers in refl
  stack-collect acc (c ∷ cs) =
      stack-cons acc c cs
      ∙ bind-ext (container_layers c) _ _ (λ ls.
        stack-collect (add_layers acc ls) cs
        ∙ bind-ext (collect container_layers cs) _ _
            (λ bs. ap pure (add_layers-append acc ls (concat bs))))
      ∙ sym (collect-cons c cs (λ ls. add_layers acc (concat ls)))

  -- The containers are read in their order, up to the first failure; the stack has the layers of
  -- all their manifests, in order, and of several with one digest the first.
  pub read_stacked_layers_lem :
      (containers : List Text)
      → read_stacked_layers json s containers
        ≡ (collect container_layers containers >>= λ ls. pure (nub (concat ls)))
  unfolding read_stacked_layers
  read_stacked_layers_lem containers =
      stack-collect [] containers
      ∙ bind-ext (collect container_layers containers) _ _
          (λ ls. ap pure (add_layers-nub (concat ls)))
