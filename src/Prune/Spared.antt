-- ===== src/Prune/Spared.antt =====
-- Actions that leave what stands in a part of the files alone, however they end: more may be added.
use pakstak.Base.{some, ◌≡◌, ◌∙◌}
use pakstak.Fs.Paths.{FilePath}
use pakstak.Fs.Files.{Files, Node, lookup}
use pakstak.Storage.Action.{Action, ◌>>=◌, pure}
use pakstak.Storage.Growth.{Adds}
use pakstak.Storage.Frames.{Any, Framing, IsPreorder, Framing-value, Framing-bind, Framing-weaken}
use pakstak.Storage.Leaving.{Leaving}

module _ (Q : FilePath → Type 0) where
  -- What stands at the paths of `Q` stands there still.
  pub record Spared (fs fs' : Files) : Type 0 where
    pub at : (q : FilePath) (n : Node) → Q q → lookup q fs ≡ some n → lookup q fs' ≡ some n

  abbrev pub Sparing : {A : Type 0} → (A → Type 0) → Action A → Type 0
  Sparing R m = Framing Spared R m

module _ {Q : FilePath → Type 0} where
  pub Spared-IsPreorder : IsPreorder (Spared Q)
  Spared-IsPreorder = record {
    reflexive = λ fs. record { at = λ q n _ h. h };
    transitive = λ fs gs hs h k. record { at = λ q n x e. k.at q n x (h.at q n x e) };
  }

  pub Leaving-Sparing : {A : Type 0} {R : A → Type 0} {m : Action A} → Leaving Q R m → Sparing Q R m
  Leaving-Sparing h = Framing-weaken (λ fs gs k. record { at = λ q n x e. k.at q x ∙ e }) h

  pub Sparing-pure : {A : Type 0} {R : A → Type 0} (a : A) → R a → Sparing Q R (pure a)
  Sparing-pure a h = Framing-value Spared-IsPreorder (λ w. a) (λ w. h)

  pub Sparing-Adds : {A : Type 0} {m : Action A} → Adds m → Sparing Q Any m
  Sparing-Adds h = record {
    framed = λ w. record { at = λ q n _ e. (h.at w).at q n e };
    result = λ w a _. tt;
  }

  pub Sparing-bind :
      {A B : Type 0} {R : A → Type 0} {S : B → Type 0} (m : Action A) (f : A → Action B)
      → Sparing Q R m
      → ((a : A) → R a → Sparing Q S (f a))
      → Sparing Q S (m >>= f)
  Sparing-bind m f h k = Framing-bind Spared-IsPreorder m f h k
