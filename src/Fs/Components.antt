-- ===== src/Fs/Components.antt =====
-- The components of a path that was joined, and the name of its file: one plain name, whatever text
-- was joined.
use pakstak.Base.{
  ℕ, Text, codes, contains, ◌==◌, nat_eq, true, false, not, ◌&&◌, ◌||◌, is_empty, Bool-cases,
  List-cases, inl, inr, some, List, [], ◌∷◌, ◌++◌, All, ◌≡◌, refl, ap, ◌∙◌, arith, sym,
}
use mathlib.Core.List.{append_assoc}
use pakstak.Base.Splits.{split, split-ne-nil}
use pakstak.Fs.Paths.{FilePath, push, file_name, last_name, kept, absolute, dots, IsPlain}

-- A component: not empty, no slash, and not the current directory.
abbrev IsComponent : Text → Type 0
IsComponent c = (not (is_empty c) && not (contains c b'/') && not (c == codes ".")) ≡ true

split-free : (c : ℕ) (s : Text) → All (λ p. contains p c ≡ false) (split c s)
unfolding split
split-free c [] = (refl, tt)
split-free c (x ∷ s) = elim (List-cases (split c s)) [
  | inl n ↦ absurd (split-ne-nil c s n)
  | inr (q, qs, e) ↦
      let (k, ks) = rw e at (split-free c s) in
      elim (Bool-cases (nat_eq x c)) [
        | inl f ↦ rw (e, f) (refl, (k, ks))
        | inr f ↦ rw (e, f) (ground (arith, f, k), ks)
      ]
]

kept-IsComponent :
    (cs : List Text) → All (λ p. contains p b'/' ≡ false) cs → All IsComponent (kept cs)
kept-IsComponent [] h = tt
kept-IsComponent (c ∷ cs) (h, hs) = elim (Bool-cases (is_empty c || c == codes ".")) [
  | inl e ↦ rw e (kept-IsComponent cs hs)
  | inr e ↦ rw e (ground (arith, h, e), kept-IsComponent cs hs)
]

last_name-IsComponent :
    (c : Text) (p : FilePath) → IsComponent c → All IsComponent p → IsComponent (last_name c p)
last_name-IsComponent c [] h k = h
last_name-IsComponent c (d ∷ p) h (k, ks) = last_name-IsComponent d p k ks

last_name-append-cons :
    (d : Text) (p : FilePath) (c : Text) (q : FilePath) → last_name d (p ++ c ∷ q) ≡ last_name c q
last_name-append-cons d [] c q = refl
last_name-append-cons d (e ∷ p) c q = last_name-append-cons e p c q

file_name-append-cons :
    (p : FilePath) (c : Text) (q : FilePath) → file_name (p ++ c ∷ q) ≡ file_name (c ∷ q)
unfolding file_name
file_name-append-cons [] c q = refl
file_name-append-cons (d ∷ p) c q = rw (last_name-append-cons d p c q) refl

file_name-IsPlain :
    (p : FilePath) (name : Text) → All IsComponent p → file_name p ≡ some name → IsPlain name
unfolding file_name
file_name-IsPlain [] name k h = cc
file_name-IsPlain (c ∷ p) name (k, ks) h =
    let last = last_name-IsComponent c p k ks in
    elim (Bool-cases (last_name c p == dots)) [
      | inl e ↦ ground (arith, e, h)
      | inr e ↦ ground (arith, e, h, last)
    ]

-- The file of a text that is joined to a path of one component more.
pub file_name-push-IsPlain :
    (root : FilePath) (folder s name : Text)
    → IsPlain folder
    → file_name (push (root ++ folder ∷ []) s) ≡ some name
    → IsPlain name
unfolding push
file_name-push-IsPlain root folder s name plain h = elim (Bool-cases (absolute s)) [
  | inl e ↦ file_name-IsPlain (kept (split b'/' s)) name components (rw e at h)
  | inr e ↦
      let h' : file_name ((root ++ folder ∷ []) ++ kept (split b'/' s)) ≡ some name = rw e at h in
      file_name-IsPlain (folder ∷ kept (split b'/' s)) name (ground (arith, plain), components)
        (sym (file_name-append-cons root folder (kept (split b'/' s)))
          ∙ ap file_name (sym (append_assoc root (folder ∷ []) (kept (split b'/' s))))
          ∙ h')
]
  where
    components : All IsComponent (kept (split b'/' s))
    components = kept-IsComponent (split b'/' s) (split-free b'/' s)
