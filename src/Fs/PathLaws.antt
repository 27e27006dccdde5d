-- ===== src/Fs/PathLaws.antt =====
-- Paths that are made by joining plain names.
use mathlib.Core.List.{append_assoc, append-nil, foldl-append}
use pakstak.Base.{
  true, Bool-cases, is_empty, ◌||◌, inl, inr, All, sym, ◌∙◌, Text, codes, contains, ◌==◌, ◌≡◌, refl,
  ap, false, some, [], ◌∷◌, ◌++◌, arith, contains-append,
}
use pakstak.Base.Splits
use pakstak.Base.Splits.{split}
use pakstak.Fs.Files.{strip}
use pakstak.Fs.FileLaws.{strip-append}
use pakstak.Fs.Paths.{
  FilePath, push, parent, drop_last, file_name, resolve, IsPlain, last_name, absolute, kept, dots,
}

plain_relative : (c : Text) → IsPlain c → absolute c ≡ false
plain_relative [] h = refl
plain_relative (x ∷ c) h = ground arith

pub push_plain : (p : FilePath) (c : Text) → IsPlain c → push p c ≡ p ++ c ∷ []
unfolding push
push_plain p c h =
    rw (plain_relative c h, Splits.split-eq-singleton b'/' c (ground arith)) (ground arith)

pub resolve-child :
    (p : FilePath) (c : Text) → IsPlain c → resolve (p ++ c ∷ []) ≡ resolve p ++ c ∷ []
unfolding resolve
resolve-child p c h = rw (foldl-append) (ground arith)

pub drop_last-append : (p : FilePath) (c : Text) → drop_last (p ++ c ∷ []) ≡ p
drop_last-append [] c = refl
drop_last-append (d ∷ []) c = refl
drop_last-append (d ∷ e ∷ p) c = ap (λ x. d ∷ x) (drop_last-append (e ∷ p) c)

pub append-single_injective :
    (p q : FilePath) (c d : Text) → p ++ c ∷ [] ≡ q ++ d ∷ [] → (p ≡ q) × (c ≡ d)
append-single_injective p q c d h =
    let same : p ≡ q = sym (drop_last-append p c) ∙ ap drop_last h ∙ drop_last-append q d in
    let left : strip q (p ++ c ∷ []) ≡ some (c ∷ []) = rw (← same) (strip-append p (c ∷ [])) in
    (same, ground (arith, left, ap (strip q) h, strip-append q (d ∷ [])))

pub parent-child : (p : FilePath) (c : Text) → parent (p ++ c ∷ []) ≡ some p
unfolding parent
parent-child [] c = refl
parent-child (d ∷ p) c = ap some (drop_last-append (d ∷ p) c)

last_name-append : (d : Text) (p : FilePath) (c : Text) → last_name d (p ++ c ∷ []) ≡ c
last_name-append d [] c = refl
last_name-append d (e ∷ p) c = last_name-append e p c

pub file_name-child : (p : FilePath) (c : Text) → IsPlain c → file_name (p ++ c ∷ []) ≡ some c
unfolding file_name
file_name-child [] c h = ground arith
file_name-child (d ∷ p) c h = rw (last_name-append d p c) (ground arith)

-- A text with an ending of five characters is no special name.
pub json-IsPlain : (d : Text) → contains d b'/' ≡ false → IsPlain (d ++ codes ".json")
unfolding ◌==◌
json-IsPlain [] h = refl
json-IsPlain (x ∷ []) h = ground arith
json-IsPlain (x ∷ y ∷ []) h = ground arith
json-IsPlain (x ∷ y ∷ z ∷ d) h = ground (arith, contains-append d (codes ".json") b'/')

pub resolve-plain : (p cs : FilePath) → All IsPlain cs → resolve (p ++ cs) ≡ resolve p ++ cs
resolve-plain p [] h = ap resolve (append-nil p) ∙ sym (append-nil (resolve p))
resolve-plain p (c ∷ cs) (h, hs) =
    ap resolve (sym (append_assoc p (c ∷ []) cs))
    ∙ resolve-plain (p ++ c ∷ []) cs hs
    ∙ ap (λ x. x ++ cs) (resolve-child p c h)
    ∙ append_assoc (resolve p) (c ∷ []) cs

pub file_name-push :
    (path : FilePath) (name : Text) → IsPlain name → file_name (push path name) ≡ some name
file_name-push path name h = ap file_name (push_plain path name h) ∙ file_name-child path name h

pub drop_last-append-cons :
    (p : FilePath) (c : Text) (r : FilePath) → drop_last (p ++ c ∷ r) ≡ p ++ drop_last (c ∷ r)
drop_last-append-cons [] c r = refl
drop_last-append-cons (d ∷ []) c r = refl
drop_last-append-cons (d ∷ e ∷ p) c r = ap (λ x. d ∷ x) (drop_last-append-cons (e ∷ p) c r)

not_absolute : (c : Text) → contains c b'/' ≡ false → absolute c ≡ false
not_absolute [] h = refl
not_absolute (x ∷ c) h = ground arith

-- Where a name without a slash leads.
pub data Leads (p : FilePath) (c : Text) : Type 0 where
  here : resolve (push p c) ≡ resolve p → Leads p c
  above : resolve (push p c) ≡ drop_last (resolve p) → Leads p c
  child : IsPlain c → resolve (push p c) ≡ resolve p ++ c ∷ [] → Leads p c

resolve-dots :
    (p : FilePath) (c : Text) → (c == dots) ≡ true → resolve (p ++ c ∷ []) ≡ drop_last (resolve p)
unfolding resolve
resolve-dots p c h = rw (foldl-append) (ground (arith, h))

push_single : (p : FilePath) (c : Text) → contains c b'/' ≡ false → push p c ≡ p ++ kept (c ∷ [])
unfolding push
push_single p c h = rw (not_absolute c h, Splits.split-eq-singleton b'/' c h) refl

kept-single : (c : Text) → (is_empty c || c == codes ".") ≡ false → kept (c ∷ []) ≡ c ∷ []
kept-single c h = rw h refl

pub push-Leads : (p : FilePath) (c : Text) → contains c b'/' ≡ false → Leads p c
push-Leads p c h = elim (Bool-cases (is_empty c || c == codes ".")) [
  | inl e ↦ here (ap resolve (push_single p c h ∙ rw e (append-nil p)))
  | inr e ↦
      let pushed = push_single p c h ∙ ap (λ x. p ++ x) (kept-single c e) in
      elim (Bool-cases (c == dots)) [
        | inl f ↦ above (ap resolve pushed ∙ resolve-dots p c f)
        | inr f ↦
            let plain : IsPlain c = ground (arith, e, f, h) in
            child plain (ap resolve pushed ∙ resolve-child p c plain)
      ]
]
