-- ===== src/Run/Sandbox.antt =====
-- What a command line asks of Bubblewrap, read argument by argument as its manual has the options.
use mathlib.Core.List.{append-nil}
use pakstak.Base.{
  Text, codes, ◌==◌, ◌||◌, List, [], ◌∷◌, ◌++◌, ◌≡◌, refl, ap, ◌∙◌, map, if◌then◌else◌,
}
use pakstak.Fs.Paths.{FilePath}
use pakstak.Run.{Arg, text, path, overlay_args, lock_args, root_args, fixed_args, bwrap_args}

-- What an option is followed by; a word is no option, and begins the command to run.
pub data Kind : Type 0 where
  flag overlay_source overlay_target bind_source lock_target mount_target word : Kind

unfoldable pub kind : Text → Kind
kind o =
    if o == codes "--clearenv" || o == codes "--unshare-all"
    then flag
    else if o == codes "--overlay-src"
    then overlay_source
    else if o == codes "--ro-overlay"
    then overlay_target
    else if o == codes "--ro-bind"
    then bind_source
    else if o == codes "--lock-file"
    then lock_target
    else if o == codes "--proc" || o == codes "--dev" || o == codes "--tmpfs" || o == codes "--dir"
    then mount_target
    else word

-- All that is asked for, each in its order.
pub record Sandbox : Type 0 where
  pub flags : List Text
  -- The directories of an overlay, and where it is mounted.
  pub sources : List FilePath
  pub overlays : List Text
  pub binds : List (FilePath × Text)
  pub locked : List Text
  pub mounts : List (Text × Text)
  pub command : List Text

abbrev pub nothing : Sandbox
nothing = record {
  flags = [];
  sources = [];
  overlays = [];
  binds = [];
  locked = [];
  mounts = [];
  command = [];
}

abbrev pub texts : List Arg → List Text
texts [] = []
texts (text t ∷ args) = t ∷ texts args
texts (path p ∷ args) = texts args

-- What comes next: an option or the command, or what an option is followed by.
pub data Expected : Type 0 where
  anything : Expected
  a_source a_target a_bind a_lock : Expected
  bound : FilePath → Expected
  mounted : Text → Expected

unfoldable pub follow : Expected → List Arg → Sandbox
follow e [] = nothing
follow anything (text o ∷ args) = elim (kind o) [
  | flag ↦ let s = follow anything args in record s { flags = o ∷ s.flags }
  | overlay_source ↦ follow a_source args
  | overlay_target ↦ follow a_target args
  | bind_source ↦ follow a_bind args
  | lock_target ↦ follow a_lock args
  | mount_target ↦ follow (mounted o) args
  | word ↦ record nothing { command = o ∷ texts args }
]
follow a_source (path p ∷ args) =
    let s = follow anything args in record s { sources = p ∷ s.sources }
follow a_target (text t ∷ args) =
    let s = follow anything args in record s { overlays = t ∷ s.overlays }
follow a_bind (path p ∷ args) = follow (bound p) args
follow (bound p) (text t ∷ args) =
    let s = follow anything args in record s { binds = (p, t) ∷ s.binds }
follow a_lock (text t ∷ args) = let s = follow anything args in record s { locked = t ∷ s.locked }
follow (mounted o) (text t ∷ args) =
    let s = follow anything args in record s { mounts = (o, t) ∷ s.mounts }
follow e (a ∷ args) = nothing

abbrev pub sandbox : List Arg → Sandbox
sandbox args = follow anything args

-- One layer is bound at the root; of more, an overlay is mounted there.
abbrev pub with_root : List FilePath → Sandbox → Sandbox
with_root (p ∷ []) s = record s { binds = (p, codes "/") ∷ s.binds }
with_root ps s = record s { sources = ps ++ s.sources; overlays = codes "/" ∷ s.overlays }

-- The sandbox of layers at `ps`, with lock files and their places in it.
abbrev pub expected : List FilePath → List (FilePath × Text) → List Text → Sandbox
expected ps locks command = with_root ps (record {
  flags = codes "--clearenv" ∷ codes "--unshare-all" ∷ [];
  sources = [];
  overlays = [];
  binds = locks;
  locked = map (λ x. x.1) locks;
  mounts =
      (codes "--proc", codes "/proc")
      ∷ (codes "--dev", codes "/dev")
      ∷ (codes "--tmpfs", codes "/tmp")
      ∷ (codes "--dir", codes "/tmp/.layer_locks")
      ∷ [];
  command = command;
})

texts-map : (command : List Text) → texts (map text command) ≡ command
texts-map [] = refl
texts-map (c ∷ command) = ap (λ cs. c ∷ cs) (texts-map command)

sandbox-command :
    (c : Text) (command : List Text)
    → kind c ≡ word
    → sandbox (map text (c ∷ command)) ≡ record nothing { command = c ∷ command }
unfolding follow
sandbox-command c command h =
    rw (h, follow) (ap (λ cs. record nothing { command = c ∷ cs }) (texts-map command))

sandbox-lock_args :
    (locks : List (FilePath × Text)) (args : List Arg)
    → sandbox (lock_args locks ++ args) ≡ (
        let s = sandbox args in
        record s { binds = locks ++ s.binds; locked = map (λ x. x.1) locks ++ s.locked })
unfolding follow lock_args kind ◌==◌
sandbox-lock_args [] args = refl
sandbox-lock_args ((host, place) ∷ locks) args =
    ap (λ (s : Sandbox). record s { binds = (host, place) ∷ s.binds; locked = place ∷ s.locked })
      (sandbox-lock_args locks args)

sandbox-overlay_args :
    (ps : List FilePath) (args : List Arg)
    → sandbox (overlay_args ps ++ args) ≡ (
        let s = sandbox args in
        record s { sources = ps ++ s.sources; overlays = codes "/" ∷ s.overlays })
unfolding follow overlay_args kind ◌==◌
sandbox-overlay_args [] args = refl
sandbox-overlay_args (p ∷ ps) args =
    ap (λ (s : Sandbox). record s { sources = p ∷ s.sources }) (sandbox-overlay_args ps args)

sandbox-root_args :
    (ps : List FilePath) (args : List Arg)
    → sandbox (root_args ps ++ args) ≡ with_root ps (sandbox args)
unfolding follow root_args kind ◌==◌
sandbox-root_args [] args = sandbox-overlay_args [] args
sandbox-root_args (p ∷ []) args = refl
sandbox-root_args (p ∷ q ∷ ps) args = sandbox-overlay_args (p ∷ q ∷ ps) args

sandbox-locks :
    (locks : List (FilePath × Text)) (c : Text) (command : List Text)
    → kind c ≡ word
    → sandbox (lock_args locks ++ map text (c ∷ command))
      ≡ record nothing { binds = locks; locked = map (λ x. x.1) locks; command = c ∷ command }
sandbox-locks locks c command h =
    sandbox-lock_args locks (map text (c ∷ command))
    ∙ ap
        (λ (s : Sandbox). record s {
          binds = locks ++ s.binds;
          locked = map (λ x. x.1) locks ++ s.locked;
        })
        (sandbox-command c command h)
    ∙ ap
        (λ bs. record nothing {
          binds = bs;
          locked = map (λ x. x.1) locks ++ [];
          command = c ∷ command;
        })
        (append-nil locks)
    ∙ ap (λ ts. record nothing { binds = locks; locked = ts; command = c ∷ command })
        (append-nil (map (λ x. x.1) locks))

abbrev with_flags : Sandbox → Sandbox
with_flags s = record s { flags = codes "--clearenv" ∷ codes "--unshare-all" ∷ s.flags }

with_flags-with_root :
    (ps : List FilePath) (s : Sandbox) → with_flags (with_root ps s) ≡ with_root ps (with_flags s)
with_flags-with_root [] s = refl
with_flags-with_root (p ∷ []) s = refl
with_flags-with_root (p ∷ q ∷ ps) s = refl

abbrev with_mounts : Sandbox → Sandbox
with_mounts s = record s {
  mounts =
      (codes "--proc", codes "/proc")
      ∷ (codes "--dev", codes "/dev")
      ∷ (codes "--tmpfs", codes "/tmp")
      ∷ (codes "--dir", codes "/tmp/.layer_locks")
      ∷ s.mounts;
}

-- A command line is read as the sandbox that is expected, where the command does not begin with an
-- option of Bubblewrap.
pub sandbox-bwrap_args :
    (ps : List FilePath) (locks : List (FilePath × Text)) (c : Text) (command : List Text)
    → kind c ≡ word
    → sandbox (bwrap_args ps locks (c ∷ command)) ≡ expected ps locks (c ∷ command)
unfolding follow kind ◌==◌
sandbox-bwrap_args ps locks c command h =
    ap with_flags (
      sandbox-root_args ps (fixed_args ++ (lock_args locks ++ map text (c ∷ command)))
      ∙ ap (λ s. with_root ps (with_mounts s)) (sandbox-locks locks c command h))
    ∙ with_flags-with_root ps _
