-- ===== src/Main.antt =====
-- src/main.c: the command line.
use btb.HandshakeMsg.{codes}
use btb.Client.Download.{Machine, Download}
use btb.Base.{
  ℕ, Bool, true, false, List, [], ◌∷◌, Option, none, some, ◌≡◌, refl, ◌||◌, ◌≢◌, ◌↔◌, ◌⊎◌, inl, inr,
  sym, ◌∙◌, ap, arith, same_bytes, same_bytes_refl, same_bytes-ne, if◌then◌else◌,
}

-- What `main` does with its arguments; a download has the name of the torrent file.
pub data Action : Type 0 where
  help version : Action
  download : List ℕ → Action

-- `strcmp(argv[1], text) == 0`
abbrev is_option : List ℕ → List ℕ → Bool
is_option arg text = same_bytes arg text

-- The tests of `main`, with one argument behind the program's name.
abbrev one_argument : List ℕ → Action
one_argument arg =
    if is_option arg (codes "-h") || is_option arg (codes "--help")
    then help
    else (if is_option arg (codes "-v") || is_option arg (codes "--version")
        then version
        else download arg)

unfoldable pub action : List (List ℕ) → Action
action [] = help
action (program ∷ []) = help
action (program ∷ arg ∷ []) = one_argument arg
action (program ∷ arg ∷ more ∷ rest) = help

-- What `main` returns.
abbrev pub exit_status : Action → ℕ
exit_status help = 1
exit_status version = 2
exit_status (download arg) = 0

-- How a run of the program can come out: the status, and the result of the download if there is one.
pub data Main (machine : List ℕ → Machine) (argv : List (List ℕ)) (status : ℕ)
    (result : Option Bool) : Type 0 where
  told :
      action argv ≡ help ⊎ action argv ≡ version
      → status ≡ exit_status (action argv)
      → result ≡ none
      → Main machine argv status result
  ran :
      (arg : List ℕ) (contents : Option (List ℕ)) (r : Bool)
      → action argv ≡ download arg
      → Download (machine arg) (contents, r)
      → status ≡ exit_status (action argv)
      → result ≡ some r
      → Main machine argv status result

-- The name of the torrent file, if there is one.
abbrev name_of : List ℕ → Action → List ℕ
name_of other help = other
name_of other version = other
name_of other (download arg) = arg

status_of : (a : Action) → (a ≡ help) ⊎ (a ≡ version) → exit_status a ≢ 0
status_of a (inl e) = λ z. absurd (omega (arith, ap exit_status e, z))
status_of a (inr e) = λ z. absurd (omega (arith, ap exit_status e, z))

-- Whatever a run of the program does, its status is 0 exactly if a download was made, whether the
-- download has returned true or false.
pub Main-status :
    (machine : List ℕ → Machine) (argv : List (List ℕ)) (status : ℕ) (result : Option Bool)
    → Main machine argv status result
    → (status ≡ 0) ↔ ((r : Bool) × (result ≡ some r))
Main-status machine argv status result (told which e none_made) =
    (λ z. absurd (status_of (action argv) which (sym e ∙ z)), λ (r, made). absurd cc)
Main-status machine argv status result (ran arg contents r does out e made) =
    (λ z. (r, made), λ any. e ∙ ap exit_status does)

is_option-false : (arg text : List ℕ) → is_option arg text ≡ false → arg ≢ text
is_option-false arg text e same =
    let is_same : same_bytes arg text ≡ true = rw same (same_bytes_refl text) in cc

tests_false :
    (a b c d : Bool) (given arg : List ℕ)
    → (if a || b then help else (if c || d then version else download given)) ≡ download arg
    → (a ≡ false) × (b ≡ false) × (c ≡ false) × (d ≡ false) × (given ≡ arg)
tests_false true b c d given arg e = cc
tests_false false true c d given arg e = cc
tests_false false false true d given arg e = cc
tests_false false false false true given arg e = cc
tests_false false false false false given arg e = (refl, refl, refl, refl, ap (name_of given) e)

-- The program downloads exactly if it is given one argument that is none of the four options.
pub action_iff :
    (argv : List (List ℕ)) (arg : List ℕ)
    → (action argv ≡ download arg) ↔ (
        (program : List ℕ) × (argv ≡ program ∷ arg ∷ [])
        × (arg ≢ codes "-h")
        × (arg ≢ codes "--help")
        × (arg ≢ codes "-v")
        × (arg ≢ codes "--version"))
unfolding action
action_iff [] arg = (λ e. cc, λ any. cc)
action_iff (program ∷ []) arg = (λ e. cc, λ any. cc)
action_iff (program ∷ given ∷ more ∷ rest) arg = (λ e. cc, λ any. cc)
action_iff (program ∷ given ∷ []) arg = (
  λ e.
      let (h, help_off, v, version_off, same) =
        tests_false (is_option given (codes "-h")) (is_option given (codes "--help"))
          (is_option given (codes "-v")) (is_option given (codes "--version")) given arg e in
      (
        program,
        rw same refl,
        rw (← same) (is_option-false given (codes "-h") h),
        rw (← same) (is_option-false given (codes "--help") help_off),
        rw (← same) (is_option-false given (codes "-v") v),
        rw (← same) (is_option-false given (codes "--version") version_off),
      ),
  λ (p, e, h, help_off, v, version_off).
      let same : given ≡ arg = cc in
      rw
        (
          same,
          same_bytes-ne arg (codes "-h") h,
          same_bytes-ne arg (codes "--help") help_off,
          same_bytes-ne arg (codes "-v") v,
          same_bytes-ne arg (codes "--version") version_off,
        )
        refl,
)
