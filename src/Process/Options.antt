-- ===== src/Process/Options.antt =====
-- pkg/nanokube/errors.go, and the paths of pkg/nanokube/options.go. `filepath` is a parameter. The
-- text of a joined error has each error on a line of its own.
use nanokube.Prelude.{
  ℕ, ◌≡◌, refl, sym, ap, ◌∙◌, subst, ◌↔◌, ◌⊎◌, inl, inr, Bool, true, false, ◌&&◌, not, Option, none,
  some, List, [], ◌∷◌, ◌++◌, ◌==◌, ==_iff, Str, str, has_prefix, has_prefix-append, Dict, lookup,
  insert,
}
use mathlib.Core.List.{append-nil, append_assoc}
use nanokube.Tags.Decimal.{ℤ, pos, negsuc, format_int}

pub record ErrorImpl : Type 0 where
  pub code : ℤ
  pub err : Option Str
  pub command : List Str

abbrev pub new_error : Str → ErrorImpl
new_error e = record { code = negsuc 0; err = some e; command = [] }

unfoldable pub with_code : ℤ → ErrorImpl → ErrorImpl
with_code code e = record e { code = code }

abbrev pub joined_error : Option Str → Option Str → Option Str
joined_error old none = old
joined_error none (some err) = some err
joined_error (some old) (some err) = some (old ++ (10 ∷ err))

unfoldable pub with_error : Option Str → ErrorImpl → ErrorImpl
with_error err e = record e { err = joined_error e.err err }

unfoldable pub with_errors : List (Option Str) → ErrorImpl → ErrorImpl
unfolding with_error
with_errors [] e = e
with_errors (err ∷ errs) e = with_errors errs (with_error err e)

unfoldable pub with_command : List Str → ErrorImpl → ErrorImpl
with_command cmd e = record e { command = cmd }

abbrev pub exit_status : ErrorImpl → ℤ
exit_status e = e.code

abbrev pub exited_by : ℤ → Bool
exited_by (pos n) = true
exited_by (negsuc n) = not (n == 0)

unfoldable pub exited : ErrorImpl → Bool
exited e = exited_by e.code

unfoldable pub spaced : List Str → Str
spaced [] = []
spaced (s ∷ []) = s
spaced (s ∷ t ∷ ss) = s ++ (b' ' ∷ spaced (t ∷ ss))

abbrev pub command_text : List Str → ℤ → Option Str → Str
command_text cmd code none =
    str "command " ++ (spaced cmd ++ (str " exited with code " ++ format_int code))
command_text cmd code (some err) =
    str "command "
    ++ (spaced cmd ++ (str " exited with code " ++ (format_int code ++ (str ": " ++ err))))

abbrev pub nil_text : Option Str → Str
nil_text none = str "<nil>"
nil_text (some err) = err

abbrev pub text_by : List Str → ℤ → Option Str → Str
text_by [] code err =
    str "nanokube error: " ++ (nil_text err ++ (str " (code: " ++ (format_int code ++ str ")")))
text_by (c ∷ cmd) code err = command_text (c ∷ cmd) code err

-- String and Error.
unfoldable pub error_string : ErrorImpl → Str
unfolding spaced
error_string e = text_by e.command e.code e.err

-- The data directory, and the directories in it that were made.
pub record OptionsImpl : Type 0 where
  pub data_dir : Str
  pub dirs : Dict Str

pub record FilePath : Type 0 where
  pub join : Str → Str → Str
  pub clean : Str → Str

module _ (path : FilePath) where
  abbrev pub dir_or_new : Str → Option Str → OptionsImpl → OptionsImpl × Str
  dir_or_new name (some dir) o = (o, dir)
  dir_or_new name none o =
      let dir = path.join o.data_dir name in (record o { dirs = insert name dir o.dirs }, dir)

  -- DataDirAt.
  unfoldable pub data_dir_at : Str → OptionsImpl → OptionsImpl × Str
  unfolding lookup insert
  data_dir_at name o = dir_or_new name (lookup name o.dirs) o

  -- FilePathAt.
  abbrev pub file_path_at : Str → OptionsImpl → Str
  file_path_at file o = path.join o.data_dir file

  -- InDataDir, on a system whose separator is the slash.
  unfoldable pub in_data_dir : Str → OptionsImpl → Bool
  unfolding has_prefix
  in_data_dir p o = has_prefix (path.clean p ++ str "/") (path.clean o.data_dir ++ str "/")

-- One text is another, or stands below it.
abbrev pub AtOrBelow : Str → Str → Type 0
AtOrBelow p dir = (p ≡ dir) ⊎ ((rest : Str) × (p ≡ dir ++ (b'/' ∷ rest)))

both_true : (a b : Bool) → (a && b) ≡ true → (a ≡ true) × (b ≡ true)
both_true true b h = (refl, h)
both_true false b h = cc

below_next :
    (c d : ℕ) (p dir : Str) → (c == d) ≡ true → AtOrBelow p dir → AtOrBelow (c ∷ p) (d ∷ dir)
below_next c d p dir e (inl q) = inl (λ i. (==_iff c d).0 e i ∷ q i)
below_next c d p dir e (inr (rest, q)) = inr (rest, λ i. (==_iff c d).0 e i ∷ q i)

has_prefix-AtOrBelow :
    (p dir : Str) → has_prefix (p ++ str "/") (dir ++ str "/") ≡ true → AtOrBelow p dir
unfolding has_prefix
has_prefix-AtOrBelow [] [] h = inl refl
has_prefix-AtOrBelow (c ∷ p) [] h =
    inr (p, ap (λ x. x ∷ p) ((==_iff c b'/').0 (both_true (c == b'/') _ h).0))
has_prefix-AtOrBelow [] (d ∷ []) h = absurd (cc (both_true (b'/' == d) _ h).1)
has_prefix-AtOrBelow [] (d ∷ e ∷ dir) h = absurd (cc (both_true (b'/' == d) _ h).1)
has_prefix-AtOrBelow (c ∷ p) (d ∷ dir) h =
    let both = both_true (c == d) _ h in
    below_next c d p dir both.0 (has_prefix-AtOrBelow p dir both.1)

AtOrBelow-has_prefix :
    (p dir : Str) → AtOrBelow p dir → has_prefix (p ++ str "/") (dir ++ str "/") ≡ true
AtOrBelow-has_prefix p dir (inl e) =
    subst (λ l. has_prefix (l ++ str "/") (dir ++ str "/") ≡ true) (sym e)
      (subst (λ l. has_prefix l (dir ++ str "/") ≡ true) (append-nil (dir ++ str "/"))
        (has_prefix-append (dir ++ str "/") []))
AtOrBelow-has_prefix p dir (inr (rest, e)) =
    subst (λ l. has_prefix (l ++ str "/") (dir ++ str "/") ≡ true) (sym e)
      (subst (λ l. has_prefix l (dir ++ str "/") ≡ true)
        (append_assoc dir (str "/") (rest ++ str "/")
          ∙ sym (append_assoc dir (b'/' ∷ rest) (str "/")))
        (has_prefix-append (dir ++ str "/") (rest ++ str "/")))

-- InDataDir holds exactly of the paths that are, cleaned, the data directory or below it; a name
-- that only begins like the directory's is not below it.
pub in_data_dir-AtOrBelow :
    (path : FilePath) (p : Str) (o : OptionsImpl)
    → (in_data_dir path p o ≡ true) ↔ AtOrBelow (path.clean p) (path.clean o.data_dir)
unfolding in_data_dir
in_data_dir-AtOrBelow path p o = (
  has_prefix-AtOrBelow (path.clean p) (path.clean o.data_dir),
  AtOrBelow-has_prefix (path.clean p) (path.clean o.data_dir),
)
