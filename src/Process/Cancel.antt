-- ===== src/Process/Cancel.antt =====
-- Cancel, CancelErr and Errors of pkg/nanokube.go. A cancellation ends the goroutine that makes it,
-- since every reason is a v1.Error; what stands under its Once is done then. A goroutine that ended
-- comes to no value.
use nanokube.Prelude.{
  Bool, true, false, Option, none, some, List, [], ◌∷◌, ◌++◌, Str, str, Dict, or_else,
}

-- The part of nanokubeImpl that the cancellation and the files of the process use: what stands
-- under a Once is none or false until it has run.
pub record Nano : Type 0 where
  -- the first reason, if the context is cancelled
  pub cause : Option Str
  pub cancel_errs : List Str
  pub pidfile_written : Bool
  pub machine_id : Option Str
  pub cert_key : Bool
  pub root_ca : Bool
  -- the files of the data directory, by their paths
  pub files : Dict Str

-- A value, or the end of the goroutine.
pub data Ended {ℓ} (A : Type ℓ) : Type ℓ where
  comes : A → Ended A
  exits : Ended A

abbrev pub new_nano : Dict Str → Nano
new_nano files = record {
  cause = none;
  cancel_errs = [];
  pidfile_written = false;
  machine_id = none;
  cert_key = false;
  root_ca = false;
  files = files;
}

-- What the system does: the file store behind a write, a remove, and the errors.
pub record System : Type 0 where
  pub write : Str → Str → Dict Str → Dict Str × Option Str
  pub remove : Str → Dict Str → Dict Str

-- NewError's text: the reason with the code -1.
abbrev pub error_text : Str → Str
error_text reason = str "nanokube error: " ++ reason ++ str " (code: -1)"

abbrev pub without_pidfile : System → Str → Bool → Dict Str → Dict Str
without_pidfile sys pid_path true files = sys.remove pid_path files
without_pidfile sys pid_path false files = files

-- Cancel, with the error's text.
unfoldable pub cancel_nano : System → Str → Str → Nano → Nano
cancel_nano sys pid_path reason k = record k {
  cancel_errs = k.cancel_errs ++ (reason ∷ []);
  files = without_pidfile sys pid_path k.pidfile_written k.files;
  cause = or_else k.cause (some reason);
}

-- CancelErr.
unfoldable pub cancel_err : System → Str → Str → Nano → Nano
unfolding cancel_nano
cancel_err sys pid_path reason k = cancel_nano sys pid_path (error_text reason) k

-- Errors, which copies the list.
unfoldable pub errors : Nano → List Str
errors k = k.cancel_errs
