-- ===== src/Process/Identity/Restart.antt =====
-- What a process that starts again finds of the one before.
use nanokube.Prelude.{
  ◌≡◌, refl, sym, ap, ◌∙◌, subst, ◌≢◌, false, Option, none, some, [], ◌∷◌, ◌++◌, Str, str, same,
  Dict, lookup,
}
use nanokube.Process.Cancel.{Nano, Ended, comes, exits, System}
use nanokube.Process.Identity.{Paths, id_in, id_persisted, id_or_new, id_once, machine_id}

-- `os.WriteFile`: the text is in the file, and the other files are as they were.
pub record Writes (sys : System) : Type 0 where
  pub kept :
      (path text : Str) (files : Dict Str)
      → (sys.write path text files).1 ≡ none
      → lookup path (sys.write path text files).0 ≡ some text
  pub others :
      (path text other : Str) (files : Dict Str)
      → path ≢ other
      → lookup other (sys.write path text files).0 ≡ lookup other files

module _ (sys : System) (p : Paths) (writes : Writes sys) where
  -- The id that a process comes to is the one of its file, and is not empty.
  abbrev Holds : Nano × Ended Str → Type 0
  Holds (k, comes id) = (id_in sys p (lookup p.machine_id_path k.files) ≡ id) × (same id [] ≡ false)
  Holds (k, exits) = Unit

  id_persisted-Holds :
      (uuid : Str) (k : Nano)
      → p.trim_space (uuid ++ str "\n") ≡ uuid
      → same uuid [] ≡ false
      → Holds (id_persisted sys p uuid k (sys.write p.machine_id_path (uuid ++ str "\n") k.files))
  id_persisted-Holds uuid k trims filled =
      by_write (sys.write p.machine_id_path (uuid ++ str "\n") k.files) refl
    where
      by_write :
          (w : Dict Str × Option Str)
          → sys.write p.machine_id_path (uuid ++ str "\n") k.files ≡ w
          → Holds (id_persisted sys p uuid k w)
      by_write (files, none) e =
          let there : lookup p.machine_id_path files ≡ some (uuid ++ str "\n") =
            ap (λ (w : Dict Str × Option Str). lookup p.machine_id_path w.0) (sym e)
            ∙ writes.kept p.machine_id_path (uuid ++ str "\n") k.files
                (ap (λ (w : Dict Str × Option Str). w.1) e) in
          (ap (id_in sys p) there ∙ trims, filled)
      by_write (files, some l) e = tt

  machine_id-Holds :
      (uuid : Str) (k : Nano)
      → p.trim_space (uuid ++ str "\n") ≡ uuid
      → same uuid [] ≡ false
      → k.machine_id ≡ none
      → Holds (machine_id sys p uuid k)
  unfolding machine_id
  machine_id-Holds uuid k trims filled fresh =
      subst (λ m. Holds (id_once sys p uuid m k)) (sym fresh)
        (by_file (id_in sys p (lookup p.machine_id_path k.files)) refl)
    where
      by_file :
          (id : Str)
          → id_in sys p (lookup p.machine_id_path k.files) ≡ id
          → Holds (id_or_new sys p uuid id k)
      by_file [] e = id_persisted-Holds uuid k trims filled
      by_file (c ∷ id) e = (e, refl)

  id_or_new-filled :
      (uuid id : Str) (k : Nano)
      → same id [] ≡ false
      → id_or_new sys p uuid id k ≡ (record k { machine_id = some id }, comes id)
  unfolding same
  id_or_new-filled uuid [] k h = cc
  id_or_new-filled uuid (c ∷ id) k h = refl

  -- A UUID is not empty and has no space around it, and what is written to a file is in it and in
  -- no other. If a process that starts comes to a machine id, then a process that starts later from
  -- the same files comes to the same id, whatever UUID it would make, and writes nothing.
  pub machine_id-machine_id :
      (uuid other id : Str) (k k' later : Nano)
      → p.trim_space (uuid ++ str "\n") ≡ uuid
      → same uuid [] ≡ false
      → k.machine_id ≡ none
      → machine_id sys p uuid k ≡ (k', comes id)
      → later.machine_id ≡ none
      → later.files ≡ k'.files
      → machine_id sys p other later ≡ (record later { machine_id = some id }, comes id)
  unfolding machine_id
  machine_id-machine_id uuid other id k k' later trims filled fresh first_id new same_files =
      let held : Holds (k', comes id) =
        subst Holds first_id (machine_id-Holds uuid k trims filled fresh) in
      ap (λ m. id_once sys p other m later) new
      ∙ ap (λ i. id_or_new sys p other i later)
          (ap (λ f. id_in sys p (lookup p.machine_id_path f)) same_files ∙ held.0)
      ∙ id_or_new-filled other id later held.1
