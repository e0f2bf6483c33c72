-- ===== src/Docker/Volumes/Store.antt =====
-- A small cluster and runtime to try volumes on: two maps.
use nanokube.Prelude.{
  ◌≡◌, refl, inl, inr, none, [], ◌∷◌, arith, if◌then◌else◌, Bool-cases, Str, same, same_iff, Dict,
  lookup, insert, lookup-insert, ok,
}
use nanokube.Docker.Volumes.{PersistentVolume, Cluster}
use nanokube.Docker.Volumes.Release.{pv_found, Keeps}

unfoldable pub erase : {V : Type 0} → Str → Dict V → Dict V
erase k [] = []
erase k ((j, v) ∷ m) = let rest = erase k m in if same j k then rest else (j, v) ∷ rest

lookup-erase :
    {V : Type 0} (k j : Str) (m : Dict V)
    → lookup j (erase k m) ≡ (if same k j then none else lookup j m)
unfolding lookup erase
lookup-erase k j [] = elim (Bool-cases (same k j)) [ inl e ↦ rw e refl | inr e ↦ rw e refl ]
lookup-erase k j ((i, v) ∷ m) =
    ground (arith, lookup-erase k j m, same_iff i k, same_iff k j, same_iff i j)

pub record Store : Type 0 where
  pub pvs : Dict PersistentVolume
  pub volumes : Dict (Dict Str)

abbrev pub cluster : Cluster Store
cluster = record {
  apply_pv = λ s pv. (record s { pvs = insert pv.name pv s.pvs }, ok pv.name);
  get_pv = λ s name. pv_found (lookup name s.pvs);
  delete_pv = λ s name. (record s { pvs = erase name s.pvs }, none);
  volume_create = λ s name labels. (record s { volumes = insert name labels s.volumes }, none);
  volume_remove = λ s name. (record s { volumes = erase name s.volumes }, none);
}

pub cluster-Keeps : Keeps cluster (λ s. s.pvs) (λ s. s.volumes)
cluster-Keeps = record {
  applies = λ s pv j. (refl, lookup-insert pv.name j pv s.pvs, refl);
  gets = λ s name. refl;
  deletes = λ s name j. (lookup-erase name j s.pvs, refl);
  deletes_fine = λ s name. tt;
  creates = λ s name labels j. (lookup-insert name j labels s.volumes, refl);
  removes = λ s name j. (lookup-erase name j s.volumes, refl);
  removes_fine = λ s name. tt;
}
