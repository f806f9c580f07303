-- ===== src/Tests/Names.antt =====
-- The theorems on the names of tasks.
use francois_gingras_master.Common.{◌≡◌, refl, replicate, [], ◌∷◌, pos, negsuc, done, arith}
use francois_gingras_master.System.Repository.{
  Repository, repository_set_name, repository_get_id, search_name, repository_get_id-set_name,
}

abbrev fresh : Repository
fresh = record { task_name = replicate 30 (replicate 100 0); task_has_name = replicate 100 0 }

none_before :
    search_name (100 ∷ 98 ∷ []) (replicate 3 0) (replicate 3 (replicate 100 0)) 0 ≡ done (negsuc 0)
unfolding search_name
none_before = refl

repository_get_id-set_name_example :
    (r' : Repository) × (repository_set_name fresh (100 ∷ 98 ∷ []) 3 ≡ done r')
    × (repository_get_id r' (100 ∷ 98 ∷ []) ≡ done (pos 3))
repository_get_id-set_name_example =
    repository_get_id-set_name fresh (100 ∷ 98 ∷ []) 3 refl refl (omega arith)
      (omega arith, (omega arith, tt)) (omega arith) none_before
