-- ===== src/TalentPools/Tests.antt =====
-- Instances of the theorems about talent pools.
use recruit_saas.Common.{◌≡◌, ◌⊎◌, ◌==◌, ◌&&◌, some, true, false, [], ◌∷◌, any, Has}
use recruit_saas.Schema.{Db, Application}
use recruit_saas.Prisma.{Error, ok, err}
use recruit_saas.Memory.{in_memory}
use recruit_saas.Sample.{sample}
use recruit_saas.TalentPools.{PoolDetail, get_one, add_candidate}
use recruit_saas.TalentPools.Members.{is_member, with_members, add_candidate_sound}

abbrev pooled : Db
pooled = record sample {
  talent_pools = record { id = 70; organization_id = 1; name = "Later" } ∷ [];
}

add_candidate_sound_example :
    ((e : Error) × (add_candidate (some 1) 70 5 pooled ≡ (err e, pooled)))
    ⊎ ((a : Application) × Has a pooled.applications
        × (a.candidate_id ≡ 5)
        × (a.organization_id ≡ 1)
        × (any (λ t. t.id == 70 && t.organization_id == 1) pooled.talent_pools ≡ true)
        × (any (is_member 70 5) pooled.pool_candidates ≡ false)
        × let after = with_members (record { talent_pool_id = 70; candidate_id = 5 } ∷ []) pooled in
          ((d : PoolDetail) × (add_candidate (some 1) 70 5 pooled ≡ (ok d, after))
            × (get_one (some 1) 70 after ≡ (ok d, after))))
add_candidate_sound_example = add_candidate_sound 1 70 5 pooled
