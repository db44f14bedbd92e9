-- ===== src/Jobs/Tests.antt =====
-- Runs of the job calls on the sample database, and instances of the theorems about them.
use recruit_saas.Common.{
  none, String, ◌+◌, ◌≤◌, Bool, All, Has, length, count, ◌≡◌, ◌↔◌, refl, some, true, [], ◌∷◌, arith,
}
use recruit_saas.Schema.{Job}
use recruit_saas.Prisma.{Sorted, ok, err, conflict}
use recruit_saas.Memory.{in_memory}
use recruit_saas.Sample.{sample}
use recruit_saas.Requests.{Listing}
use recruit_saas.Jobs.{
  PublicJobSearch, newest_first, search, search_where, publish, require_job, set_stages,
}
use recruit_saas.Jobs.Machine.{JobStep}
use recruit_saas.Jobs.Lifecycle.{Call, closes, replaces, serve, serve-JobStep}
use recruit_saas.Jobs.Stages.{References}
use recruit_saas.Jobs.References.{set_stages-References}
use recruit_saas.Jobs.Search.{IsPublic, Meets, search_sound}
use recruit_saas.Jobs.Published.{AllStaged, serve-AllStaged}

publish_twice : (publish 30 (some 1) 10 sample).0 ≡ err conflict
unfolding publish require_job
publish_twice = refl

abbrev renames : Call
renames = replaces (λ n. 200 + n) (some 1) 10 ("Applied" ∷ "Offer" ∷ [])

serve-JobStep_example : JobStep (some 1) sample.jobs (serve (closes 30 (some 1) 10) sample).jobs
serve-JobStep_example = serve-JobStep (closes 30 (some 1) 10) sample

set_stages-References_example :
    References (set_stages (λ n. 200 + n) 10 ("Applied" ∷ "Offer" ∷ []) sample).1
set_stages-References_example =
    set_stages-References (λ n. 200 + n) 10 ("Applied" ∷ "Offer" ∷ []) sample
      (((λ e. omega arith), tt), (tt, tt)) (refl, (refl, tt))

serve-AllStaged_example : AllStaged (serve renames sample)
serve-AllStaged_example =
    serve-AllStaged renames sample (λ e. cc) (((λ e. omega arith), tt), (tt, tt)) tt
      ((λ e. refl), tt)

abbrev anything : PublicJobSearch
anything = record {
  keyword = some "Eng";
  location = some "";
  employment_type = none;
  organization_id = some 1;
  page = record { page = 1; page_size = 20 };
}

-- A search that finds every text in every other.
abbrev lenient : String → String → Bool
lenient value text = true

search_sound_example :
    (found : Listing Job) × (search lenient anything sample ≡ (ok found, sample))
    × All (λ j. IsPublic sample j × Meets lenient anything j) found.rows
    × Sorted newest_first found.rows
    × (length found.rows ≤ 20)
    × (found.total ≡ count (search_where lenient anything sample.organizations) sample.jobs)
    × ((j : Job)
        → Has j sample.jobs
        → (search_where lenient anything sample.organizations j ≡ true)
          ↔ (IsPublic sample j × Meets lenient anything j))
search_sound_example = search_sound lenient anything sample
