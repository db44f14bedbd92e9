-- ===== src/Applications/Invariant.antt =====
-- What holds of the application table after any history of calls.
use recruit_saas.Common.{
  ◌≡◌, refl, sym, ap, subst, ◌∙◌, ◌≢◌, ◌⊎◌, inl, inr, none, some, Bool, true, false, List, [], ◌∷◌,
  arith, ◌==◌, ==_iff, Bool-cases, any, modify, Has, ◌↔◌, if◌then◌else◌,
}
use recruit_saas.Schema.{Db, Application, ApplicationStatus, application_active}
use recruit_saas.Prisma.{Prisma}
use recruit_saas.Prisma.Keys.{UniqueBy, eq_of_key}
use recruit_saas.Tables.{one_active_per_job_candidate}
use recruit_saas.Applications.Machine.{
  Actor, candidate, staff, Owns, KeepsKeys, Step, stay, apply, move,
}
use recruit_saas.Applications.History.{Call, actor, serve, serve-Step, History, here, after}

-- No two rows are active for the same job and candidate.
abbrev pub OneActive : List Application → Type 0
OneActive [] = Unit
OneActive (x ∷ xs) = (any (one_active_per_job_candidate x) xs ≡ false) × OneActive xs

-- `y` keeps the keys of `x`, and is active only if `x` is.
abbrev Follows : Application → Application → Type 0
Follows x y =
    (y.job_id ≡ x.job_id)
    × (y.candidate_id ≡ x.candidate_id)
    × (application_active y.status ≡ true → application_active x.status ≡ true)

one_active-Follows :
    (x x' y y' : Application)
    → Follows x x'
    → Follows y y'
    → one_active_per_job_candidate x y ≡ false
    → one_active_per_job_candidate x' y' ≡ false
one_active-Follows x x' y y' (j, c, a) (j', c', a') h =
    elim (Bool-cases (one_active_per_job_candidate x' y')) [
      | inr e ↦ e
      | inl e ↦ ground (arith, a (ground arith), a' (ground arith))
    ]

module _ (c : Application → Bool) (f : Application → Application) (keeps : KeepsKeys f) where
  changed-Follows : (x : Application) → Follows x (if c x then f x else x)
  changed-Follows x = elim (Bool-cases (c x)) [
    | inl e ↦ let (_, job, cand, _, closes) = keeps x in rw e (job, cand, closes)
    | inr e ↦ rw e (refl, refl, λ h. h)
  ]

  any-modify :
      (x x' : Application) (t : List Application)
      → Follows x x'
      → any (one_active_per_job_candidate x) t ≡ false
      → any (one_active_per_job_candidate x') (modify c f t) ≡ false
  any-modify x x' [] s h = refl
  any-modify x x' (y ∷ t) s h = ground (
    arith,
    one_active-Follows x x' y (if c y then f y else y) s (changed-Follows y) (ground arith),
    any-modify x x' t s (ground arith),
  )

  modify-OneActive : (t : List Application) → OneActive t → OneActive (modify c f t)
  modify-OneActive [] h = tt
  modify-OneActive (x ∷ t) h =
      (any-modify x (if c x then f x else x) t (changed-Follows x) h.0, modify-OneActive t h.1)

Step-OneActive : {who : Actor} {t u : List Application} → Step who t u → OneActive t → OneActive u
Step-OneActive (stay e) h = rw e h
Step-OneActive (apply a o s free e) h = rw e (free, h)
Step-OneActive {t = t} (move a f o has s keeps e) h =
    rw e (modify-OneActive (λ b. b.id == a.id) f keeps t h)

-- A row of another id is not changed.
Has-modify_other :
    (c : Application → Bool) (f : Application → Application) (r : Application)
    (t : List Application)
    → Has r t
    → c r ≡ false
    → Has r (modify c f t)
Has-modify_other c f r [] h e = h
Has-modify_other c f r (x ∷ t) (inl p) e = inl (ground arith)
Has-modify_other c f r (x ∷ t) (inr h) e = inr (Has-modify_other c f r t h e)

-- A row of the changed table was there before, or is a changed row.
Has-modify_cases :
    (c : Application → Bool) (f : Application → Application) (r : Application)
    (t : List Application)
    → Has r (modify c f t)
    → Has r t ⊎ ((x : Application) × Has x t × (c x ≡ true) × (r ≡ f x))
Has-modify_cases c f r [] h = absurd h
Has-modify_cases c f r (x ∷ t) (inl p) = elim (Bool-cases (c x)) [
  | inl e ↦ inr (x, inl refl, e, ground arith)
  | inr e ↦ inl (inl (ground arith))
]
Has-modify_cases c f r (x ∷ t) (inr h) = elim (Has-modify_cases c f r t h) [
  | inl has ↦ inl (inr has)
  | inr (y, has, e, q) ↦ inr (y, inr has, e, q)
]

abbrev Keyed : List Application → Type 0
Keyed t = UniqueBy (λ (a : Application). a.id) t

-- The row of the moved id is the row that the step found.
same_row :
    (a x : Application) (t : List Application)
    → Keyed t
    → Has a t
    → Has x t
    → (x.id == a.id) ≡ true
    → x ≡ a
same_row a x t u ha hx e =
    eq_of_key (λ (b : Application). b.id) x a t u hx ha ((==_iff x.id a.id).0 e)

other_row :
    (a r : Application) (t : List Application)
    → Keyed t
    → Has a t
    → Has r t
    → (r ≡ a → ⊥)
    → (r.id == a.id) ≡ false
other_row a r t u ha hr differ = elim (Bool-cases (r.id == a.id)) [
  | inl e ↦ absurd (differ (same_row a r t u ha hr e))
  | inr e ↦ e
]

Step-final :
    {who : Actor} {t u : List Application} (r : Application)
    → Step who t u
    → Keyed t
    → Has r t
    → r.status ≢ ApplicationStatus.active
    → Has r u
Step-final r (stay e) k h closed = rw e h
Step-final r (apply a o s free e) k h closed = rw e (inr h)
Step-final {t = t} r (move a f o has s keeps e) k h closed = rw e (
    Has-modify_other (λ b. b.id == a.id) f r t h
      (other_row a r t k has h (λ q. closed (ap (λ (b : Application). b.status) q ∙ s))))

Owns-of_keys :
    (who : Actor) (f : Application → Application) (a : Application)
    → KeepsKeys f
    → Owns who a
    → Owns who (f a)
Owns-of_keys (candidate c) f a keeps o = let (_, _, cand, _, _) = keeps a in cand ∙ o
Owns-of_keys (staff none) f a keeps o = o
Owns-of_keys (staff (some org)) f a keeps o = let (_, _, _, own, _) = keeps a in own ∙ o

-- A step neither changes nor makes a row that the actor does not own.
Step-foreign :
    {who : Actor} {t u : List Application} (r : Application)
    → Step who t u
    → Keyed t
    → ¬ Owns who r
    → Has r t ↔ Has r u
Step-foreign r (stay e) k foreign = rw e (λ h. h, λ h. h)
Step-foreign {who} {t} r (apply a o s free e) k foreign =
    rw e (inr, elim [ inl q ↦ absurd (foreign (subst (Owns who) (sym q) o)) | inr h ↦ h ])
Step-foreign {who} {t} r (move a f o has s keeps e) k foreign = rw e (
  (λ h.
      Has-modify_other (λ b. b.id == a.id) f r t h
        (other_row a r t k has h (λ q. foreign (subst (Owns who) (sym q) o)))),
  λ h. elim (Has-modify_cases (λ b. b.id == a.id) f r t h) [
    | inl before ↦ before
    | inr (x, hx, met, q) ↦ absurd (
        foreign (
          subst (Owns who) (sym q)
            (Owns-of_keys who f x keeps (subst (Owns who) (sym (same_row a x t k has hx met)) o))))
  ],
)

module _ ⦃p : Prisma⦄ where
  -- One call neither changes nor makes an application that its caller does not own: a candidate
  -- another candidate's, staff one of another organization. The ids in the table are distinct.
  pub serve-foreign :
      (c : Call) (db : Db) (r : Application)
      → Keyed db.applications
      → ¬ Owns (actor c) r
      → Has r db.applications ↔ Has r (serve c db).applications
  serve-foreign c db r k foreign = Step-foreign r (serve-Step c db) k foreign

  History-Keyed : {db db' : Db} → Keyed db.applications → History db db' → Keyed db'.applications
  History-Keyed k here = k
  History-Keyed k (after h c e k') = k'

  -- After any history of calls a candidate has at most one active application for a job, if it held
  -- at the start.
  pub History-OneActive :
      {db db' : Db} → OneActive db.applications → History db db' → OneActive db'.applications
  History-OneActive o here = o
  History-OneActive o (after {u = u} h c e k) =
      rw e (Step-OneActive (serve-Step c u) (History-OneActive o h))

  -- Withdrawn, rejected and hired are final: a row with such a status stays in the table unchanged
  -- through any history of calls.
  pub History-final :
      {db db' : Db} (r : Application)
      → Keyed db.applications
      → Has r db.applications
      → r.status ≢ ApplicationStatus.active
      → History db db'
      → Has r db'.applications
  History-final r k h closed here = h
  History-final {db = db} r k h closed (after {u = u} before c e k') = rw e (
      Step-final r (serve-Step c u) (History-Keyed k before) (History-final r k h closed before)
        closed)
