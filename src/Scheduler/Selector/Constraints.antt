-- ===== src/Scheduler/Selector/Constraints.antt =====
-- internal/hivemind/service/scheduler/selector.go: what the check of the constraints decides.
use echoryn.Prelude.{
  Text, codes, same, same_iff, same_self, ℤ, pos, int_ltb, ℕ, zero, suc, ◌≡◌, refl, Bool, true,
  false, ◌&&◌, ◌||◌, List, [], ◌∷◌, All, Option, none, some, get_elem?, ◌⊎◌, inl, inr, ◌↔◌, arith,
  or_else, Bool-cases, Option-cases, All-map, if◌then◌else◌,
}
use echoryn.Scheduler.Types.{ResourceRequirements, ScheduleRequest, SkillInfo, GolemProfile}
use echoryn.Scheduler.Selector.{
  Rejection, member, first_missing, skill_set, check_resources, lacking, check_requirements, check,
}

-- `t` stands in the list.
abbrev pub Stands : Text → List Text → Type 0
Stands t xs = (i : ℕ) × (get_elem? xs i ≡ some t)

member_sound : (t : Text) (xs : List Text) → member t xs ≡ true → Stands t xs
member_sound t [] h = cc
member_sound t (x ∷ xs) h = elim (Bool-cases (same t x)) [
  | inl e ↦ (0, rw ((same_iff t x).0 e) refl)
  | inr e ↦ let (i, k) = member_sound t xs (rw e at h) in (suc i, k)
]

member_complete : (t : Text) (xs : List Text) → Stands t xs → member t xs ≡ true
member_complete t [] (i, e) = cc
member_complete t (x ∷ xs) (zero, e) = let it : x ≡ t = grind arith in rw (it, same_self t) refl
member_complete t (x ∷ xs) (suc i, e) = rw (member_complete t xs (i, e)) (or_true (same t x))
  where
    or_true : (b : Bool) → (b || true) ≡ true
    or_true true = refl
    or_true false = refl

first_missing_sound :
    (set rs : List Text) → first_missing set rs ≡ none → All (λ r. Stands r set) rs
unfolding first_missing
first_missing_sound set [] h = tt
first_missing_sound set (r ∷ rs) h = elim (Bool-cases (member r set)) [
  | inl e ↦ (member_sound r set e, first_missing_sound set rs (rw e at h))
  | inr e ↦ cc (rw e at h)
]

first_missing_complete :
    (set rs : List Text) → All (λ r. Stands r set) rs → first_missing set rs ≡ none
unfolding first_missing
first_missing_complete set [] h = refl
first_missing_complete set (r ∷ rs) h =
    rw (member_complete r set h.0) (first_missing_complete set rs h.1)

-- An installed skill has `t` as its id or its name.
abbrev pub Offers : Text → List SkillInfo → Type 0
Offers t skills =
    (i : ℕ) × (sk : SkillInfo) × (get_elem? skills i ≡ some sk) × ((sk.id ≡ t) ⊎ (sk.name ≡ t))

Offers-Stands : (t : Text) (skills : List SkillInfo) → Offers t skills → Stands t (skill_set skills)
unfolding skill_set
Offers-Stands t [] (i, sk, e, h) = cc
Offers-Stands t (s ∷ skills) (zero, sk, e, h) =
    let it : s ≡ sk = grind arith in
    elim h [ inl named ↦ (0, rw (it, named) refl) | inr named ↦ (1, rw (it, named) refl) ]
Offers-Stands t (s ∷ skills) (suc i, sk, e, h) =
    let (k, found) = Offers-Stands t skills (i, sk, e, h) in (suc (suc k), found)

Stands-Offers : (t : Text) (skills : List SkillInfo) → Stands t (skill_set skills) → Offers t skills
unfolding skill_set
Stands-Offers t [] (i, e) = cc
Stands-Offers t (s ∷ skills) (zero, e) = (0, s, refl, inl (grind arith))
Stands-Offers t (s ∷ skills) (suc zero, e) = (0, s, refl, inr (grind arith))
Stands-Offers t (s ∷ skills) (suc (suc i), e) =
    let (k, sk, found, named) = Stands-Offers t skills (i, e) in (suc k, sk, found, named)

-- A requirement of 0 or below is none.
abbrev pub Reaches : ℤ → ℤ → Type 0
Reaches need have = int_ltb (pos 0) need ≡ true → int_ltb have need ≡ false

abbrev pub StaysWithin : ℤ → ℤ → Type 0
StaysWithin limit load = int_ltb (pos 0) limit ≡ true → int_ltb limit load ≡ false

pub record Suffices (rr : ResourceRequirements) (profile : GolemProfile) : Type 0 where
  pub cores : Reaches rr.min_cpu_cores profile.node_info.system_info.cpu_cores
  pub memory : Reaches rr.min_memory_mb profile.node_info.system_info.memory_mb
  pub disk : Reaches rr.min_disk_free_mb profile.node_info.system_info.disk_free_mb
  pub cpu_load : StaysWithin rr.max_cpu_percent profile.load.cpu_percent
  pub memory_load : StaysWithin rr.max_memory_percent profile.load.memory_percent
  pub tasks : StaysWithin rr.max_active_tasks profile.load.active_tasks

gate_iff :
    (b c : Bool) (r : Rejection)
    → ((if b && c then some r else none) ≡ none) ↔ (b ≡ true → c ≡ false)
gate_iff true true r = (λ h p. cc, λ h. cc (h refl))
gate_iff true false r = (λ h p. refl, λ h. refl)
gate_iff false c r = (λ h p. cc, λ h. refl)

or_else-none {ℓ} : {A : Type ℓ} (o p : Option A) → (or_else o p ≡ none) ↔ ((o ≡ none) × (p ≡ none))
or_else-none none p = (λ h. (refl, h), λ h. h.1)
or_else-none (some a) p = (λ h. cc, λ h. cc h.0)

check_resources_iff :
    (rr : ResourceRequirements) (profile : GolemProfile)
    → (check_resources rr profile ≡ none) ↔ Suffices rr profile
unfolding check_resources
check_resources_iff rr profile = (
  λ h.
      let (a, h1) = (or_else-none _ _).0 h in
      let (b, h2) = (or_else-none _ _).0 h1 in
      let (c, h3) = (or_else-none _ _).0 h2 in
      let (d, h4) = (or_else-none _ _).0 h3 in
      let (e, f) = (or_else-none _ _).0 h4 in
      record {
        cores = (gate_iff _ _ _).0 a;
        memory = (gate_iff _ _ _).0 b;
        disk = (gate_iff _ _ _).0 c;
        cpu_load = (gate_iff _ _ _).0 d;
        memory_load = (gate_iff _ _ _).0 e;
        tasks = (gate_iff _ _ _).0 f;
      },
  λ s. (or_else-none _ _).1 (
    (gate_iff _ _ _).1 s.cores,
    (or_else-none _ _).1 (
      (gate_iff _ _ _).1 s.memory,
      (or_else-none _ _).1 (
        (gate_iff _ _ _).1 s.disk,
        (or_else-none _ _).1 (
          (gate_iff _ _ _).1 s.cpu_load,
          (or_else-none _ _).1 ((gate_iff _ _ _).1 s.memory_load, (gate_iff _ _ _).1 s.tasks),
        ),
      ),
    ),
  ),
)

-- What a request asks of a node.
pub record IsEligible (req : ScheduleRequest) (profile : GolemProfile) : Type 0 where
  pub online : profile.node_info.status ≡ codes "online"
  pub capable : All (λ r. Stands r profile.node_info.capabilities) req.required_capabilities
  pub skilled : All (λ r. Offers r profile.installed_skills) req.required_skills
  pub featured : All (λ r. Stands r profile.supported_features) req.required_features
  pub equipped :
      (rr : ResourceRequirements) → req.resource_requirements ≡ some rr → Suffices rr profile

lacking_iff : (reason : Text → Rejection) (o : Option Text) → (lacking reason o ≡ none) ↔ (o ≡ none)
lacking_iff reason none = (λ h. refl, λ h. refl)
lacking_iff reason (some t) = (λ h. cc, λ h. cc)

resources_iff :
    (req : ScheduleRequest) (profile : GolemProfile)
    → (elim req.resource_requirements [ none ↦ none | some rr ↦ check_resources rr profile ] ≡ none)
      ↔ ((rr : ResourceRequirements) → req.resource_requirements ≡ some rr → Suffices rr profile)
resources_iff req profile = elim (Option-cases req.resource_requirements) [
  | inl e ↦ rw e (λ h rr k. cc, λ h. refl)
  | inr (rr, e) ↦ rw e (
    λ h r k. let it : rr ≡ r = grind arith in rw it at ((check_resources_iff rr profile).0 h),
    λ h. (check_resources_iff rr profile).1 (h rr refl),
  )
]

check_requirements_iff :
    (req : ScheduleRequest) (profile : GolemProfile)
    → profile.node_info.status ≡ codes "online"
    → (check_requirements req profile ≡ none) ↔ IsEligible req profile
unfolding check_requirements
check_requirements_iff req profile on = (
  λ h.
      let (a, h1) = (or_else-none _ _).0 h in
      let (b, h2) = (or_else-none _ _).0 h1 in
      let (c, d) = (or_else-none _ _).0 h2 in
      record {
        online = on;
        capable = first_missing_sound _ _ ((lacking_iff _ _).0 a);
        skilled =
            All-map (λ r. Stands-Offers r profile.installed_skills) req.required_skills
              (first_missing_sound _ _ ((lacking_iff _ _).0 b));
        featured = first_missing_sound _ _ ((lacking_iff _ _).0 c);
        equipped = (resources_iff req profile).0 d;
      },
  λ s. (or_else-none _ _).1 (
    (lacking_iff _ _).1 (first_missing_complete _ _ s.capable),
    (or_else-none _ _).1 (
      (lacking_iff _ _).1 (
          first_missing_complete _ _ (
            All-map (λ r. Offers-Stands r profile.installed_skills) req.required_skills s.skilled)),
      (or_else-none _ _).1 (
        (lacking_iff _ _).1 (first_missing_complete _ _ s.featured),
        (resources_iff req profile).1 s.equipped,
      ),
    ),
  ),
)

-- The check lets a node pass exactly where the node is online, has every capability, skill (by id or
-- name) and feature that the request requires, and keeps every bound on its resources that is positive.
pub check_iff :
    (req : ScheduleRequest) (profile : GolemProfile)
    → (check req profile ≡ none) ↔ IsEligible req profile
unfolding check
check_iff req profile = elim (Bool-cases (same profile.node_info.status (codes "online"))) [
  | inl on ↦ rw on (check_requirements_iff req profile ((same_iff _ _).0 on))
  | inr off ↦ rw off (λ h. cc, λ s. cc ((same_iff _ _).1 s.online))
]
