-- ===== src/Aws/ManagedPolicy/Members.antt =====
-- The roles that a managed policy is attached to: updating them, and taking all of them off.
use mathlib.Core.List.{append_assoc, append-nil}
use analytics_platform_contr.Prelude.{
  ◌≡◌, refl, ◌∙◌, Text, teq, teq_comm, teq_iff, teq_refl, mem, mem-append, true, false, not, List,
  [], ◌∷◌, ◌++◌, filter, arith, mem-filter_out, IsDistinct, difference, mem-difference,
  IsDistinct-difference, ◌&&◌, ◌||◌, Bool, Bool-cases, inl, inr,
}
use analytics_platform_contr.Prelude.Exec.{ok, err, for_each}
use analytics_platform_contr.Aws.ManagedPolicy.{
  Error, no_such_entity, PolicyClient, update_policy_members, delete_policy,
}
use analytics_platform_contr.Aws.ManagedPolicy.Versions.{KeepsVersions, delete_versions_lem}

-- What IAM documents of attaching: a role that takes the policy, one that is there and has fewer policies
-- than its quota, is attached, which changes this for no other role; any other is refused.
pub record TakesRoles {Store : Type 0} (client : PolicyClient Store) (takes : Text → Store → Bool)
    : Type 0 where
  pub attached :
      (r : Text) (s : Store) (rs : List Text)
      → client.attached_roles s ≡ ok rs
      → mem r rs ≡ false
      → takes r s ≡ true
      → let (result, after) = client.attach_role r s in
        (result ≡ ok tt)
        × (client.attached_roles after ≡ ok (rs ++ r ∷ []))
        × ((q : Text) → teq q r ≡ false → takes q after ≡ takes q s)
  pub refused :
      (r : Text) (s : Store)
      → takes r s ≡ false
      → (e : Error) × (client.attach_role r s ≡ (err e, s))

-- What IAM documents of detaching, and of the deletion of a policy: it is refused while a role is attached
-- or a version other than the default one is there.
pub record KeepsRoles {Store : Type 0} (client : PolicyClient Store) : Type 0 where
  pub detached :
      (r : Text) (s : Store) (rs : List Text)
      → client.attached_roles s ≡ ok rs
      → mem r rs ≡ true
      → let (result, after) = client.detach_role r s in
        (result ≡ ok tt)
        × (client.attached_roles after ≡ ok (filter (λ q. not (teq q r)) rs))
        × (client.versions after ≡ client.versions s)
        × (client.default_version_id after ≡ client.default_version_id s)
  pub policy_deleted :
      (v : Text) (s : Store)
      → client.attached_roles s ≡ ok []
      → client.versions s ≡ ok (v ∷ [])
      → client.default_version_id s ≡ ok v
      → let (result, after) = client.delete_policy s in
        (result ≡ ok tt) × (client.load after ≡ err no_such_entity)

module _ {Store : Type 0} (client : PolicyClient Store) (takes : Text → Store → Bool)
    (laws : TakesRoles client takes) where
  attach_each :
      (ts rs : List Text) (s : Store)
      → IsDistinct ts
      → ((q : Text) → mem q ts ≡ true → mem q rs ≡ false)
      → ((q : Text) → mem q ts ≡ true → takes q s ≡ true)
      → client.attached_roles s ≡ ok rs
      → (s' : Store) × (for_each client.attach_role ts s ≡ (ok tt, s'))
        × (client.attached_roles s' ≡ ok (rs ++ ts))
  unfolding for_each mem
  attach_each [] rs s h new all e = (s, refl, rw append-nil e)
  attach_each (t ∷ ts) rs s (fresh, h) new all e =
      let (made, now, same) =
        laws.attached t s rs e (new t (ground (arith, teq_refl t)))
          (all t (ground (arith, teq_refl t))) in
      let (s', ran, attached) =
        attach_each ts (rs ++ t ∷ []) (client.attach_role t s).1 h
          (λ q k. ground (arith, mem-append q rs (t ∷ []), new q, teq_iff t q, fresh, k))
          (λ q k. ground (arith, same q, all q, teq_iff q t, fresh, k)) now in
      (s', rw made ran, rw (← append_assoc rs (t ∷ []) ts) attached)

  -- A loop that meets a role that is refused stops, and nothing is detached.
  attach_refused :
      (ts rs : List Text) (s : Store) (missing : Text)
      → IsDistinct ts
      → ((q : Text) → mem q ts ≡ true → mem q rs ≡ false)
      → mem missing ts ≡ true
      → takes missing s ≡ false
      → client.attached_roles s ≡ ok rs
      → (e : Error) × (s' : Store) × (left : List Text) × (for_each client.attach_role ts s
          ≡ (err e, s'))
        × (client.attached_roles s' ≡ ok left)
        × ((q : Text) → mem q rs ≡ true → mem q left ≡ true)
        × ((q : Text) → mem q left ≡ true → (mem q rs || mem q ts) ≡ true)
  unfolding for_each mem
  attach_refused [] rs s missing h new m bad e = ground arith
  attach_refused (t ∷ ts) rs s missing (fresh, h) new m bad e = elim (Bool-cases (takes t s)) [
    | inr n ↦
        let (x, failed) = laws.refused t s n in
        (x, s, rs, rw failed refl, e, λ q k. k, λ q k. ground (arith, k))
    | inl y ↦
        let (made, now, same) = laws.attached t s rs e (new t (ground (arith, teq_refl t))) y in
        let other : teq missing t ≡ false = ground (arith, teq_iff missing t, y, bad) in
        let (x, s', left, ran, all, keeps, bounded) =
          attach_refused ts (rs ++ t ∷ []) (client.attach_role t s).1 missing h
            (λ q k. ground (arith, mem-append q rs (t ∷ []), new q, teq_iff t q, fresh, k))
            (ground (arith, m, other, teq_comm missing t)) (same missing other ∙ bad) now in
        (
          x,
          s',
          left,
          rw made ran,
          all,
          λ q k. keeps q (ground (arith, mem-append q rs (t ∷ []), k)),
          λ q k. ground (arith, bounded q k, mem-append q rs (t ∷ [])),
        )
  ]

  -- Where a new role is refused, the update raises; no role is detached, and only given ones are attached.
  update_policy_members_refused :
      (role_names rs : List Text) (s : Store) (missing : Text)
      → client.attached_roles s ≡ ok rs
      → IsDistinct role_names
      → mem missing role_names ≡ true
      → mem missing rs ≡ false
      → takes missing s ≡ false
      → (e : Error) × (s' : Store) × (left : List Text) × (update_policy_members client role_names s
          ≡ (err e, s'))
        × (client.attached_roles s' ≡ ok left)
        × ((q : Text) → mem q rs ≡ true → mem q left ≡ true)
        × ((q : Text) → mem q left ≡ true → (mem q rs || mem q role_names) ≡ true)
  unfolding update_policy_members
  update_policy_members_refused role_names rs s missing e k there new bad =
      let ts = difference role_names rs in
      let (x, s', left, ran, now, keeps, bounded) =
        attach_refused ts rs s missing (IsDistinct-difference role_names rs k)
          (λ q m. ground (arith, mem-difference q role_names rs))
          (ground (arith, mem-difference missing role_names rs)) bad e in
      (
        x,
        s',
        left,
        rw (e, ran) refl,
        now,
        keeps,
        λ q m. ground (arith, bounded q m, mem-difference q role_names rs),
      )

module _ {Store : Type 0} (client : PolicyClient Store) (laws : KeepsRoles client) where
  detach_each :
      (ts rs : List Text) (s : Store)
      → IsDistinct ts
      → ((q : Text) → mem q ts ≡ true → mem q rs ≡ true)
      → client.attached_roles s ≡ ok rs
      → (s' : Store) × (left : List Text) × (for_each client.detach_role ts s ≡ (ok tt, s'))
        × (client.attached_roles s' ≡ ok left)
        × ((q : Text) → mem q left ≡ (mem q rs && not (mem q ts)))
        × (client.versions s' ≡ client.versions s)
        × (client.default_version_id s' ≡ client.default_version_id s)
  unfolding for_each mem
  detach_each [] rs s h there e = (s, rs, refl, e, λ q. ground arith, refl, refl)
  detach_each (t ∷ ts) rs s (fresh, h) there e =
      let rs' = filter (λ q. not (teq q t)) rs in
      let (gone, now, versions, default) =
        laws.detached t s rs e (there t (ground (arith, teq_refl t))) in
      let (s', left, ran, all, view, versions', default') =
        detach_each ts rs' (client.detach_role t s).1 h
          (λ q k. ground (arith, mem-filter_out t q rs, there q, teq_iff q t, fresh, k)) now in
      (
        s',
        left,
        rw gone ran,
        all,
        λ q. ground (arith, view q, mem-filter_out t q rs, teq_comm q t),
        versions' ∙ versions,
        default' ∙ default,
      )

  no_member :
      (left rs : List Text) → ((q : Text) → mem q left ≡ (mem q rs && not (mem q rs))) → left ≡ []
  unfolding mem
  no_member [] rs h = refl
  no_member (t ∷ left) rs h = ground (arith, h t, teq_refl t)

  -- Where IAM deletes a policy only when no role is attached and no version but the default one is
  -- left: deleting a managed policy that is there, whose distinct versions are listed with the
  -- default one first and whose attached roles do not repeat, succeeds, the policy is gone, and
  -- deleting it again succeeds and changes nothing.
  pub delete_policy_lem :
      (v : Text) (vs rs : List Text) (s : Store)
      → KeepsVersions client
      → client.load s ≡ ok tt
      → client.attached_roles s ≡ ok rs
      → IsDistinct rs
      → client.versions s ≡ ok (v ∷ vs)
      → client.default_version_id s ≡ ok v
      → IsDistinct (v ∷ vs)
      → (s' : Store) × (delete_policy client s ≡ (ok tt, s'))
        × (client.load s' ≡ err no_such_entity)
        × (delete_policy client s' ≡ (ok tt, s'))
  unfolding delete_policy
  delete_policy_lem v vs rs s keeps loaded e h listed default (fresh, d) =
      let (a, left, ran, roles, view, versions, default') = detach_each rs rs s h (λ q m. m) e in
      let (b, ran', only) =
        delete_versions_lem client keeps v vs a d fresh (versions ∙ listed) (default' ∙ default) in
      let none_left = no_member left rs view in
      let (gone, is_gone) =
        laws.policy_deleted v b (only.attached ∙ rw (← none_left) roles) only.versions
          only.default_version in
      (
        (client.delete_policy b).1,
        ground (arith, loaded, e, ran, versions, listed, ran', gone),
        is_gone,
        ground (arith, is_gone),
      )

module _ {Store : Type 0} (client : PolicyClient Store) (laws : KeepsRoles client)
    (takes : Text → Store → Bool) (taken : TakesRoles client takes) (role_names rs : List Text)
    (s : Store) where
  -- Where IAM attaches a role that takes the policy, being there and within its quota, and detaches
  -- an attached one: updating the members of a managed policy succeeds, and exactly the given roles
  -- are attached after it, if neither the attached roles nor the given ones repeat and every given
  -- role that is not attached takes the policy.
  pub update_policy_members_lem :
      client.attached_roles s ≡ ok rs
      → IsDistinct rs
      → IsDistinct role_names
      → ((q : Text) → mem q role_names ≡ true → mem q rs ≡ false → takes q s ≡ true)
      → (s' : Store) × (left : List Text) × (update_policy_members client role_names s
          ≡ (ok tt, s'))
        × (client.attached_roles s' ≡ ok left)
        × ((q : Text) → mem q left ≡ mem q role_names)
  unfolding update_policy_members
  update_policy_members_lem e h k all =
      let new = difference role_names rs in
      let old = difference rs role_names in
      let (a, ran, now) =
        attach_each client takes taken new rs s (IsDistinct-difference role_names rs k)
          (λ q m. ground (arith, mem-difference q role_names rs))
          (λ q m. ground (arith, all q, mem-difference q role_names rs)) e in
      let (b, left, ran', now', view, _, _) =
        detach_each client laws old (rs ++ new) a (IsDistinct-difference rs role_names h)
          (λ q m. ground (arith, mem-difference q rs role_names, mem-append q rs new)) now in
      (
        b,
        left,
        rw (e, ran) ran',
        now',
        λ q. ground (
          arith,
          view q,
          mem-append q rs new,
          mem-difference q role_names rs,
          mem-difference q rs role_names,
        ),
      )
