-- ===== src/Aws/IdentityStore/Memberships.antt =====
-- Adding a user to the groups, where the client keeps what it is given.
use analytics_platform_contr.Prelude.{
  ◌≡◌, ◌⊎◌, inl, inr, refl, Text, teq, false, some, List, [], arith, ◌∙◌,
}
use analytics_platform_contr.Prelude.Exec.{ok, err}
use analytics_platform_contr.Aws.IdentityStore.{
  not_found, IdentityClient, none_if_missing, create_user, create_group_membership,
  add_user_to_group,
}
use analytics_platform_contr.Aws.IdentityStore.Names.{get_name_from_email}

-- Nothing that could be found in the first state is lost in the second, and the groups are the same.
pub record Extends {Store : Type 0} (client : IdentityClient Store) (s s' : Store) : Type 0 where
  pub users : (e : Text) (u : Text) → client.get_user_id e s ≡ ok u → client.get_user_id e s' ≡ ok u
  pub groups : (g : Text) → client.get_group_id g s' ≡ client.get_group_id g s
  pub members :
      (g u m : Text)
      → client.get_membership_id g u s ≡ ok m
      → client.get_membership_id g u s' ≡ ok m

-- A read finds an id or nothing; a user and a membership that are not there can be created.
pub record KeepsMembers {Store : Type 0} (client : IdentityClient Store) : Type 0 where
  pub user_answers :
      (e : Text) (s : Store)
      → (client.get_user_id e s ≡ err not_found) ⊎ ((u : Text) × (client.get_user_id e s ≡ ok u))
  pub membership_answers :
      (g u : Text) (s : Store)
      → (client.get_membership_id g u s ≡ err not_found)
        ⊎ ((m : Text) × (client.get_membership_id g u s ≡ ok m))
  pub user_created :
      (e f l : Text) (s : Store)
      → client.get_user_id e s ≡ err not_found
      → (u : Text) × ((client.create_user e f l s).0 ≡ ok tt)
        × (client.get_user_id e (client.create_user e f l s).1 ≡ ok u)
        × Extends client s (client.create_user e f l s).1
  pub membership_created :
      (g u : Text) (s : Store)
      → client.get_membership_id g u s ≡ err not_found
      → (m : Text) × ((client.create_membership g (some u) s).0 ≡ ok tt)
        × (client.get_membership_id g u (client.create_membership g (some u) s).1 ≡ ok m)
        × Extends client s (client.create_membership g (some u) s).1

module _ {Store : Type 0} (client : IdentityClient Store) (laws : KeepsMembers client) where
  Extends-refl : (s : Store) → Extends client s s
  Extends-refl s = record { users = λ e u h. h; groups = λ g. refl; members = λ g u m h. h }

  Extends-trans : (r s t : Store) → Extends client r s → Extends client s t → Extends client r t
  Extends-trans r s t p q = record {
    users = λ e u h. q.users e u (p.users e u h);
    groups = λ g. q.groups g ∙ p.groups g;
    members = λ g u m h. q.members g u m (p.members g u m h);
  }

  -- The state after a user is created, or was there.
  create_user_lem :
      (domains : List Text) (e : Text) (name : Text × Text) (s : Store)
      → get_name_from_email domains e ≡ some name
      → (s' : Store) × (u : Text) × (create_user client domains e s ≡ (ok tt, s'))
        × (client.get_user_id e s' ≡ ok u)
        × Extends client s s'
  unfolding create_user none_if_missing
  create_user_lem domains e (f, l) s named = elim (laws.user_answers e s) [
    | inl h ↦
        let (u, made, found, ext) = laws.user_created e f l s h in
        ((client.create_user e f l s).1, u, ground (arith, h, named, made), found, ext)
    | inr (u, h) ↦ (s, u, ground (arith, h), h, Extends-refl s)
  ]

  -- The state after a membership is created, or was there.
  create_membership_lem :
      (e g u i : Text) (s : Store)
      → client.get_user_id e s ≡ ok u
      → client.get_group_id g s ≡ ok i
      → (s' : Store) × (m : Text) × (create_group_membership client e g s ≡ (ok tt, s'))
        × (client.get_membership_id i u s' ≡ ok m)
        × Extends client s s'
  unfolding create_group_membership none_if_missing
  create_membership_lem e g u i s user group = elim (laws.membership_answers i u s) [
    | inl h ↦
        let (m, made, found, ext) = laws.membership_created i u s h in
        (
          (client.create_membership i (some u) s).1,
          m,
          ground (arith, h, user, group, made),
          found,
          ext,
        )
    | inr (m, h) ↦ (s, m, ground (arith, h, user, group), h, Extends-refl s)
  ]

  -- Where the user is in the group, nothing is done.
  create_membership_again :
      (e g u i m : Text) (s : Store)
      → client.get_user_id e s ≡ ok u
      → client.get_group_id g s ≡ ok i
      → client.get_membership_id i u s ≡ ok m
      → create_group_membership client e g s ≡ (ok tt, s)
  unfolding create_group_membership none_if_missing
  create_membership_again e g u i m s user group member = ground arith

  create_user_again :
      (domains : List Text) (e u : Text) (s : Store)
      → client.get_user_id e s ≡ ok u
      → create_user client domains e s ≡ (ok tt, s)
  unfolding create_user none_if_missing
  create_user_again domains e u s user = ground arith

  -- Where the store keeps what it is given, the address has a name by the rules and both groups are
  -- there: adding the user succeeds, the user is there and in both groups, and adding them again
  -- succeeds and changes nothing.
  pub add_user_to_group_lem :
      (domains : List Text) (holding e g i i' : Text) (name : Text × Text) (s : Store)
      → teq e [] ≡ false
      → get_name_from_email domains e ≡ some name
      → client.get_group_id g s ≡ ok i
      → client.get_group_id holding s ≡ ok i'
      → (s' : Store) × (u : Text) × (m : Text) × (m' : Text) × (add_user_to_group client domains
            holding e g s
          ≡ (ok tt, s'))
        × (client.get_user_id e s' ≡ ok u)
        × (client.get_membership_id i u s' ≡ ok m)
        × (client.get_membership_id i' u s' ≡ ok m')
        × (add_user_to_group client domains holding e g s' ≡ (ok tt, s'))
  unfolding add_user_to_group
  add_user_to_group_lem domains holding e g i i' name s given named group group' =
      let (a, u, ran, user, ext) = create_user_lem domains e name s named in
      let (b, m, ran', member, ext') =
        create_membership_lem e g u i a user (ext.groups g ∙ group) in
      let both = Extends-trans s a b ext ext' in
      let (c, m', ran'', member', ext'') =
        create_membership_lem e holding u i' b (ext'.users e u user)
          (both.groups holding ∙ group') in
      let all = Extends-trans s b c both ext'' in
      let user' = ext''.users e u (ext'.users e u user) in
      let kept = ext''.members i u m member in
      (
        c,
        u,
        m,
        m',
        ground (arith, ran, ran', ran''),
        user',
        kept,
        member',
        ground (
          arith,
          create_user_again domains e u c user',
          create_membership_again e g u i m c user' (all.groups g ∙ group) kept,
          create_membership_again e holding u i' m' c user' (all.groups holding ∙ group') member',
        ),
      )
