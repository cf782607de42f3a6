-- ===== src/Aws/Attachments.antt =====
-- `AWSRole.attach_policy` and `AWSRole.remove_policy` of controlpanel/api/aws.py. The calls of IAM on a
-- role are parameters.
use analytics_platform_contr.Prelude.{
  ◌≡◌, refl, Text, codes, teq, mem, true, false, not, Option, none, some, List, [], ◌∷◌, ◌++◌,
  filter, arith, any, ◌&&◌, Bool-cases, inl, inr, filter-missing, mem-filter_out,
}
use analytics_platform_contr.Prelude.Exec.{Result, ok, err, Exec, ◌>>◌}
use analytics_platform_contr.Aws.Arn.{iam_arn}

-- The code of a client error
pub data ClientError : Type 0 where
  no_such_entity other_code : ClientError

-- What the calls do to the list of ARNs of the policies that are attached. `load` returns an error or
-- none.
pub record Iam : Type 0 where
  pub load : List Text → Option ClientError
  pub attach : Text → Exec ClientError (List Text) Unit
  pub detach : Text → Exec ClientError (List Text) Unit

-- iam_arn(f"policy/{name}")
unfoldable pub policy_arn : Text → Text → Text
policy_arn account name = iam_arn (codes "policy/" ++ name) account

-- for attach_policy in attach_policies: an error ends the loop.
unfoldable pub attach_all : Iam → Text → List Text → Exec ClientError (List Text) Unit
attach_all iam account [] r = (ok tt, r)
attach_all iam account (p ∷ ps) r =
    (iam.attach (policy_arn account p) >> attach_all iam account ps) r

-- An error of `load` is raised again if its code is NoSuchEntity, and is dropped if it is not.
unfoldable pub attach_policy : Iam → Text → List Text → Exec ClientError (List Text) Unit
attach_policy iam account ps r = elim (iam.load r) [
  | none ↦ attach_all iam account ps r
  | some no_such_entity ↦ (err no_such_entity, r)
  | some other_code ↦ attach_all iam account ps r
]

-- The `except` branch of the loop
unfoldable pub skip_missing : Result ClientError Unit → Result ClientError Unit
skip_missing (ok a) = ok a
skip_missing (err no_such_entity) = ok tt
skip_missing (err other_code) = err other_code

-- for policy in remove_policies: a policy that is not attached is skipped.
unfoldable pub detach_all : Iam → Text → List Text → Exec ClientError (List Text) Unit
detach_all iam account [] r = (ok tt, r)
detach_all iam account (p ∷ ps) r =
    ((λ s. let (result, s') = iam.detach (policy_arn account p) s in (skip_missing result, s'))
        >> detach_all iam account ps)
      r

unfoldable pub remove_policy : Iam → Text → List Text → Exec ClientError (List Text) Unit
remove_policy iam account ps r = elim (iam.load r) [
  | none ↦ detach_all iam account ps r
  | some no_such_entity ↦ (err no_such_entity, r)
  | some other_code ↦ detach_all iam account ps r
]

-- What IAM documents of a detachment: the policy goes, and one that is not attached is NoSuchEntity.
pub record Detaches (iam : Iam) : Type 0 where
  pub attached :
      (p : Text) (r : List Text)
      → mem p r ≡ true
      → iam.detach p r ≡ (ok tt, filter (λ q. not (teq q p)) r)
  pub missing :
      (p : Text) (r : List Text) → mem p r ≡ false → iam.detach p r ≡ (err no_such_entity, r)

-- The ARNs that are left without those of the named policies.
abbrev pub without : Text → List Text → List Text → List Text
without account [] r = r
without account (p ∷ ps) r = without account ps (filter (λ q. not (teq q (policy_arn account p))) r)

mem-without :
    (account : Text) (ps r : List Text) (q : Text)
    → mem q (without account ps r) ≡ (mem q r && not (any (λ p. teq q (policy_arn account p)) ps))
mem-without account [] r q = ground arith
mem-without account (p ∷ ps) r q = ground (
  arith,
  mem-without account ps (filter (λ x. not (teq x (policy_arn account p))) r) q,
  mem-filter_out (policy_arn account p) q r,
)

module _ (iam : Iam) (laws : Detaches iam) (account : Text) where
  detach_all_lem : (ps r : List Text) → detach_all iam account ps r ≡ (ok tt, without account ps r)
  unfolding detach_all skip_missing
  detach_all_lem [] r = refl
  detach_all_lem (p ∷ ps) r =
      let arn = policy_arn account p in
      elim (Bool-cases (mem arn r)) [
        | inl e ↦ rw (laws.attached arn r e) (detach_all_lem ps (filter (λ q. not (teq q arn)) r))
        | inr e ↦ rw (laws.missing arn r e, filter-missing arn r e) (detach_all_lem ps r)
      ]

  remove_policy_known :
      (ps r : List Text)
      → iam.load r ≡ none
      → remove_policy iam account ps r ≡ (ok tt, without account ps r)
  unfolding remove_policy
  remove_policy_known ps r h = ground (arith, h, detach_all_lem ps r)

  -- Where the role is there and a detachment takes an attached policy away and is NoSuchEntity for
  -- any other, remove_policy succeeds, and a policy is attached after it exactly when it was
  -- attached before and is not among the named ones.
  pub remove_policy_result :
      (ps r : List Text)
      → iam.load r ≡ none
      → (left : List Text) × (remove_policy iam account ps r ≡ (ok tt, left))
        × ((q : Text) → mem q left ≡ (mem q r && not (any (λ p. teq q (policy_arn account p)) ps)))
  remove_policy_result ps r h =
      (without account ps r, remove_policy_known ps r h, λ q. mem-without account ps r q)
