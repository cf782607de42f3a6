-- ===== src/Aws/Arn.antt =====
-- `arn`, `s3_arn` and `iam_arn` of controlpanel/api/aws.py.
use analytics_platform_contr.Prelude.{
  ℕ, ◌+◌, ◌≡◌, refl, Text, codes, teq, ◌&&◌, [], ◌∷◌, ◌++◌, map, leb, mem, if◌then◌else◌,
}

-- c.lower() of one ASCII character.
lower_char : ℕ → ℕ
lower_char c = if leb b'A' c && leb c b'Z' then c + 32 else c

unfoldable pub lower : Text → Text
unfolding lower_char
lower = map lower_char

-- arn(service, resource, region, account)
unfoldable pub arn : Text → Text → Text → Text → Text
arn service resource region account =
    let service = lower service in
    let region = if mem service (codes "iam" ∷ codes "s3" ∷ []) then [] else lower region in
    codes "arn:aws:"
    ++ (service ++ (codes ":" ++ (region ++ (codes ":" ++ (account ++ (codes ":" ++ resource))))))

unfoldable pub s3_arn : Text → Text
unfolding arn lower mem teq
s3_arn resource = arn (codes "s3") resource [] []

-- iam_arn(resource, account): the data account is a setting.
unfoldable pub iam_arn : Text → Text → Text
unfolding arn lower mem teq
iam_arn resource account = arn (codes "iam") resource [] account

pub s3_arn_lem : (resource : Text) → s3_arn resource ≡ codes "arn:aws:s3:::" ++ resource
unfolding s3_arn
s3_arn_lem resource = refl
