-- ===== src/Rules/Admins.antt =====
-- Who passes the predicates on apps and buckets.
use analytics_platform_contr.Prelude.{
  ℕ, ◌≡◌, refl, Text, teq, ◌==◌, Bool, true, false, ◌&&◌, Option, none, some, List, [], ◌∷◌, any,
  arith,
}
use analytics_platform_contr.Rules.{
  Library, Tables, User, UserApp, UserS3Bucket, Object, apps3bucket, userapp, s3bucket,
  users3bucket, is_app_admin, has_row, any_row, has_bucket_access, is_bucket_admin, is_admin_row,
}

-- A test that asks less passes for a user's rows where one that asks more does.
any_mono :
    (c c' : UserS3Bucket → Bool) (u : Text) (b : ℕ) (rows : List UserS3Bucket)
    → ((row : UserS3Bucket) → c row ≡ true → c' row ≡ true)
    → any (λ row. teq row.user u && (row.s3bucket == b && c row)) rows ≡ true
    → any (λ row. teq row.user u && (row.s3bucket == b && c' row)) rows ≡ true
any_mono c c' u b [] less h = ground arith
any_mono c c' u b (row ∷ rows) less h = ground (arith, less row, any_mono c c' u b rows less)

has_row_mono :
    (c c' : UserS3Bucket → Bool) (t : Tables) (user : User) (b : ℕ)
    → ((row : UserS3Bucket) → c row ≡ true → c' row ≡ true)
    → has_row c t user b ≡ true
    → has_row c' t user b ≡ true
unfolding has_row
has_row_mono c c' t user b = any_mono c c' user.auth0_id b t.users3buckets

-- If every row that meets the first criteria meets the second, whoever has access to an object on
-- the first has it on the second.
has_bucket_access_mono :
    (c c' : UserS3Bucket → Bool) (t : Tables) (user : User) (obj : Option Object)
    → ((row : UserS3Bucket) → c row ≡ true → c' row ≡ true)
    → has_bucket_access c t user obj ≡ true
    → has_bucket_access c' t user obj ≡ true
unfolding has_bucket_access
has_bucket_access_mono c c' t user none less h = refl
has_bucket_access_mono c c' t user (some (s3bucket b)) less h = has_row_mono c c' t user b less h
has_bucket_access_mono c c' t user (some obj) less h = ground arith

-- Whoever passes is_bucket_admin passes has_bucket_access, for every object.
is_bucket_admin-has_bucket_access :
    (t : Tables) (user : User) (obj : Option Object)
    → is_bucket_admin t user obj ≡ true
    → has_bucket_access any_row t user obj ≡ true
unfolding is_bucket_admin has_bucket_access
is_bucket_admin-has_bucket_access t user none h = refl
is_bucket_admin-has_bucket_access t user (some (s3bucket b)) h =
    has_row_mono is_admin_row any_row t user b (λ row k. refl) h
is_bucket_admin-has_bucket_access t user (some (apps3bucket _ b)) h =
    has_row_mono is_admin_row any_row t user b (λ row k. refl) h
is_bucket_admin-has_bucket_access t user (some (users3bucket row)) h =
    has_row_mono is_admin_row any_row t user row.s3bucket (λ row k. refl) h
is_bucket_admin-has_bucket_access t user (some obj) h = ground arith

-- A new row of UserS3Bucket changes has_bucket_access for no user but that of the row, whatever the
-- criteria and the object.
has_bucket_access_frame :
    (c : UserS3Bucket → Bool) (t : Tables) (new : UserS3Bucket) (user : User) (obj : Option Object)
    → teq new.user user.auth0_id ≡ false
    → has_bucket_access c (record t { users3buckets = new ∷ t.users3buckets }) user obj
      ≡ has_bucket_access c t user obj
unfolding has_bucket_access has_row
has_bucket_access_frame c t new user obj h = ground (arith, h)

-- For a row of UserApp, is_app_admin gives any two users who are no superusers the same answer,
-- whoever the row belongs to.
is_app_admin_of_userapp :
    (lib : Library) (t : Tables) (u v : User) (row : UserApp)
    → lib.is_superuser u ≡ false
    → lib.is_superuser v ≡ false
    → is_app_admin lib t u (some (userapp row)) ≡ is_app_admin lib t v (some (userapp row))
unfolding is_app_admin
is_app_admin_of_userapp lib t u v row h k = rw (h, k) refl
