-- ===== src/Auth0/Connections/Enabled.antt =====
-- Which connections a client has after its connections are updated.
use mathlib.Core.Path.{subst}
use analytics_platform_contr.Prelude.{
  ◌≡◌, refl, Text, teq, teq_refl, teq_iff, teq_comm, mem, mem-append, false, not, ◌&&◌, ◌||◌, List,
  [], ◌∷◌, map, if◌then◌else◌, arith, difference, mem-difference, IsDistinct, Bool-cases, inl, inr,
  filter, sym,
}
use analytics_platform_contr.Aws.S3AccessPolicy.{remove_first}
use analytics_platform_contr.Auth0.Connections.{
  Connection, disable_client, enable_client, update_connection, update_client_auth_connections,
  get_client_enabled_connections,
}

mem-remove_first : (t : Text) (ts : List Text) → IsDistinct ts → mem t (remove_first t ts) ≡ false
unfolding mem remove_first
mem-remove_first t [] h = refl
mem-remove_first t (x ∷ ts) (fresh, h) = ground (arith, teq_iff x t, mem-remove_first t ts h)

mem-remove_other :
    (t u : Text) (ts : List Text) → teq t u ≡ false → mem u (remove_first t ts) ≡ mem u ts
unfolding mem remove_first
mem-remove_other t u [] h = refl
mem-remove_other t u (x ∷ ts) h =
    ground (arith, teq_iff x t, teq_iff x u, teq_iff t u, mem-remove_other t u ts)

-- Whether a client is enabled after a round.
update_connection_lem :
    (removed new : List Text) (client_id : Text) (c : Connection)
    → IsDistinct c.enabled_clients
    → let d = update_connection removed new client_id c in
      (d.name ≡ c.name)
      × (mem client_id d.enabled_clients
          ≡ (mem c.name new || (mem client_id c.enabled_clients && not (mem c.name removed))))
unfolding update_connection enable_client disable_client mem
update_connection_lem removed new client_id c h = (
  ground arith,
  ground (
    arith,
    mem-remove_first client_id c.enabled_clients h,
    teq_refl client_id,
    mem-append client_id c.enabled_clients (client_id ∷ []),
    mem-append client_id (remove_first client_id c.enabled_clients) (client_id ∷ []),
  ),
)

update_connection_other :
    (removed new : List Text) (client_id other : Text) (c : Connection)
    → teq client_id other ≡ false
    → let d = update_connection removed new client_id c in
      (d.name ≡ c.name) × (mem other d.enabled_clients ≡ mem other c.enabled_clients)
unfolding update_connection enable_client disable_client mem
update_connection_other removed new client_id other c apart = (
  ground arith,
  ground (
    arith,
    mem-remove_other client_id other c.enabled_clients apart,
    apart,
    mem-append other c.enabled_clients (client_id ∷ []),
    mem-append other (remove_first client_id c.enabled_clients) (client_id ∷ []),
  ),
)

abbrev pub names_of : List Connection → List Text
names_of = map (λ c. c.name)

-- No connection has a client twice.
abbrev pub IsClean : List Connection → Type 0
IsClean [] = Unit {0}
IsClean (c ∷ cs) = IsDistinct c.enabled_clients × IsClean cs

-- The list has just the names of the connections that the client has.
abbrev IsKnown : Text → List Text → List Connection → Type 0
IsKnown client_id existing [] = Unit {0}
IsKnown client_id existing (c ∷ cs) =
    (mem client_id c.enabled_clients ≡ mem c.name existing) × IsKnown client_id existing cs

module _ (client_id : Text) where
  IsKnown-more :
      (n : Text) (existing : List Text) (cs : List Connection)
      → mem n (names_of cs) ≡ false
      → IsKnown client_id existing cs
      → IsKnown client_id (n ∷ existing) cs
  unfolding mem
  IsKnown-more n existing [] h k = tt
  IsKnown-more n existing (c ∷ cs) h (e, k) =
      (ground (arith, e, teq_comm n c.name), IsKnown-more n existing cs (ground arith) k)

  enabled-names :
      (n : Text) (cs : List Connection)
      → mem n (names_of cs) ≡ false
      → mem n (get_client_enabled_connections client_id cs) ≡ false
  unfolding get_client_enabled_connections mem
  enabled-names n [] h = refl
  enabled-names n (c ∷ cs) h = ground (arith, enabled-names n cs)

  enabled-cons :
      (c : Connection) (cs : List Connection)
      → get_client_enabled_connections client_id (c ∷ cs) ≡ (
          if mem client_id c.enabled_clients
          then c.name ∷ get_client_enabled_connections client_id cs
          else get_client_enabled_connections client_id cs)
  unfolding get_client_enabled_connections
  enabled-cons c cs = ground arith

  IsKnown-enabled :
      (cs : List Connection)
      → IsDistinct (names_of cs)
      → IsKnown client_id (get_client_enabled_connections client_id cs) cs
  unfolding mem
  IsKnown-enabled [] h = tt
  IsKnown-enabled (c ∷ cs) (fresh, h) =
      let ex = get_client_enabled_connections client_id cs in
      elim (Bool-cases (mem client_id c.enabled_clients)) [
        | inl e ↦
            let shape : get_client_enabled_connections client_id (c ∷ cs) ≡ c.name ∷ ex =
              ground (arith, enabled-cons c cs, e) in
            subst (λ x. IsKnown client_id x (c ∷ cs)) (sym shape)
              (
                ground (arith, e, teq_refl c.name),
                IsKnown-more c.name ex cs fresh (IsKnown-enabled cs h),
              )
        | inr n ↦
            let shape : get_client_enabled_connections client_id (c ∷ cs) ≡ ex =
              ground (arith, enabled-cons c cs, n) in
            subst (λ x. IsKnown client_id x (c ∷ cs)) (sym shape)
              (ground (arith, n, enabled-names c.name cs fresh), IsKnown-enabled cs h)
      ]

  -- Those of the connections that are among the names
  abbrev pub chosen : List Text → List Connection → List Text
  chosen new cs = filter (λ n. mem n new) (names_of cs)

  module _ (new existing : List Text) where
    abbrev removed : List Text
    removed = difference existing new

    abbrev really_new : List Text
    really_new = difference new existing

    updated_lem :
        (cs : List Connection)
        → IsClean cs
        → IsKnown client_id existing cs
        → get_client_enabled_connections client_id
            (update_client_auth_connections client_id new existing cs)
          ≡ chosen new cs
    unfolding update_client_auth_connections get_client_enabled_connections
    updated_lem [] h k = refl
    updated_lem (c ∷ cs) (d, h) (e, k) = ground (
      arith,
      update_connection_lem removed really_new client_id c d,
      mem-difference c.name new existing,
      mem-difference c.name existing new,
      e,
      updated_lem cs h k,
    )

    others_lem :
        (other : Text) (cs : List Connection)
        → teq client_id other ≡ false
        → get_client_enabled_connections other
            (update_client_auth_connections client_id new existing cs)
          ≡ get_client_enabled_connections other cs
    unfolding update_client_auth_connections get_client_enabled_connections
    others_lem other [] apart = refl
    others_lem other (c ∷ cs) apart = ground (
      arith,
      update_connection_other removed really_new client_id other c apart,
      others_lem other cs apart,
    )

  -- Where no two connections share a name, no connection has a client twice, and the existing
  -- connections are those read of the client: after the update the client has, of all connections,
  -- just those among the new ones, and any other client has those it had.
  pub update_client_auth_connections_lem :
      (other : Text) (new : List Text) (cs : List Connection)
      → IsDistinct (names_of cs)
      → IsClean cs
      → teq client_id other ≡ false
      → let after =
          update_client_auth_connections client_id new
            (get_client_enabled_connections client_id cs)
            cs in
        (get_client_enabled_connections client_id after ≡ filter (λ n. mem n new) (names_of cs))
        × (get_client_enabled_connections other after ≡ get_client_enabled_connections other cs)
  update_client_auth_connections_lem other new cs h clean apart =
      let existing = get_client_enabled_connections client_id cs in
      (
        updated_lem new existing cs clean (IsKnown-enabled cs h),
        others_lem new existing other cs apart,
      )
