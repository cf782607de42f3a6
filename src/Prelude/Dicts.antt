-- ===== src/Prelude/Dicts.antt =====
-- Dictionaries as association lists in the order of insertion, as in Python.
use mathlib.Core.Path.{◌≡◌, refl}
use mathlib.Core.Option.{Option, none, some}
use mathlib.Core.List.{List, [], ◌∷◌}
use mathlib.Core.Bool.{false, ◌||◌}
use mathlib.Core.Logic.{inl, inr}
use native.Mathlib.Omega.{arith}
use analytics_platform_contr.Prelude.Tests.{if◌then◌else◌, Bool-cases}
use analytics_platform_contr.Prelude.Texts.{Text, teq, teq_iff, teq_comm, mem, IsDistinct}

module _ {ℓ} {V : Type ℓ} where
  -- d.get(k)
  unfoldable pub get : Text → List (Text × V) → Option V
  get k [] = none
  get k ((j, v) ∷ d) = let rest = get k d in if teq j k then some v else rest

  -- d[k] = v
  unfoldable pub put_key : Text → V → List (Text × V) → List (Text × V)
  put_key k v [] = (k, v) ∷ []
  put_key k v ((j, w) ∷ d) =
      let rest = put_key k v d in if teq j k then (j, v) ∷ d else (j, w) ∷ rest

  -- for k, v in new.items(): d[k] = v
  unfoldable pub put_all : List (Text × V) → List (Text × V) → List (Text × V)
  put_all [] d = d
  put_all ((k, v) ∷ new) d = put_all new (put_key k v d)

  -- if k in d: del d[k]
  unfoldable pub del_key : Text → List (Text × V) → List (Text × V)
  del_key k [] = []
  del_key k ((j, w) ∷ d) = let rest = del_key k d in if teq j k then rest else (j, w) ∷ rest

  unfoldable pub del_all : List Text → List (Text × V) → List (Text × V)
  del_all [] d = d
  del_all (k ∷ ks) d = del_all ks (del_key k d)

  -- The first value, or the second where there is none.
  abbrev pub or_else : Option V → Option V → Option V
  or_else (some v) o = some v
  or_else none o = o

  pub get-put_key :
      (k j : Text) (v : V) (d : List (Text × V))
      → get j (put_key k v d) ≡ (if teq k j then some v else get j d)
  unfolding get put_key
  get-put_key k j v [] = refl
  get-put_key k j v ((i, w) ∷ d) =
      ground (arith, teq_iff k j, teq_iff i k, teq_iff i j, get-put_key k j v d)

  pub get-del_key :
      (k j : Text) (d : List (Text × V)) → get j (del_key k d) ≡ (if teq k j then none else get j d)
  unfolding get del_key
  get-del_key k j [] = ground arith
  get-del_key k j ((i, w) ∷ d) =
      ground (arith, teq_iff k j, teq_iff i k, teq_iff i j, get-del_key k j d)

  -- Of two pairs with one key in `new`, the later one counts.
  unfoldable pub get_last : Text → List (Text × V) → Option V
  get_last k [] = none
  get_last k ((j, v) ∷ d) = or_else (get_last k d) (if teq j k then some v else none)

  pub get-put_all :
      (j : Text) (new d : List (Text × V))
      → get j (put_all new d) ≡ or_else (get_last j new) (get j d)
  unfolding put_all get_last
  get-put_all j [] d = refl
  get-put_all j ((k, v) ∷ new) d =
      ground (arith, get-put_all j new (put_key k v d), get-put_key k j v d)

  pub get-del_all :
      (j : Text) (ks : List Text) (d : List (Text × V))
      → get j (del_all ks d) ≡ (if mem j ks then none else get j d)
  unfolding del_all mem
  get-del_all j [] d = refl
  get-del_all j (k ∷ ks) d =
      ground (arith, get-del_all j ks (del_key k d), get-del_key k j d, teq_iff k j, teq_iff j k)

-- No key stands twice: the first value of a key is the last.
abbrev pub IsDict {ℓ} : {V : Type ℓ} → List (Text × V) → Type ℓ
IsDict d = (k : Text) → get_last k d ≡ get k d

-- The keys of a dictionary, in their order
abbrev pub keys {ℓ} : {V : Type ℓ} → List (Text × V) → List Text
keys [] = []
keys ((k, v) ∷ d) = k ∷ keys d

module _ {ℓ} {V : Type ℓ} where
  mem-keys-put_key :
      (j k : Text) (v : V) (d : List (Text × V))
      → mem j (keys (put_key k v d)) ≡ (teq k j || mem j (keys d))
  unfolding put_key mem
  mem-keys-put_key j k v [] = refl
  mem-keys-put_key j k v ((i, w) ∷ d) = grind (arith, mem-keys-put_key j k v d, teq_iff i k)

  IsDistinct-put_key :
      (k : Text) (v : V) (d : List (Text × V))
      → IsDistinct (keys d)
      → IsDistinct (keys (put_key k v d))
  unfolding put_key mem
  IsDistinct-put_key k v [] h = (refl, tt)
  IsDistinct-put_key k v ((i, w) ∷ d) (fresh, h) = elim (Bool-cases (teq i k)) [
    | inl e ↦ rw e (fresh, h)
    | inr n ↦ rw n (
      ground (arith, mem-keys-put_key i k v d, teq_comm i k, n, fresh),
      IsDistinct-put_key k v d h,
    )
  ]

  -- A dictionary that is updated has no key twice.
  pub IsDistinct-put_all :
      (new d : List (Text × V)) → IsDistinct (keys d) → IsDistinct (keys (put_all new d))
  unfolding put_all
  IsDistinct-put_all [] d h = h
  IsDistinct-put_all ((k, v) ∷ new) d h =
      IsDistinct-put_all new (put_key k v d) (IsDistinct-put_key k v d h)

  pub get-missing : (j : Text) (d : List (Text × V)) → mem j (keys d) ≡ false → get j d ≡ none
  unfolding get mem
  get-missing j [] h = refl
  get-missing j ((k, v) ∷ d) h = ground (arith, get-missing j d)
