-- ===== src/Aws/Document.antt =====
-- A policy document as the list of its statements, and `S3AccessPolicy.statements`, the lookup
-- table of controlpanel/api/aws.py. The table holds references to statements of the document: an
-- entry is the last statement with that Sid, since `__init__` overwrites earlier entries and
-- `_build_statement` appends. So a Sid is a handle, and a change through it is `update`.
use mathlib.Core.Option
use mathlib.Core.Path.{subst}
use analytics_platform_contr.Prelude.{
  ◌≡◌, refl, Text, teq, teq_iff, Bool, true, false, Option, none, some, List, [], ◌∷◌, ◌++◌, any,
  any-append, if◌then◌else◌, arith, Bool-cases, Option-cases, filter, inl, inr,
}
use analytics_platform_contr.Aws.Statement.{Statement}

abbrev pub Document : Type 0
Document = List Statement

unfoldable pub has_sid : Text → Statement → Bool
has_sid t s = elim s.sid [ none ↦ false | some u ↦ teq u t ]

-- self.statements.get(sid)
unfoldable pub find : Text → Document → Option Statement
find t [] = none
find t (s ∷ d) = elim (find t d) [ some u ↦ some u | none ↦ if has_sid t s then some s else none ]

-- A change in place of the statement that self.statements[sid] refers to.
unfoldable pub update : Text → (Statement → Statement) → Document → Document
update t f [] = []
update t f (s ∷ d) =
    let rest = update t f d in
    if any (has_sid t) d then s ∷ rest else (if has_sid t s then f s else s) ∷ d

-- No two statements have one Sid, which IAM asks of a document.
abbrev pub IsUnique : Document → Type 0
IsUnique [] = Unit
IsUnique (s ∷ d) = ((t : Text) → has_sid t s ≡ true → any (has_sid t) d ≡ false) × IsUnique d

pub find-none : (t : Text) (d : Document) → any (has_sid t) d ≡ false → find t d ≡ none
unfolding find
find-none t [] h = refl
find-none t (s ∷ d) h = ground (arith, find-none t d)

pub find-some :
    (t : Text) (d : Document) → any (has_sid t) d ≡ true → (s : Statement) × (find t d ≡ some s)
unfolding find
find-some t [] h = ground arith
find-some t (s ∷ d) h = elim (Bool-cases (any (has_sid t) d)) [
  | inl e ↦ let (u, p) = find-some t d e in (u, ground arith)
  | inr e ↦ (s, ground (arith, find-none t d e))
]

-- Where nothing is found no statement has the Sid.
pub any-has_sid_of_find : (t : Text) (d : Document) → find t d ≡ none → any (has_sid t) d ≡ false
any-has_sid_of_find t d h = elim (Bool-cases (any (has_sid t) d)) [
  | inl e ↦ let (u, p) = find-some t d e in ground arith
  | inr e ↦ e
]

-- What is found has the Sid.
pub has_sid-find :
    (t : Text) (d : Document) (s : Statement) → find t d ≡ some s → has_sid t s ≡ true
unfolding find
has_sid-find t [] s h = ground arith
has_sid-find t (x ∷ d) s h = ground (arith, has_sid-find t d s)

pub find-append_new :
    (t : Text) (d : Document) (s : Statement)
    → find t (d ++ s ∷ []) ≡ (if has_sid t s then some s else find t d)
unfolding find
find-append_new t [] s = refl
find-append_new t (x ∷ d) s = ground (arith, find-append_new t d s)

-- A statement has one Sid.
has_sid_injective : (t j : Text) (s : Statement) → has_sid t s ≡ true → has_sid j s ≡ true → t ≡ j
unfolding has_sid
has_sid_injective t j s h k = elim (Option-cases s.sid) [
  | inl e ↦ ground arith
  | inr (u, e) ↦ ground (arith, teq_iff u t, teq_iff u j)
]

module _ (t : Text) (f : Statement → Statement) (keeps : (s : Statement) → (f s).sid ≡ s.sid) where
  has_sid-keeps : (j : Text) (s : Statement) → has_sid j (f s) ≡ has_sid j s
  unfolding has_sid
  has_sid-keeps j s = rw (keeps s)

  head-sid :
      (j : Text) (s : Statement)
      → has_sid j (if has_sid t s then f s else s) ≡ true
      → has_sid j s ≡ true
  head-sid j s h = ground (arith, has_sid-keeps j s)

  pub any-update : (j : Text) (d : Document) → any (has_sid j) (update t f d) ≡ any (has_sid j) d
  unfolding update
  any-update j [] = refl
  any-update j (s ∷ d) = ground (arith, any-update j d, has_sid-keeps j s)

  find-update_self : (d : Document) → find t (update t f d) ≡ Option.map f (find t d)
  unfolding find update
  find-update_self [] = refl
  find-update_self (s ∷ d) = elim (Bool-cases (any (has_sid t) d)) [
    | inl e ↦ let (u, p) = find-some t d e in ground (arith, find-update_self d)
    | inr e ↦ ground (arith, find-none t d e, has_sid-keeps t s)
  ]

  find-update_ne : (j : Text) (d : Document) → teq t j ≡ false → find j (update t f d) ≡ find j d
  unfolding find update
  find-update_ne j [] h = refl
  find-update_ne j (s ∷ d) h =
      ground (arith, find-update_ne j d h, has_sid-keeps j s, has_sid_injective t j s, teq_iff t j)

  -- A change through the handle `t` shows at `t` alone.
  pub find-update :
      (j : Text) (d : Document)
      → find j (update t f d) ≡ (if teq t j then Option.map f (find j d) else find j d)
  find-update j d = elim (Bool-cases (teq t j)) [
    | inl e ↦ rw e (
        subst (λ k. find k (update t f d) ≡ Option.map f (find k d)) ((teq_iff t j).0 e)
          (find-update_self d))
    | inr e ↦ rw e (find-update_ne j d e)
  ]

-- A change keeps the Sids, so it keeps the document unique.
pub IsUnique-update :
    (t : Text) (f : Statement → Statement) (d : Document)
    → ((s : Statement) → (f s).sid ≡ s.sid)
    → IsUnique d
    → IsUnique (update t f d)
unfolding update
IsUnique-update t f [] keeps h = tt
IsUnique-update t f (s ∷ d) keeps (fresh, h) = elim (Bool-cases (any (has_sid t) d)) [
  | inl e ↦ rw e ((λ j k. rw (any-update t f keeps j d) (fresh j k)), IsUnique-update t f d keeps h)
  | inr e ↦ rw e ((λ j k. fresh j (head-sid t f keeps j s k)), h)
]

pub IsUnique-append_new :
    (d : Document) (s : Statement)
    → ((t : Text) → has_sid t s ≡ true → any (has_sid t) d ≡ false)
    → IsUnique d
    → IsUnique (d ++ s ∷ [])
IsUnique-append_new [] s fresh h = ((λ t k. refl), tt)
IsUnique-append_new (x ∷ d) s fresh (first, h) = (
  (λ t k. rw (any-append (has_sid t) d (s ∷ [])) (ground (arith, first t k, fresh t))),
  IsUnique-append_new d s (λ t k. ground (arith, fresh t k)) h,
)

-- The document with the statements that a test keeps.
pub any-filter :
    (t : Text) (p : Statement → Bool) (d : Document)
    → any (has_sid t) d ≡ false
    → any (has_sid t) (filter p d) ≡ false
any-filter t p [] h = refl
any-filter t p (s ∷ d) h = ground (arith, any-filter t p d)

pub IsUnique-filter : (p : Statement → Bool) (d : Document) → IsUnique d → IsUnique (filter p d)
IsUnique-filter p [] h = tt
IsUnique-filter p (s ∷ d) (fresh, h) = elim (Bool-cases (p s)) [
  | inl e ↦ rw e ((λ t k. any-filter t p d (fresh t k)), IsUnique-filter p d h)
  | inr e ↦ rw e (IsUnique-filter p d h)
]

-- In a unique document a removed statement uncovers no other one.
pub find-filter :
    (t : Text) (p : Statement → Bool) (d : Document)
    → IsUnique d
    → find t (filter p d) ≡ elim (find t d) [ none ↦ none | some s ↦ if p s then some s else none ]
unfolding find
find-filter t p [] h = refl
find-filter t p (s ∷ d) (fresh, h) = elim (Bool-cases (has_sid t s)) [
  | inl e ↦
      ground
        (arith, find-none t d (fresh t e), find-none t (filter p d) (any-filter t p d (fresh t e)))
  | inr e ↦ ground (arith, find-filter t p d h)
]
