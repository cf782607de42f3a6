-- ===== src/Aws/S3AccessPolicy/Load.antt =====
-- `S3AccessPolicy.__init__` of controlpanel/api/aws.py: each managed statement of a loaded document
-- is brought up to date with its base statement.
use analytics_platform_contr.Prelude.{
  ◌≡◌, Text, Option, none, some, [], ◌∷◌, ◌-◌, any, length, take, arith,
}
use analytics_platform_contr.Aws.Statement.{Statement, base_statement}
use analytics_platform_contr.Aws.Document.{Document, has_sid, IsUnique}
use analytics_platform_contr.Aws.S3AccessPolicy.Resources.{resources, resources-cons}

-- sid[:-SID_SUFFIX_LEN]
unfoldable pub without_suffix : Text → Text
without_suffix sid = take (length sid - 32) sid

-- stmt.update(deepcopy(BASE_S3_ACCESS_STATEMENT[…])); stmt["Sid"] = sid
abbrev refresh : Text → Statement → Statement → Statement
refresh sid base stmt = record stmt { sid = some sid; action = base.action; effect = base.effect }

-- One round of the loop over the statements. Slicing the Sid of a statement that has none raises
-- TypeError, which is `none`.
unfoldable pub load_statement : Statement → Option Statement
load_statement stmt = elim stmt.sid [
  | none ↦ none
  | some sid ↦ elim (base_statement sid) [
    | some base ↦ some (refresh sid base stmt)
    | none ↦ elim (base_statement (without_suffix sid)) [
      | some base ↦ some (refresh sid base stmt)
      | none ↦ some stmt
    ]
  ]
]

abbrev cons_loaded : Option Statement → Option Document → Option Document
cons_loaded (some s) (some d) = some (s ∷ d)
cons_loaded _ _ = none

unfoldable pub load_statements : Document → Option Document
load_statements [] = some []
load_statements (s ∷ d) = cons_loaded (load_statement s) (load_statements d)

-- Loading changes neither the Sid nor the resources of a statement.
load_statement_keeps :
    (s u : Statement)
    → load_statement s ≡ some u
    → (u.sid ≡ s.sid) × (u.resource ≡ s.resource) × (u.condition ≡ s.condition)
unfolding load_statement
load_statement_keeps s u h = ground arith

has_sid-load : (t : Text) (s u : Statement) → load_statement s ≡ some u → has_sid t u ≡ has_sid t s
unfolding has_sid
has_sid-load t s u h = ground (arith, load_statement_keeps s u h)

-- To take a loaded document apart.
pub load-cons :
    (s : Statement) (d e : Document)
    → load_statements (s ∷ d) ≡ some e
    → (u : Statement) × (r : Document) × (e ≡ u ∷ r)
      × (load_statement s ≡ some u)
      × (load_statements d ≡ some r)
unfolding load_statements
load-cons s d e h = ground arith

pub load-nil : (e : Document) → load_statements [] ≡ some e → e ≡ []
unfolding load_statements
load-nil e h = ground arith

any-load :
    (t : Text) (d e : Document) → load_statements d ≡ some e → any (has_sid t) e ≡ any (has_sid t) d
any-load t [] e h = rw (load-nil e h)
any-load t (s ∷ d) e h =
    let (u, r, shape, first, rest) = load-cons s d e h in
    rw shape (ground (arith, has_sid-load t s u first, any-load t d r rest))

pub IsUnique-load : (d e : Document) → load_statements d ≡ some e → IsUnique d → IsUnique e
IsUnique-load [] e h v = rw (load-nil e h) tt
IsUnique-load (s ∷ d) e h (fresh, v) =
    let (u, r, shape, first, rest) = load-cons s d e h in
    rw shape (
      (λ t k. rw (any-load t d r rest) (fresh t (rw (← has_sid-load t s u first) k))),
      IsUnique-load d r rest v,
    )

-- Loading changes the resources under no Sid.
pub resources-load :
    (j : Text) (d e : Document) → load_statements d ≡ some e → resources j e ≡ resources j d
resources-load j [] e h = rw (load-nil e h)
resources-load j (s ∷ d) e h =
    let (u, r, shape, first, rest) = load-cons s d e h in
    rw (shape, resources-cons j u r, resources-cons j s d, any-load j d r rest)
      (ground (
        arith,
        resources-load j d r rest,
        has_sid-load j s u first,
        load_statement_keeps s u first,
      ))
