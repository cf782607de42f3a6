-- ===== src/Aws/S3AccessPolicy/Sids.antt =====
-- A document loads exactly when each statement has a Sid, and every method keeps that: what the
-- program saves it can load again.
use analytics_platform_contr.Prelude.{
  ◌≡◌, refl, Text, Bool, true, false, Option, none, some, [], ◌∷◌, ◌++◌, all, filter, arith,
  Option-cases, Bool-cases, inl, inr,
}
use analytics_platform_contr.Aws.Statement.{Statement, base_statement}
use analytics_platform_contr.Aws.Document.{Document, update}
use analytics_platform_contr.Aws.S3AccessPolicy.{
  Md5, construct_sid, ensure, build_statement, statement, through, append_resource, add_resource,
  drop_resource, remove_resource, has_resource, put,
}
use analytics_platform_contr.Aws.S3AccessPolicy.Load.{
  load_statement, load_statements, load-cons, load-nil,
}

abbrev pub names_sid : Statement → Bool
names_sid s = elim s.sid [ none ↦ false | some _ ↦ true ]

abbrev pub HasSids : Document → Type 0
HasSids d = all names_sid d ≡ true

pub HasSids-load : (d e : Document) → load_statements d ≡ some e → HasSids e
unfolding load_statement
HasSids-load [] e h = rw (load-nil e h)
HasSids-load (s ∷ d) e h =
    let (u, r, shape, first, rest) = load-cons s d e h in
    rw shape (ground (arith, HasSids-load d r rest))

-- A statement with a Sid loads.
load_statement_total :
    (s : Statement) → names_sid s ≡ true → (u : Statement) × (load_statement s ≡ some u)
unfolding load_statement
load_statement_total s h = elim (Option-cases (load_statement s)) [
  | inl e ↦ ground arith
  | inr (u, e) ↦ (u, e)
]

pub load_total : (d : Document) → HasSids d → (e : Document) × (load_statements d ≡ some e)
unfolding load_statements
load_total [] h = ([], refl)
load_total (s ∷ d) h =
    let (u, first) = load_statement_total s (ground arith) in
    let (r, rest) = load_total d (ground arith) in (u ∷ r, rw (first, rest))

load_statement_fails : (s : Statement) → names_sid s ≡ false → load_statement s ≡ none
unfolding load_statement
load_statement_fails s h = ground arith

-- One statement without a Sid is enough for the load to fail.
pub load_fails : (d : Document) → all names_sid d ≡ false → load_statements d ≡ none
unfolding load_statements
load_fails [] h = ground arith
load_fails (s ∷ d) h = elim (Bool-cases (names_sid s)) [
  | inl e ↦ ground (arith, load_fails d)
  | inr e ↦ ground (arith, load_statement_fails s e)
]

pub HasSids-update :
    (t : Text) (f : Statement → Statement) (d : Document)
    → ((s : Statement) → (f s).sid ≡ s.sid)
    → HasSids d
    → HasSids (update t f d)
unfolding update
HasSids-update t f [] keeps h = refl
HasSids-update t f (s ∷ d) keeps h = ground (arith, HasSids-update t f d keeps, keeps s)

HasSids-append_new :
    (d : Document) (s : Statement) → names_sid s ≡ true → HasSids d → HasSids (d ++ s ∷ [])
HasSids-append_new [] s n h = ground arith
HasSids-append_new (x ∷ d) s n h = ground (arith, HasSids-append_new d s n)

HasSids-ensure :
    (base : Statement) (sid : Text) (d : Document) → HasSids d → HasSids (ensure base sid d)
unfolding ensure build_statement
HasSids-ensure base sid d h = ground (arith, HasSids-append_new d (record base { sid = some sid }))

pub HasSids-through :
    (md5 : Md5) (f : Statement → Statement) (base_sid : Text) (suffix : Option Text) (d : Document)
    → ((s : Statement) → (f s).sid ≡ s.sid)
    → HasSids d
    → HasSids (through f (statement md5 base_sid suffix d))
unfolding through statement
HasSids-through md5 f base_sid suffix d keeps h = elim (Option-cases (base_statement base_sid)) [
  | inl e ↦ ground arith
  | inr (b, e) ↦
      let sid = construct_sid md5 base_sid suffix in
      ground (arith, HasSids-update sid f (ensure b sid d) keeps (HasSids-ensure b sid d h))
]

pub HasSids-add_resource :
    (md5 : Md5) (arn base_sid : Text) (suffix : Option Text) (d : Document)
    → HasSids d
    → HasSids (add_resource md5 arn base_sid suffix d)
unfolding add_resource append_resource
HasSids-add_resource md5 arn base_sid suffix d =
    HasSids-through md5 (append_resource arn) base_sid suffix d (λ s. refl)

drop_resource-sid : (arn : Text) (s : Statement) → (drop_resource arn s).sid ≡ s.sid
unfolding drop_resource
drop_resource-sid arn s = ground arith

pub HasSids-remove_resource :
    (md5 : Md5) (arn base_sid : Text) (d : Document)
    → HasSids d
    → HasSids (remove_resource md5 arn base_sid d)
unfolding remove_resource
HasSids-remove_resource md5 arn base_sid d =
    HasSids-through md5 (drop_resource arn) base_sid none d (drop_resource-sid arn)

HasSids-filter : (p : Statement → Bool) (d : Document) → HasSids d → HasSids (filter p d)
HasSids-filter p [] h = refl
HasSids-filter p (s ∷ d) h = ground (arith, HasSids-filter p d)

pub HasSids-put : (d : Document) → HasSids d → HasSids (put d)
unfolding put
HasSids-put d = HasSids-filter has_resource d
